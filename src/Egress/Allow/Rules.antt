-- ===== src/Egress/Allow/Rules.antt =====
-- crates/egress/src/lib.rs: proofs about the list of allowed destinations.
use tokumai.Base.{
  ℕ, ◌≡◌, refl, ◌↔◌, ◌⊎◌, inl, inr, ◌≢◌, Bool, true, false, ◌&&◌, ◌||◌, Option, none, some, List,
  [], ◌∷◌, ◌++◌, ◌==◌, arith, Bool-cases,
}
use tokumai.Base.Result.{Result, ok, err}
use tokumai.Base.Bytes.{Bytes}
use tokumai.Base.Text.{
  ends_with, equal_bytes, equal_bytes→≡, equal_bytes_refl, ends_with→, ends_with-append,
}
use tokumai.Egress.Allow.{
  Rule, name_ok, has_port, any_rule, plain_name, allows, read_connect, serve, tunnel, RequestError,
}

-- A rule names a host: by its exact name, or, where it begins with a dot, the domain behind the dot
-- and every name below it.
pub data Names : Bytes → Bytes → Type 0 where
  exactly : (rule host : Bytes) → host ≡ rule → ((s : Bytes) → rule ≢ 46 ∷ s) → Names rule host
  the_domain : (rule suffix host : Bytes) → rule ≡ 46 ∷ suffix → host ≡ suffix → Names rule host
  below_it :
      (rule suffix front host : Bytes)
      → rule ≡ 46 ∷ suffix
      → host ≡ front ++ (46 ∷ suffix)
      → Names rule host

pub data Lists : ℕ → List ℕ → Type 0 where
  here : (port : ℕ) (ps : List ℕ) → Lists port (port ∷ ps)
  later : (port p : ℕ) (ps : List ℕ) → Lists port ps → Lists port (p ∷ ps)

-- Some rule of the list names the host and lists the port.
pub data Permits (host : Bytes) (port : ℕ) : List Rule → Type 0 where
  this_rule :
      (r : Rule) (rs : List Rule)
      → Names r.host host
      → Lists port r.ports
      → Permits host port (r ∷ rs)
  other_rule : (r : Rule) (rs : List Rule) → Permits host port rs → Permits host port (r ∷ rs)

or_cases : (a b : Bool) → (a || b) ≡ true → (a ≡ true) ⊎ (b ≡ true)
or_cases true b e = inl refl
or_cases false b e = inr e

and_both : (a b : Bool) → (a && b) ≡ true → (a ≡ true) × (b ≡ true)
and_both true b e = (refl, e)
and_both false b e = cc

-- A rule with a dot in front.
dot-Names :
    (suffix host : Bytes)
    → (ends_with (46 ∷ suffix) host || equal_bytes host suffix) ≡ true
    → Names (46 ∷ suffix) host
dot-Names suffix host e =
    elim (or_cases (ends_with (46 ∷ suffix) host) (equal_bytes host suffix) e) [
      | inl ends ↦
          below_it (46 ∷ suffix) suffix (ends_with→ (46 ∷ suffix) host ends).0 host refl
            (ends_with→ (46 ∷ suffix) host ends).1
      | inr same ↦ the_domain (46 ∷ suffix) suffix host refl (equal_bytes→≡ host suffix same)
    ]

cons-Names :
    (c : ℕ) (suffix host : Bytes) → name_ok (c ∷ suffix) host ≡ true → Names (c ∷ suffix) host
unfolding name_ok
cons-Names c suffix host e = elim (Bool-cases (c == 46)) [
  | inl dot ↦ let is_dot : c ≡ 46 = ground arith in rw is_dot (dot-Names suffix host (ground arith))
  | inr other ↦
      exactly (c ∷ suffix) host (equal_bytes→≡ host (c ∷ suffix) (ground arith))
        (λ s x. let n : c ≡ 46 = cc in absurd (ground arith))
]

name_ok-Names : (rule host : Bytes) → name_ok rule host ≡ true → Names rule host
unfolding name_ok
name_ok-Names [] host e = exactly [] host (equal_bytes→≡ host [] e) (λ s x. cc)
name_ok-Names (c ∷ suffix) host e = cons-Names c suffix host e

Names-name_ok : (rule host : Bytes) → Names rule host → name_ok rule host ≡ true
unfolding name_ok
Names-name_ok [] _ (exactly _ host e not_dot) = rw e (equal_bytes_refl [])
Names-name_ok (c ∷ r) _ (exactly _ host e not_dot) = elim (Bool-cases (c == 46)) [
  | inl dot ↦ let is_dot : c ≡ 46 = ground arith in absurd (not_dot r (rw is_dot refl))
  | inr other ↦ rw (e, other) (equal_bytes_refl (c ∷ r))
]
Names-name_ok _ _ (the_domain rule suffix host e same) =
    rw (e, same) (ground (arith, equal_bytes_refl suffix))
Names-name_ok _ _ (below_it rule suffix front host e same) =
    rw (e, same) (ground (arith, ends_with-append (46 ∷ suffix) front))

has_port-Lists : (port : ℕ) (ps : List ℕ) → has_port port ps ≡ true → Lists port ps
unfolding has_port
has_port-Lists port [] e = cc
has_port-Lists port (p ∷ ps) e = elim (or_cases (p == port) (has_port port ps) e) [
  | inl now ↦ let same : p ≡ port = ground arith in rw same (here port ps)
  | inr next ↦ later port p ps (has_port-Lists port ps next)
]

Lists-has_port : (port : ℕ) (ps : List ℕ) → Lists port ps → has_port port ps ≡ true
unfolding has_port
Lists-has_port _ _ (here port ps) = ground arith
Lists-has_port _ _ (later port p ps l) = ground (arith, Lists-has_port port ps l)

any_rule-Permits :
    (host : Bytes) (port : ℕ) (rules : List Rule)
    → any_rule host port rules ≡ true
    → Permits host port rules
unfolding any_rule
any_rule-Permits host port [] e = cc
any_rule-Permits host port (r ∷ rs) e =
    elim (or_cases (name_ok r.host host && has_port port r.ports) (any_rule host port rs) e) [
      | inl now ↦
          let (name, port_ok) = and_both (name_ok r.host host) (has_port port r.ports) now in
          this_rule r rs (name_ok-Names r.host host name) (has_port-Lists port r.ports port_ok)
      | inr next ↦ other_rule r rs (any_rule-Permits host port rs next)
    ]

Permits-any_rule :
    (host : Bytes) (port : ℕ) (rules : List Rule)
    → Permits host port rules
    → any_rule host port rules ≡ true
unfolding any_rule
Permits-any_rule host port _ (this_rule r rs name port_ok) =
    rw (Names-name_ok r.host host name, Lists-has_port port r.ports port_ok) refl
Permits-any_rule host port _ (other_rule r rs more) =
    ground (arith, Permits-any_rule host port rs more)

pub allows-Permits :
    (rules : List Rule) (host : Bytes) (port : ℕ)
    → (allows rules host port ≡ true) ↔ Permits (plain_name host) port rules
unfolding allows
allows-Permits rules host port =
    (any_rule-Permits (plain_name host) port rules, Permits-any_rule (plain_name host) port rules)

tunnel-allows :
    (rules : List Rule) (reachable : Bytes → ℕ → Bool) (r : Result RequestError (Bytes × ℕ))
    (host : Bytes) (port : ℕ)
    → (tunnel rules reachable r).1 ≡ some (host, port)
    → (r ≡ ok (host, port)) × (allows rules host port ≡ true)
unfolding tunnel
tunnel-allows rules reachable (err x) host port e = cc
tunnel-allows rules reachable (ok (to, at)) host port e =
    let both : (allows rules to at ≡ true)
        × ◌≡◌ {A = Option (Bytes × ℕ)} (some (to, at)) (some (host, port)) =
      elim (Bool-cases (allows rules to at)) [
        | inl y ↦ (y, rw y at e)
        | inr n ↦ absurd (no (rw n at e))
      ] in
    let same_host : to ≡ host = cc in
    let same_port : at ≡ port = cc in
    (rw (same_host, same_port) refl, rw (same_host, same_port) at both.0)
  where
    no : ◌≡◌ {A = Option (Bytes × ℕ)} none (some (host, port)) → ⊥
    no x = cc

-- Where the proxy connected to a host and a port, the request named them, and some rule of the list
-- has the port and the host by its exact name or, for a rule with a dot in front, that domain or a
-- name below it; the host is compared without dots at its end and in small letters.
pub serve-Permits :
    (rules : List Rule) (reachable : Bytes → ℕ → Bool) (input host : Bytes) (port : ℕ)
    → (serve rules reachable input).1 ≡ some (host, port)
    → (read_connect input ≡ ok (host, port)) × Permits (plain_name host) port rules
unfolding serve
serve-Permits rules reachable input host port e =
    let (was, yes_it) = tunnel-allows rules reachable (read_connect input) host port e in
    (was, (allows-Permits rules host port).0 yes_it)
