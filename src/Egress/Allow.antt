-- ===== src/Egress/Allow.antt =====
-- crates/egress/src/lib.rs: which destinations the host's proxy connects to. Text is ASCII here, as
-- the bytes of its characters.
pub mod Rules
use tokumai.Base.{
  ℕ, zero, suc, ◌+◌, ◌-◌, ◌*◌, ◌≤◌, Bool, true, false, ◌&&◌, ◌||◌, Option, none, some, List, [],
  ◌∷◌, ◌++◌, length, take, drop, ltb, leb, ◌==◌, if◌then◌else◌,
}
use mathlib.Core.List.{map}
use tokumai.Base.Result.{Result, ok, err, ◌>>=◌, ok_or}
use tokumai.Base.Bytes.{Bytes, codes}
use tokumai.Base.Text.{
  lower, is_white, trim_start, trim_end, trim, split_at, split_once, parse_u16, equal_bytes,
  ends_with, rsplit_once, without_empty, first_of,
}

pub data AllowError : Type 0 where
  host_and_ports : (line : ℕ) → AllowError
  bad_port : (line : ℕ) (port : Bytes) → AllowError

pub record Rule : Type 0 where
  pub host : Bytes
  pub ports : List ℕ

unfoldable pub ports_of : ℕ → List Bytes → Result AllowError (List ℕ)
ports_of n [] = ok []
ports_of n (p ∷ ps) = do
  port ← ok_or (parse_u16 (trim p)) (bad_port n p)
  ports ← ports_of n ps
  ok (port ∷ ports)

-- One line without its comment; none for an empty one.
unfoldable pub rule_of : ℕ → Bytes → Result AllowError (Option Rule)
unfolding ports_of
rule_of n [] = ok none
rule_of n (b ∷ bs) = do
  parts ← ok_or (split_once is_white (b ∷ bs)) (host_and_ports n)
  ports ← ports_of n (split_at (λ c. c == 44) parts.1)
  ok (some (record { host = map lower parts.0; ports = ports }))

abbrev and_rule : Option Rule → List Rule → List Rule
and_rule none rules = rules
and_rule (some r) rules = r ∷ rules

unfoldable pub rules_of : ℕ → List Bytes → Result AllowError (List Rule)
unfolding rule_of
rules_of n [] = ok []
rules_of n (line ∷ lines) = do
  found ← rule_of n (trim (first_of (split_at (λ c. c == 35) line)))
  rules ← rules_of (n + 1) lines
  ok (and_rule found rules)

-- `Allowlist::parse`
unfoldable pub parse_rules : Bytes → Result AllowError (List Rule)
unfolding rules_of split_at
parse_rules text = rules_of 1 (split_at (λ c. c == 10) text)

unfoldable pub name_ok : Bytes → Bytes → Bool
unfolding ends_with
name_ok [] host = equal_bytes host []
name_ok (c ∷ suffix) host =
    if c == 46
    then ends_with (46 ∷ suffix) host || equal_bytes host suffix
    else equal_bytes host (c ∷ suffix)

unfoldable pub has_port : ℕ → List ℕ → Bool
has_port port [] = false
has_port port (p ∷ ps) = p == port || has_port port ps

-- `self.rules.iter().any(…)` for a name in its plain form.
unfoldable pub any_rule : Bytes → ℕ → List Rule → Bool
unfolding name_ok has_port
any_rule host port [] = false
any_rule host port (r ∷ rs) =
    (name_ok r.host host && has_port port r.ports) || any_rule host port rs

-- The name as it is compared: without dots at its end, in small letters.
unfoldable pub plain_name : Bytes → Bytes
plain_name host = map lower (trim_end (λ c. c == 46) host)

unfoldable pub allows : List Rule → Bytes → ℕ → Bool
unfolding any_rule plain_name
allows rules host port = any_rule (plain_name host) port rules

pub data RequestError : Type 0 where
  too_long closed not_connect no_target no_port bad_request_port : RequestError

abbrev crlf_twice : Bytes
crlf_twice = 13 ∷ 10 ∷ 13 ∷ 10 ∷ []

-- The loop of `read_connect`, with what was read and what is still to come.
unfoldable pub read_head : Bytes → Bytes → Result RequestError Bytes
read_head head [] =
    if ends_with crlf_twice head
    then ok head
    else if ltb 8_192 (length head)
    then err too_long
    else err closed
read_head head (b ∷ bs) =
    let rest = read_head (head ++ b ∷ []) bs in
    if ends_with crlf_twice head
    then ok head
    else if ltb 8_192 (length head)
    then err too_long
    else rest

unfoldable pub target_of : List Bytes → Result RequestError (Bytes × ℕ)
unfolding rsplit_once
target_of [] = err not_connect
target_of (word ∷ []) =
    if equal_bytes word (codes "CONNECT") then err no_target else err not_connect
target_of (word ∷ target ∷ more) =
    if equal_bytes word (codes "CONNECT")
    then (do
      parts ← ok_or (rsplit_once (λ c. c == 58) target) no_port
      port ← ok_or (parse_u16 parts.1) bad_request_port
      ok (trim_end (λ c. c == 93) (trim_start (λ c. c == 91) parts.0), port))
    else err not_connect

unfoldable pub read_connect : Bytes → Result RequestError (Bytes × ℕ)
unfolding read_head target_of
read_connect input = do
  head ← read_head [] input
  target_of (without_empty (split_at is_white (first_of (split_at (λ c. c == 10) head))))

pub data Answer : Type 0 where
  bad_request forbidden established bad_gateway : Answer

-- What the proxy does with a request that it read.
unfoldable pub tunnel :
    List Rule → (Bytes → ℕ → Bool) → Result RequestError (Bytes × ℕ) → Answer × Option (Bytes × ℕ)
unfolding allows
tunnel rules reachable (err e) = (bad_request, none)
tunnel rules reachable (ok (host, port)) =
    if allows rules host port
    then ((if reachable host port then established else bad_gateway), some (host, port))
    else (forbidden, none)

-- One connection of the proxy: what it answers and where it connected to. `reachable` tells whether
-- a destination can be reached.
unfoldable pub serve : List Rule → (Bytes → ℕ → Bool) → Bytes → Answer × Option (Bytes × ℕ)
unfolding read_connect tunnel
serve rules reachable input = tunnel rules reachable (read_connect input)
