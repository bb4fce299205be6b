-- ===== src/Base/Text.antt =====
-- Operations of Rust's `str` on ASCII text, as the bytes of its characters.
pub mod Decimal
pub mod Pieces
use Prim.Native.Nat.{ℕ, zero, suc, ◌+◌, ◌-◌, ◌*◌, ◌/◌, ◌%◌}
use mathlib.Core.Path.{◌≡◌, refl, sym, ap, ◌∙◌}
use mathlib.Core.Bool.{Bool, true, false, ◌&&◌, ◌||◌}
use mathlib.Core.Option.{Option, none, some}
use mathlib.Core.List.{List, [], ◌∷◌, ◌++◌, reverse}
use native.Mathlib.Omega.{arith}
use tokumai.Base.Tests.{◌==◌, ltb, leb, if◌then◌else◌}
use tokumai.Base.Lists.{length, take, drop, length-append, take-append-drop}
use tokumai.Base.Bytes.{Bytes, drop-append}

unfoldable pub lower : ℕ → ℕ
lower b = if leb 65 b && leb b 90 then b + 32 else b

unfoldable pub is_white : ℕ → Bool
is_white b = b == 32 || (leb 9 b && leb b 13)

-- Without the leading bytes of a kind.
unfoldable pub trim_start : (ℕ → Bool) → Bytes → Bytes
trim_start f [] = []
trim_start f (b ∷ bs) = let rest = trim_start f bs in if f b then rest else b ∷ bs

unfoldable pub trim_end : (ℕ → Bool) → Bytes → Bytes
unfolding trim_start
trim_end f bs = reverse (trim_start f (reverse bs))

unfoldable pub trim : Bytes → Bytes
unfolding trim_end trim_start
trim bs = trim_start is_white (trim_end is_white bs)

abbrev pub onto_first : ℕ → List Bytes → List Bytes
onto_first b [] = (b ∷ []) ∷ []
onto_first b (p ∷ ps) = (b ∷ p) ∷ ps

-- `split` at every byte of a kind, with one piece at least.
unfoldable pub split_at : (ℕ → Bool) → Bytes → List Bytes
split_at f [] = [] ∷ []
split_at f (b ∷ bs) = let rest = split_at f bs in if f b then [] ∷ rest else onto_first b rest

-- `split_once` at the first byte of a kind.
unfoldable pub split_once : (ℕ → Bool) → Bytes → Option (Bytes × Bytes)
split_once f [] = none
split_once f (b ∷ bs) =
    let rest : Option (Bytes × Bytes) = elim (split_once f bs) [
      | none ↦ none
      | some (x, y) ↦ some (b ∷ x, y)
    ] in
    if f b then some ([], bs) else rest

abbrev pub digit : ℕ → Option ℕ
digit b = if leb 48 b && leb b 57 then some (b - 48) else none

unfoldable pub digits : ℕ → Bytes → Option ℕ
digits acc [] = some acc
digits acc (b ∷ bs) = elim (digit b) [ none ↦ none | some d ↦ digits (acc * 10 + d) bs ]

abbrev pub below : ℕ → Option ℕ → Option ℕ
below limit none = none
below limit (some n) = if ltb n limit then some n else none

-- `parse::<u16>()`
unfoldable pub parse_u16 : Bytes → Option ℕ
unfolding digits
parse_u16 [] = none
parse_u16 (b ∷ []) = if b == 43 then none else below 65_536 (digits 0 (b ∷ []))
parse_u16 (b ∷ c ∷ bs) = below 65_536 (digits 0 (if b == 43 then c ∷ bs else b ∷ c ∷ bs))

-- `a == b`
unfoldable pub equal_bytes : Bytes → Bytes → Bool
equal_bytes [] [] = true
equal_bytes (x ∷ xs) (y ∷ ys) = let rest = equal_bytes xs ys in if x == y then rest else false
equal_bytes _ _ = false

unfoldable pub ends_with : Bytes → Bytes → Bool
ends_with s host =
    leb (length s) (length host) && equal_bytes (drop (length host - length s) host) s

-- `rsplit_once(':')`
unfoldable pub rsplit_once : (ℕ → Bool) → Bytes → Option (Bytes × Bytes)
unfolding split_once
rsplit_once f bs = elim (split_once f (reverse bs)) [
  | none ↦ none
  | some (x, y) ↦ some (reverse y, reverse x)
]

-- `split_whitespace`, after `split_at`.
unfoldable pub without_empty : List Bytes → List Bytes
without_empty [] = []
without_empty ([] ∷ ps) = without_empty ps
without_empty ((b ∷ p) ∷ ps) = (b ∷ p) ∷ without_empty ps

abbrev pub first_of : List Bytes → Bytes
first_of [] = []
first_of (p ∷ ps) = p

pub equal_bytes→≡ : (xs ys : Bytes) → equal_bytes xs ys ≡ true → xs ≡ ys
unfolding equal_bytes
equal_bytes→≡ [] [] e = refl
equal_bytes→≡ [] (y ∷ ys) e = cc
equal_bytes→≡ (x ∷ xs) [] e = cc
equal_bytes→≡ (x ∷ xs) (y ∷ ys) e = ground (arith, equal_bytes→≡ xs ys)

pub equal_bytes_refl : (xs : Bytes) → equal_bytes xs xs ≡ true
unfolding equal_bytes
equal_bytes_refl [] = refl
equal_bytes_refl (x ∷ xs) = ground (arith, equal_bytes_refl xs)

pub ends_with→ : (s host : Bytes) → ends_with s host ≡ true → (front : Bytes) × (host ≡ front ++ s)
unfolding ends_with
ends_with→ s host e =
    let same : drop (length host - length s) host ≡ s =
      ground (arith, equal_bytes→≡ (drop (length host - length s) host) s) in
    (
      take (length host - length s) host,
      sym (
          ap (λ (t : Bytes). take (length host - length s) host ++ t) (sym same)
          ∙ take-append-drop (length host - length s) host),
    )

pub ends_with-append : (s front : Bytes) → ends_with s (front ++ s) ≡ true
unfolding ends_with
ends_with-append s front =
    let n : length (front ++ s) - length s ≡ length front = omega (arith, length-append front s) in
    let d : drop (length (front ++ s) - length s) (front ++ s) ≡ s =
      rw n (drop-append (length front) front s refl) in
    ground (arith, d, equal_bytes_refl s, length-append front s)

-- `strip_prefix` and `strip_suffix`
unfoldable pub strip_prefix : Bytes → Bytes → Option Bytes
strip_prefix [] bs = some bs
strip_prefix (p ∷ ps) [] = none
strip_prefix (p ∷ ps) (b ∷ bs) = let rest = strip_prefix ps bs in if p == b then rest else none

unfoldable pub strip_suffix : Bytes → Bytes → Option Bytes
unfolding ends_with
strip_suffix s bs = if ends_with s bs then some (take (length bs - length s) bs) else none

-- `parse` of an unsigned number below a limit.
unfoldable pub parse_below : ℕ → Bytes → Option ℕ
unfolding digits
parse_below limit [] = none
parse_below limit (b ∷ []) = if b == 43 then none else below limit (digits 0 (b ∷ []))
parse_below limit (b ∷ c ∷ bs) = below limit (digits 0 (if b == 43 then c ∷ bs else b ∷ c ∷ bs))

-- The decimal digits of a number, the last first, on fuel.
unfoldable pub digits_from : ℕ → ℕ → Bytes
digits_from zero n = []
digits_from (suc k) n =
    let rest = digits_from k (n / 10) in if ltb n 10 then (48 + n) ∷ [] else (48 + n % 10) ∷ rest

-- A number as it is printed; its value is fuel enough, since a round divides it by ten.
unfoldable pub decimal : ℕ → Bytes
unfolding digits_from
decimal n = reverse (digits_from (suc n) n)
