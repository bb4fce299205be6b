-- ===== src/Base/Text/Decimal.antt =====
-- A number that is printed is read back.
use Prim.Native.Nat.{ℕ, zero, suc, ◌+◌, ◌-◌, ◌*◌, ◌/◌, ◌%◌, ◌≤◌, ◌<◌}
use mathlib.Core.Path.{◌≡◌, refl, sym, ap, ◌∙◌}
use mathlib.Core.Logic.{inl, inr}
use mathlib.Core.Bool.{Bool, true, false}
use mathlib.Core.Option.{some}
use mathlib.Core.List.{[], ◌∷◌, ◌++◌, reverse, reverse-cons}
use native.Mathlib.Omega.{arith}
use tokumai.Base.Tests.{ltb, if◌then◌else◌, Bool-cases}
use tokumai.Base.Bytes.{Bytes}
use tokumai.Base.Text.{digits, parse_below, digits_from, decimal}

-- Whether a byte of a kind occurs.
unfoldable pub occurs : (ℕ → Bool) → Bytes → Bool
occurs f [] = false
occurs f (b ∷ bs) = let rest = occurs f bs in if f b then true else rest

digits-append :
    (acc v b : ℕ) (bs : Bytes)
    → digits acc bs ≡ some v
    → 48 ≤ b
    → b ≤ 57
    → digits acc (bs ++ b ∷ []) ≡ some (v * 10 + (b - 48))
unfolding digits
digits-append acc v b [] e lo hi = ground arith
digits-append acc v b (c ∷ cs) e lo hi = ground (arith, digits-append (acc * 10 + (c - 48)) v b cs)

-- The digits of a number with enough fuel.
digits_from-reads : (k n : ℕ) → n < k → digits 0 (reverse (digits_from k n)) ≡ some n
unfolding digits_from digits
digits_from-reads zero n h = absurd (omega arith)
digits_from-reads (suc k) n h = elim (Bool-cases (ltb n 10)) [
  | inl t ↦ rw t (ground arith)
  | inr f ↦
      let ih = digits_from-reads k (n / 10) (ground arith) in
      let step =
        digits-append 0 (n / 10) (48 + n % 10) (reverse (digits_from k (n / 10))) ih (omega arith)
          (omega arith) in
      let value : n / 10 * 10 + (48 + n % 10 - 48) ≡ n = omega arith in
      rw (f, reverse-cons (48 + n % 10) (digits_from k (n / 10))) (rw value at (step))
]

nonempty : (b : ℕ) (bs : Bytes) → (c : ℕ) × (cs : Bytes) × (bs ++ b ∷ [] ≡ c ∷ cs)
nonempty b [] = (b, [], refl)
nonempty b (c ∷ cs) = (c, cs ++ b ∷ [], refl)

decimal-cons : (n : ℕ) → (c : ℕ) × (cs : Bytes) × (decimal n ≡ c ∷ cs)
unfolding decimal digits_from
decimal-cons n = elim (Bool-cases (ltb n 10)) [
  | inl t ↦ (48 + n, [], rw t refl)
  | inr f ↦
      let more = nonempty (48 + n % 10) (reverse (digits_from n (n / 10))) in
      (more.0, more.1, rw (f, reverse-cons (48 + n % 10) (digits_from n (n / 10))) more.2)
]

parse_below-digits :
    (limit n b : ℕ) (bs : Bytes)
    → digits 0 (b ∷ bs) ≡ some n
    → n < limit
    → parse_below limit (b ∷ bs) ≡ some n
unfolding parse_below digits
parse_below-digits limit n b [] e h = ground arith
parse_below-digits limit n b (c ∷ cs) e h = ground arith

pub digits-decimal : (n : ℕ) → digits 0 (decimal n) ≡ some n
unfolding decimal
digits-decimal n = digits_from-reads (suc n) n (omega arith)

-- A number below the limit that is printed is read as itself.
pub parse_below-decimal : (limit n : ℕ) → n < limit → parse_below limit (decimal n) ≡ some n
parse_below-decimal limit n h =
    let d = decimal-cons n in
    let e : digits 0 (d.0 ∷ d.1) ≡ some n = ap (digits 0) (sym d.2) ∙ digits-decimal n in
    rw d.2 (parse_below-digits limit n d.0 d.1 e h)

pub digits-occurs :
    (f : ℕ → Bool) (acc v : ℕ) (bs : Bytes)
    → ((b : ℕ) → 48 ≤ b → b ≤ 57 → f b ≡ false)
    → digits acc bs ≡ some v
    → occurs f bs ≡ false
unfolding digits occurs
digits-occurs f acc v [] none_of e = refl
digits-occurs f acc v (b ∷ bs) none_of e =
    ground (arith, none_of b, digits-occurs f (acc * 10 + (b - 48)) v bs none_of)
