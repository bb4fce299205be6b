-- ===== src/Base/Text/Pieces.antt =====
-- Texts that were put together from pieces, taken apart again.
use Prim.Native.Nat.{ℕ, zero, suc, ◌≤◌}
use mathlib.Core.Path.{◌≡◌, refl, ap}
use mathlib.Core.Bool.{Bool, true, false}
use mathlib.Core.Option.{some}
use mathlib.Core.List.{[], ◌∷◌, ◌++◌}
use native.Mathlib.Omega.{arith}
use tokumai.Base.Tests.{==_refl}
use tokumai.Base.Lists.{length, take}
use tokumai.Base.Bytes.{Bytes}
use tokumai.Base.Text.{split_at, split_once, strip_prefix}
use tokumai.Base.Text.Decimal.{occurs}

pub strip_prefix-append : (p bs : Bytes) → strip_prefix p (p ++ bs) ≡ some bs
unfolding strip_prefix
strip_prefix-append [] bs = refl
strip_prefix-append (b ∷ p) bs = rw (==_refl b) (strip_prefix-append p bs)

pub occurs-append :
    (f : ℕ → Bool) (xs ys : Bytes)
    → occurs f xs ≡ false
    → occurs f ys ≡ false
    → occurs f (xs ++ ys) ≡ false
unfolding occurs
occurs-append f [] ys a b = b
occurs-append f (x ∷ xs) ys a b = ground (arith, occurs-append f xs ys)

pub split_once-append :
    (f : ℕ → Bool) (line : Bytes) (c : ℕ) (rest : Bytes)
    → occurs f line ≡ false
    → f c ≡ true
    → split_once f (line ++ c ∷ rest) ≡ some (line, rest)
unfolding split_once occurs
split_once-append f [] c rest none_in at = rw at refl
split_once-append f (b ∷ line) c rest none_in at =
    let b_not : f b ≡ false = ground arith in
    rw (b_not, split_once-append f line c rest (ground arith) at, split_once) refl

pub split_at-append :
    (f : ℕ → Bool) (piece : Bytes) (c : ℕ) (rest : Bytes)
    → occurs f piece ≡ false
    → f c ≡ true
    → split_at f (piece ++ c ∷ rest) ≡ piece ∷ split_at f rest
unfolding split_at occurs
split_at-append f [] c rest none_in at = rw at refl
split_at-append f (b ∷ piece) c rest none_in at =
    let b_not : f b ≡ false = ground arith in
    rw (b_not, split_at-append f piece c rest (ground arith) at) refl

pub split_at-one :
    (f : ℕ → Bool) (piece : Bytes) → occurs f piece ≡ false → split_at f piece ≡ piece ∷ []
unfolding split_at occurs
split_at-one f [] none_in = refl
split_at-one f (b ∷ piece) none_in =
    let b_not : f b ≡ false = ground arith in rw (b_not, split_at-one f piece (ground arith)) refl

pub take_all : (n : ℕ) (bs : Bytes) → length bs ≤ n → take n bs ≡ bs
take_all zero [] le = refl
take_all zero (b ∷ bs) le = absurd (omega arith)
take_all (suc n) [] le = refl
take_all (suc n) (b ∷ bs) le = ap (λ (t : Bytes). b ∷ t) (take_all n bs (omega arith))
