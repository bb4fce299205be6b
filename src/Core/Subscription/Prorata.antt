-- ===== src/Core/Subscription/Prorata.antt =====
-- What an upgrade adds: the proofs about `prorata_toku`.
use tokumai.Base.{ℕ, zero, suc, ◌+◌, ◌*◌, ◌/◌, ◌≤◌, ◌<◌, ◌≡◌, arith, min}
use tokumai.Core.Subscription.{prorata_toku}

div-le_of_le_mul : (a b t : ℕ) → 0 < t → a ≤ b * t → a / t ≤ b
div-le_of_le_mul a b t h k = grind arith

le_div_of_mul_le : (q x t : ℕ) → 0 < t → q * t ≤ x → q ≤ x / t
le_div_of_mul_le q x t h k = grind arith

div-add-le : (x y t : ℕ) → 0 < t → x / t + y / t ≤ (x + y) / t
div-add-le x y t h = le_div_of_mul_le (x / t + y / t) (x + y) t h (omega arith)

mul-min-le : (a b t : ℕ) → a * min b t ≤ a * t
mul-min-le a b t = let h : min b t ≤ t = omega arith in grind arith

prorata_toku_pos :
    (step remaining total : ℕ)
    → 0 < total
    → prorata_toku step remaining total ≡ step * min remaining total / total
unfolding prorata_toku
prorata_toku_pos step remaining total h = ground arith

-- Never more than the step, whatever is left of the period.
pub prorata_toku-le : (step remaining total : ℕ) → prorata_toku step remaining total ≤ step
unfolding prorata_toku
prorata_toku-le step remaining zero = omega arith
prorata_toku-le step remaining (suc t) =
    rw (prorata_toku_pos step remaining (suc t) (omega arith)) (
      div-le_of_le_mul (step * min remaining (suc t)) step (suc t) (omega arith)
        (mul-min-le step remaining (suc t)))

-- For two stretches that fit into the period, what an upgrade adds for each of them is together no
-- more than what it adds for both at once.
pub prorata_toku-add-le :
    (step a b total : ℕ)
    → a + b ≤ total
    → prorata_toku step a total + prorata_toku step b total ≤ prorata_toku step (a + b) total
unfolding prorata_toku
prorata_toku-add-le step a b zero h = omega arith
prorata_toku-add-le step a b (suc t) h =
    let ea : min a (suc t) ≡ a = omega arith in
    let eb : min b (suc t) ≡ b = omega arith in
    let ec : min (a + b) (suc t) ≡ a + b = omega arith in
    let ed : step * (a + b) ≡ step * a + step * b = omega arith in
    rw
      (
        prorata_toku_pos step a (suc t) (omega arith),
        prorata_toku_pos step b (suc t) (omega arith),
        prorata_toku_pos step (a + b) (suc t) (omega arith),
        ea,
        eb,
        ec,
        ed,
      )
      (div-add-le (step * a) (step * b) (suc t) (omega arith))
