-- ===== src/Core/Subscription/Returns.antt =====
-- crates/core/src/subscription.rs: histories of an `Allowance` beside the entitlement, and proofs about
-- them.
use tokumai.Base.{ℕ, ◌+◌, ◌-◌, ◌≤◌, ◌≡◌, arith}
use tokumai.Core.Subscription.{Allowance, u64_max, reset, add_upgrade, lapse, spend, give_back}

-- An allowance beside what its owner holds: the coins on devices, what was drawn from the
-- entitlement for them so far, and what returns have credited to the entitlement so far.
pub record Purse : Type 0 where
  pub allowance : Allowance
  pub coins : ℕ
  pub drawn : ℕ
  pub credited : ℕ

abbrev pub drawing : Purse → ℕ → Purse
drawing p want =
    let ((_, from_entitlement), a) = spend want p.allowance in
    record {
      allowance = a;
      coins = p.coins + want;
      drawn = p.drawn + from_entitlement;
      credited = p.credited;
    }

abbrev pub returning : Purse → ℕ → Purse
returning p value =
    let ((_, to_entitlement), a) = give_back value p.allowance in
    record {
      allowance = a;
      coins = p.coins - value;
      drawn = p.drawn;
      credited = p.credited + to_entitlement;
    }

-- What can happen to a purse. A draw stays below the saturation of the u64 counter, and no one
-- returns coins that they do not hold.
pub data Step (p : Purse) : Purse → Type 0 where
  begin :
      (start_ms end_ms granted : ℕ)
      → Step p (record p { allowance = reset start_ms end_ms granted p.allowance })
  upgrade : (extra : ℕ) → Step p (record p { allowance = add_upgrade extra p.allowance })
  end_of_plan : Step p (record p { allowance = lapse p.allowance })
  draw : (want : ℕ) → p.allowance.outstanding + want ≤ u64_max → Step p (drawing p want)
  hand_back : (value : ℕ) → value ≤ p.coins → Step p (returning p value)

pub data Reach (p : Purse) : Purse → Type 0 where
  here : Reach p p
  next : {q r : Purse} → Reach p q → Step q r → Reach p r

abbrev pub new_purse : Purse
new_purse = record {
  allowance = record { period = 0; ends_ms = 0; granted = 0; left = 0; outstanding = 0 };
  coins = 0;
  drawn = 0;
  credited = 0;
}

pub record IsBalanced (p : Purse) : Type 0 where
  pub left_le : p.allowance.left ≤ p.allowance.granted
  pub accounted : p.coins + p.credited ≡ p.allowance.outstanding + p.drawn
  pub no_gain : p.credited ≤ p.drawn

Step-IsBalanced : {p q : Purse} → Step p q → IsBalanced p → IsBalanced q
unfolding reset add_upgrade lapse spend give_back
Step-IsBalanced (begin s e g) h = ground arith
Step-IsBalanced (upgrade x) h = ground arith
Step-IsBalanced end_of_plan h = ground arith
Step-IsBalanced (draw w f) h = ground arith
Step-IsBalanced (hand_back v f) h = ground arith

-- After any history of an empty purse, in which draws stay below the counter's limit and no one
-- returns more coins than they hold, the entitlement was credited no more than was drawn from it,
-- coins and credits are accounted for, and no more is left of the allowance than was granted.
pub Reach-IsBalanced : {p : Purse} → Reach new_purse p → IsBalanced p
Reach-IsBalanced here = omega arith
Reach-IsBalanced (next r s) = Step-IsBalanced s (Reach-IsBalanced r)
