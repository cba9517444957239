-- ===== src/Budget.antt =====
-- src/policy/budget.rs: the soft and hard gate on the money spent today.
pub mod Laws
mod Samples
use smart_gate.Base.{Bool, Option, false, if◌then◌else◌, none, some, true}
use smart_gate.Float.{Float, whole}

pub data BudgetOutcome (F : Type 0) : Type 0 where
  ok : BudgetOutcome F
  soft : (spent limit : F) → BudgetOutcome F
  hard : (spent limit : F) → BudgetOutcome F

module _ {F : Type 0} where
  unfoldable pub should_downshift : BudgetOutcome F → Bool
  should_downshift ok = false
  should_downshift (soft spent limit) = true
  should_downshift (hard spent limit) = false

  unfoldable pub is_blocked : BudgetOutcome F → Bool
  is_blocked ok = false
  is_blocked (soft spent limit) = false
  is_blocked (hard spent limit) = true

module _ {F : Type 0} ⦃f : Float F⦄ where
  -- The tighter of the two limits.
  unfoldable pub effective_daily_limit : Option F → Option F → Option F
  effective_daily_limit (some a) (some b) = some (f.min_of a b)
  effective_daily_limit (some a) none = some a
  effective_daily_limit none (some b) = some b
  effective_daily_limit none none = none

  abbrev pub gate : F → F → BudgetOutcome F
  gate spent limit =
      if f.le limit spent
      then hard spent limit
      else if f.le (f.mul limit (f.decimal 8 1)) spent
      then soft spent limit
      else ok

  -- A limit that is not positive is none.
  unfoldable pub evaluate : F → Option F → BudgetOutcome F
  evaluate spent none = ok
  evaluate spent (some limit) = if f.lt (whole 0) limit then gate spent limit else ok
