-- ===== src/Budget/Laws.antt =====
-- The gates against spending, against the limit, and against the two scopes.
use smart_gate.Base.{Option, arith, inl, inr, max, none, some, ℕ, ◌≡◌, ◌≤◌}
use smart_gate.Float.{Float, IsOrdered, IsRounded, whole, ◌≺◌, ◌≼◌}
use smart_gate.Budget.{BudgetOutcome, effective_daily_limit, evaluate, gate, hard, ok, soft}

-- How far a request is held back: not, warned and sent to cheap endpoints, or blocked.
abbrev pub severity : {F : Type 0} → BudgetOutcome F → ℕ
severity ok = 0
severity (soft spent limit) = 1
severity (hard spent limit) = 2

module _ {F : Type 0} ⦃f : Float F⦄ (o : IsOrdered F) where
  -- Spending more never loosens the gate.
  severity_mono :
      (spent more : F) (limit : Option F)
      → spent ≼ more
      → severity (evaluate spent limit) ≤ severity (evaluate more limit)
  unfolding evaluate
  severity_mono spent more none h = omega arith
  severity_mono spent more (some limit) h =
      ground
        (arith, o.le_trans limit spent more, o.le_trans (f.mul limit (f.decimal 8 1)) spent more)

  evaluate_nonpositive : (spent a : F) → a ≼ whole 0 → evaluate spent (some a) ≡ ok
  unfolding evaluate
  evaluate_nonpositive spent a h =
      let (na, nz) = o.refl_of_le a (whole 0) h in rw (o.lt-eq-not-le (whole 0) a nz na, h)

  le_of_lt : (a b : F) → a ≺ b → a ≼ b
  le_of_lt a b h =
      let (na, nb) = o.lt-number a b h in
      ground (arith, o.lt-eq-not-le a b na nb, o.le_total a b na nb)

  -- A limit that is not positive in one scope lifts a larger limit of the other scope as well.
  pub evaluate_lifted :
      (spent a b : F)
      → a ≼ whole 0
      → a ≼ b
      → (evaluate spent (effective_daily_limit (some a) (some b)) ≡ ok)
        × (evaluate spent (effective_daily_limit (some b) (some a)) ≡ ok)
  unfolding evaluate effective_daily_limit
  evaluate_lifted spent a b h k =
      let (na, nb) = o.refl_of_le a b k in
      (
        evaluate_nonpositive spent (f.min_of a b) (o.le_trans _ _ _ (o.min_of_le a b na nb).0 h),
        evaluate_nonpositive spent (f.min_of b a) (o.le_trans _ _ _ (o.min_of_le b a nb na).1 h),
      )

  module _ (r : IsRounded F) where
    gate_antitone :
        (spent a b : F) → whole 0 ≼ a → a ≼ b → severity (gate spent b) ≤ severity (gate spent a)
    gate_antitone spent a b p h = ground (
      arith,
      o.le_trans a b spent h,
      o.le_trans (f.mul a (f.decimal 8 1)) (f.mul b (f.decimal 8 1)) spent,
      r.mul_mono a b 8 1 (omega arith) p h,
    )

    -- Under two positive limits the gate is as strict as the stricter of the two scopes alone.
    pub severity-effective :
        (spent a b : F)
        → whole 0 ≺ a
        → whole 0 ≺ b
        → severity (evaluate spent (effective_daily_limit (some a) (some b)))
          ≡ max (severity (evaluate spent (some a))) (severity (evaluate spent (some b)))
    unfolding evaluate effective_daily_limit
    severity-effective spent a b p q =
        let (nz, na) = o.lt-number (whole 0) a p in
        let (nz', nb) = o.lt-number (whole 0) b q in
        let (ma, mb) = o.min_of_le a b na nb in
        elim (o.min_of_one a b) [
          | inl e ↦
              rw (e, p, q) (omega (arith, gate_antitone spent a b (le_of_lt _ _ p) (rw e at mb)))
          | inr e ↦
              rw (e, p, q) (omega (arith, gate_antitone spent b a (le_of_lt _ _ q) (rw e at ma)))
        ]
