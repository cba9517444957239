-- ===== src/Budget/Samples.antt =====
-- Ten dollars for the key and fifteen for the project.
use smart_gate.Base.{max, refl, some, ℕ, ◌*◌, ◌≡◌}
use smart_gate.Float.Fixed.{fixed-IsOrdered, fixed-IsRounded, unit, fixed}
use smart_gate.Budget.{effective_daily_limit, evaluate, ok, soft}
use smart_gate.Budget.Laws.{evaluate_lifted, severity, severity-effective}

abbrev dollars : ℕ → ℕ
dollars n = n * unit

warned : evaluate (dollars 8) (some (dollars 10)) ≡ soft (dollars 8) (dollars 10)
unfolding evaluate
warned = refl

severity-effective_example :
    severity (evaluate (dollars 9) (effective_daily_limit (some (dollars 10)) (some (dollars 15))))
    ≡ max
        (severity (evaluate (dollars 9) (some (dollars 10))))
        (severity (evaluate (dollars 9) (some (dollars 15))))
severity-effective_example =
    severity-effective fixed-IsOrdered fixed-IsRounded (dollars 9) (dollars 10) (dollars 15) refl
      refl

evaluate_lifted_example :
    (evaluate (dollars 99) (effective_daily_limit (some 0) (some (dollars 15))) ≡ ok)
    × (evaluate (dollars 99) (effective_daily_limit (some (dollars 15)) (some 0)) ≡ ok)
evaluate_lifted_example = evaluate_lifted fixed-IsOrdered (dollars 99) 0 (dollars 15) refl refl
