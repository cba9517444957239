-- ===== src/Health/Samples.antt =====
-- Three failures and a success.
use smart_gate.Base.{
  List, Text, Text-discrete, [], arith, codes, false, none, refl, some, true, ℕ, ◌*◌, ◌+◌, ◌∷◌, ◌≡◌,
  inr,
}
use smart_gate.Base.Map.{Map, empty, put}
use smart_gate.Float.Fixed.{fixed}
use smart_gate.Health.{
  EndpointMetric, Row, degraded, finish_failure, nanos, new, on_attempt_finished, record_attempt,
  unavailable,
}
use smart_gate.Health.Laws.{
  Attempt, IsStored, after_attempts, after_attempts_health, on_attempt_finished-IsStored,
}

abbrev endpoint : Text
endpoint = codes "ep"

abbrev failures : List (Attempt ℕ)
failures = (false, 50, 9) ∷ (false, 50, 7) ∷ (false, 50, 5) ∷ (true, 50, 2) ∷ []

-- An endpoint that was found unavailable at the start.
abbrev seeded : EndpointMetric ℕ
seeded = record (new endpoint 1) { health_status = unavailable; cooldown_until = some 40 }

after_attempts_health_example :
    ((after_attempts seeded failures).consecutive_failures ≡ 3)
    × ((after_attempts seeded failures).health_status ≡ unavailable)
    × ((after_attempts seeded failures).cooldown_until ≡ some (9 + 30 * nanos))
after_attempts_health_example = after_attempts_health seeded 1 failures (λ e. absurd cc) (inr refl)

abbrev fresh_metric : EndpointMetric ℕ
fresh_metric = new endpoint 1

abbrev one_metric : Map Text (EndpointMetric ℕ)
one_metric = put Text-discrete empty endpoint (some fresh_metric)

abbrev one_row : Map Text Row
one_row =
    put Text-discrete empty endpoint
      (some (fresh_metric.health_status, fresh_metric.cooldown_until))

one_metric-IsStored : IsStored one_metric one_row
unfolding put
one_metric-IsStored id m e = ground arith

on_attempt_finished-IsStored_example :
    ((on_attempt_finished true one_metric one_row endpoint false 50 5).1 endpoint
      ≡ some (degraded, none))
    × ((on_attempt_finished false one_metric one_row endpoint false 50 5).1 ≡ one_row)
unfolding put Text-discrete on_attempt_finished record_attempt finish_failure new
on_attempt_finished-IsStored_example = (
  (on_attempt_finished-IsStored one_metric one_row endpoint fresh_metric false 50 5 refl
        one_metric-IsStored).0
      endpoint (record_attempt fresh_metric false 50 5).0 refl,
  (on_attempt_finished-IsStored one_metric one_row endpoint fresh_metric false 50 5 refl
      one_metric-IsStored).1,
)
