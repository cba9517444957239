-- ===== src/Health/Laws.antt =====
-- Health as a function of the attempts since the last success.
use smart_gate.Base.{
  Bool, List, Option, Text, [], arith, false, if◌then◌else◌, ltb, none, refl, some, suc, true, zero,
  ℕ, ◌*◌, ◌+◌, ◌==◌, ◌∷◌, ◌≡◌, ◌⊎◌, inl, inr,
}
use smart_gate.Base.Map.{Map, put}
use smart_gate.Float.{Float}
use smart_gate.Health.{
  EndpointMetric, HealthStatus, Row, cooldown_secs, degraded, failure_threshold, finish_failure,
  finish_success, healthy, is_healthy, nanos, stored, on_attempt_finished, record_attempt,
  unavailable,
}

-- An attempt: its success, latency and the time at its end. Newest first.
abbrev pub Attempt : Type 0 → Type 0
Attempt F = Bool × F × ℕ

-- The failures since the last success.
abbrev pub streak : {F : Type 0} → List (Attempt F) → ℕ
streak [] = 0
streak ((true, latency, now) ∷ runs) = 0
streak ((false, latency, now) ∷ runs) = streak runs + 1

abbrev pub last_end : {F : Type 0} → ℕ → List (Attempt F) → ℕ
last_end start [] = start
last_end start ((success, latency, now) ∷ runs) = now

abbrev pub expected_status : ℕ → HealthStatus
expected_status n =
    if n == 0 then healthy else if ltb n failure_threshold then degraded else unavailable

abbrev pub expected_cooldown : ℕ → ℕ → Option ℕ
expected_cooldown n last =
    if ltb n failure_threshold then none else some (last + cooldown_secs * nanos)

abbrev pub has_success : {F : Type 0} → List (Attempt F) → Bool
has_success [] = false
has_success ((true, latency, now) ∷ runs) = true
has_success ((false, latency, now) ∷ runs) = has_success runs

status_cases : (h : HealthStatus) → (h ≡ healthy) ⊎ (is_healthy h ≡ false)
status_cases healthy = inl refl
status_cases degraded = inr refl
status_cases unavailable = inr refl
status_cases (stored s) = inr refl

module _ {F : Type 0} ⦃f : Float F⦄ where
  -- The metric after the attempts, from the one that it was made as or seeded with.
  pub after_attempts : EndpointMetric F → List (Attempt F) → EndpointMetric F
  after_attempts start [] = start
  after_attempts start ((success, latency, now) ∷ runs) =
      (record_attempt (after_attempts start runs) success latency now).0

  abbrev pub HasHealth : EndpointMetric F → ℕ → ℕ → Type 0
  HasHealth m n last =
      (m.consecutive_failures ≡ n)
      × (m.health_status ≡ expected_status n)
      × (m.cooldown_until ≡ expected_cooldown n last)

  -- A healthy endpoint does not cool down.
  abbrev pub IsCoherent : EndpointMetric F → Type 0
  IsCoherent m = m.health_status ≡ healthy → m.cooldown_until ≡ none

  attempt-IsCoherent :
      (m : EndpointMetric F) (success : Bool) (latency : F) (now : ℕ)
      → IsCoherent m
      → IsCoherent (record_attempt m success latency now).0
  unfolding record_attempt finish_success finish_failure
  attempt-IsCoherent m success latency now c e = ground (arith, c)

  success-HasHealth :
      (m : EndpointMetric F) (now : ℕ) (latency : F)
      → IsCoherent m
      → HasHealth (record_attempt m true latency now).0 0 now
  unfolding record_attempt finish_success
  success-HasHealth m now latency c = elim (status_cases m.health_status) [
    | inl e ↦ ground (arith, e, c e)
    | inr e ↦ ground (arith, e)
  ]

  failure-HasHealth :
      (m : EndpointMetric F) (n last now : ℕ) (latency : F)
      → HasHealth m n last
      → HasHealth (record_attempt m false latency now).0 (n + 1) now
  unfolding record_attempt finish_failure
  failure-HasHealth m zero last now latency h = ground arith
  failure-HasHealth m (suc n) last now latency h = ground arith

  after_attempts-IsCoherent :
      (start : EndpointMetric F) (runs : List (Attempt F))
      → IsCoherent start
      → IsCoherent (after_attempts start runs)
  unfolding after_attempts
  after_attempts-IsCoherent start [] c = c
  after_attempts-IsCoherent start ((success, latency, now) ∷ runs) c =
      attempt-IsCoherent (after_attempts start runs) success latency now
        (after_attempts-IsCoherent start runs c)

  -- The metric of an endpoint starts new, or seeded from its stored row, where a healthy endpoint
  -- does not cool down. If it started healthy and without failures, or had a success since, and
  -- only attempts change it: the failures since its last success decide its health. None is healthy,
  -- one or two are degraded, and from the third on it is unavailable and cools down until thirty
  -- seconds after the last failure.
  pub after_attempts_health :
      (start : EndpointMetric F) (first : ℕ) (runs : List (Attempt F))
      → IsCoherent start
      → HasHealth start 0 first ⊎ (has_success runs ≡ true)
      → HasHealth (after_attempts start runs) (streak runs) (last_end first runs)
  unfolding after_attempts
  after_attempts_health start first [] c (inl h) = h
  after_attempts_health start first [] c (inr e) = absurd cc
  after_attempts_health start first ((true, latency, now) ∷ runs) c h =
      success-HasHealth (after_attempts start runs) now latency
        (after_attempts-IsCoherent start runs c)
  after_attempts_health start first ((false, latency, now) ∷ runs) c h =
      failure-HasHealth (after_attempts start runs) (streak runs) (last_end first runs) now latency
        (after_attempts_health start first runs c h)

  -- The stored row of every endpoint that has a metric tells its health.
  abbrev pub IsStored : Map Text (EndpointMetric F) → Map Text Row → Type 0
  IsStored ms rows =
      (id : Text) (m : EndpointMetric F)
      → ms id ≡ some m
      → rows id ≡ some (m.health_status, m.cooldown_until)

  -- If the stored rows tell the health of every endpoint with a metric, and the endpoint of an
  -- attempt has a metric: they still do after the attempt if the write that it may make succeeds,
  -- though most attempts write no row. If a write fails the rows are as they were.
  pub on_attempt_finished-IsStored :
      (ms : Map Text (EndpointMetric F)) (rows : Map Text Row) (id : Text) (old : EndpointMetric F)
      (success : Bool) (latency : F) (now : ℕ)
      → ms id ≡ some old
      → IsStored ms rows
      → (let r = on_attempt_finished true ms rows id success latency now in IsStored r.0 r.1)
        × ((on_attempt_finished false ms rows id success latency now).1 ≡ rows)
  unfolding on_attempt_finished record_attempt finish_success finish_failure put
  on_attempt_finished-IsStored ms rows id old success latency now found s =
      ((λ j m e. ground (arith, s j m, s id old)), ground arith)
