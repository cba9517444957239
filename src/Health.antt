-- ===== src/Health.antt =====
-- src/models/mod.rs and src/usage/mod.rs: the metric of an endpoint, and its health.
-- Times are numbers of nanoseconds. The counters are `i32` in the source and do not wrap here.
pub mod Laws
mod Samples
use smart_gate.Base.{
  Bool, Option, Text, Text-discrete, false, if◌then◌else◌, leb, min, none, some, suc, true, zero, ℕ,
  ◌&&◌, ◌*◌, ◌+◌, ◌-◌, ◌==◌,
}
use smart_gate.Base.Map.{Map, or_else, put}
use smart_gate.Float.{Float, clamp, whole}

pub data HealthStatus : Type 0 where
  healthy degraded unavailable : HealthStatus
  stored : Text → HealthStatus

pub record EndpointMetric (F : Type 0) : Type 0 where
  pub endpoint_id : Text
  pub active_requests : ℕ
  pub ema_latency_ms : F
  pub ema_success_latency_ms : F
  pub total_requests : ℕ
  pub total_errors : ℕ
  pub consecutive_failures : ℕ
  pub cache_hit_ratio_ema : F
  pub cache_samples : ℕ
  pub health_status : HealthStatus
  pub cooldown_until : Option ℕ
  pub last_error_at : Option ℕ
  pub updated_at : ℕ

abbrev pub failure_threshold : ℕ
failure_threshold = 3

abbrev pub cooldown_secs : ℕ
cooldown_secs = 30

abbrev pub nanos : ℕ
nanos = 1_000_000_000

abbrev pub is_healthy : HealthStatus → Bool
is_healthy healthy = true
is_healthy degraded = false
is_healthy unavailable = false
is_healthy (stored s) = false

-- The stored health of an endpoint: `UPDATE endpoints SET health_status, cooldown_until`.
abbrev pub Row : Type 0
Row = HealthStatus × Option ℕ

module _ {F : Type 0} ⦃f : Float F⦄ where
  pub new : Text → ℕ → EndpointMetric F
  new id now = record {
    endpoint_id = id;
    active_requests = 0;
    ema_latency_ms = whole 0;
    ema_success_latency_ms = whole 0;
    total_requests = 0;
    total_errors = 0;
    consecutive_failures = 0;
    cache_hit_ratio_ema = whole 0;
    cache_samples = 0;
    health_status = healthy;
    cooldown_until = none;
    last_error_at = none;
    updated_at = now;
  }

  -- `x == 0.0`
  abbrev is_zero : F → Bool
  is_zero x = f.le x (whole 0) && f.le (whole 0) x

  -- The moving average, with the weight 0.1 for the new value.
  pub smooth : F → F → F
  smooth old latency =
      if is_zero old
      then latency
      else f.add (f.mul (f.sub (whole 1) (f.decimal 1 1)) old) (f.mul (f.decimal 1 1) latency)

  pub finish_success : EndpointMetric F → F → EndpointMetric F × Bool
  finish_success m latency =
      let m' = record m {
        ema_success_latency_ms = smooth m.ema_success_latency_ms latency;
        consecutive_failures = 0;
      } in
      if is_healthy m.health_status
      then (m', false)
      else (record m' { health_status = healthy; cooldown_until = none }, true)

  pub finish_failure : EndpointMetric F → ℕ → EndpointMetric F × Bool
  finish_failure m now =
      let failures = m.consecutive_failures + 1 in
      let m' = record m {
        total_errors = m.total_errors + 1;
        consecutive_failures = failures;
        last_error_at = some now;
      } in
      if leb failure_threshold failures
      then (
        record m' {
          health_status = unavailable;
          cooldown_until = some (now + cooldown_secs * nanos);
        },
        true,
      )
      else if is_healthy m.health_status
      then (record m' { health_status = degraded }, true)
      else (m', false)

  -- The new metric, and whether the health changed and has to be stored.
  pub record_attempt : EndpointMetric F → Bool → F → ℕ → EndpointMetric F × Bool
  record_attempt m success latency now =
      let m' = record m {
        active_requests = m.active_requests - 1;
        ema_latency_ms = smooth m.ema_latency_ms latency;
        updated_at = now;
      } in
      if success then finish_success m' latency else finish_failure m' now

  pub record_cache_observation :
      EndpointMetric F → (prompt_tokens hit_tokens : ℕ) → EndpointMetric F
  record_cache_observation m zero hits = m
  record_cache_observation m (suc p) hits =
      let ratio =
        clamp (f.div (f.of_nat (min hits (suc p))) (f.of_nat (suc p))) (whole 0) (whole 1) in
      record m {
        cache_hit_ratio_ema =
            if m.cache_samples == 0
            then ratio
            else f.add (f.mul m.cache_hit_ratio_ema (f.decimal 75 2))
                (f.mul ratio (f.decimal 25 2));
        cache_samples = m.cache_samples + 1;
      }

  pub on_attempt_started : Map Text (EndpointMetric F) → Text → ℕ → ℕ → Map Text (EndpointMetric F)
  on_attempt_started ms id active now =
      let m = or_else (ms id) (new id now) in
      put Text-discrete ms id (
        some (record m {
          active_requests = active;
          total_requests = m.total_requests + 1;
          updated_at = now;
        }))

  -- `written` is whether the UPDATE succeeds; the code goes on if it does not.
  abbrev pub store : (written : Bool) → Map Text Row → Text → EndpointMetric F × Bool → Map Text Row
  store true rows id (m, true) =
      put Text-discrete rows id (some (m.health_status, m.cooldown_until))
  store false rows id (m, true) = rows
  store written rows id (m, false) = rows

  pub on_attempt_finished :
      (written : Bool)
      → Map Text (EndpointMetric F)
      → Map Text Row
      → Text
      → Bool
      → F
      → ℕ
      → Map Text (EndpointMetric F) × Map Text Row
  on_attempt_finished written ms rows id success latency now =
      let r = record_attempt (or_else (ms id) (new id now)) success latency now in
      (put Text-discrete ms id (some r.0), store written rows id r)
