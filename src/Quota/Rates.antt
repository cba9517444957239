-- ===== src/Quota/Rates.antt =====
-- What an admission does to the two maps of request times.
use smart_gate.Base.{Option, Text, arith, none, some, ℕ, ◌≡◌, ◌⊎◌}
use smart_gate.Base.Map.{Map}
use smart_gate.Quota.Window.{RpmState, record_rpm, would_exceed_rpm}
use smart_gate.Quota.Limiter.{
  Outcome, QuotaLimiter, QuotaLimits, check_key_rpm, check_project_rpm, commit_key, commit_project,
  err, ok, reserve_key, reserve_project, try_acquire,
}

-- Under a limit an admission passes the check and then records its time; a refusal leaves at most
-- the traces of the check. Without a limit the map is not touched.
abbrev pub Rated : Option ℕ → Text → ℕ → Map Text RpmState → Outcome → Map Text RpmState → Type 0
Rated none id now m o m' = m' ≡ m
Rated (some n) id now m ok m' =
    ((would_exceed_rpm m id n now).1 ≡ none)
    × (m' ≡ record_rpm (would_exceed_rpm m id n now).0 id now)
Rated (some n) id now m (err e) m' = (m' ≡ m) ⊎ (m' ≡ (would_exceed_rpm m id n now).0)

abbrev pub RatesBoth :
    Text → Text → QuotaLimits → QuotaLimits → ℕ → QuotaLimiter → QuotaLimiter × Outcome → Type 0
RatesBoth key_id project_id kl pl now l (l', o) =
    Rated kl.rpm_limit key_id now l.key_rpm o l'.key_rpm
    × Rated pl.rpm_limit project_id now l.project_rpm o l'.project_rpm

pub try_acquire-Rates :
    (key_id project_id : Text) (kl pl : QuotaLimits) (now : ℕ) (l : QuotaLimiter)
    → RatesBoth key_id project_id kl pl now l (try_acquire key_id project_id kl pl now l)
unfolding try_acquire check_project_rpm check_key_rpm reserve_project reserve_key commit_project
    commit_key
try_acquire-Rates key_id project_id kl pl now l = ground arith
