-- ===== src/Quota/Limiter.antt =====
-- src/quota/mod.rs: the limiter. Each step passes the limiter on and may refuse; the calls of
-- `metrics::counter!` are not modelled.
use smart_gate.Base.{Bool, Option, Text, false, if◌then◌else◌, none, some, true, ℕ}
use smart_gate.Base.Map.{Map, empty}
use smart_gate.Quota.Window.{RpmState, record_rpm, would_exceed_rpm}
use smart_gate.Quota.Counters.{dec_concurrency, try_inc_concurrency}

pub record QuotaLimits : Type 0 where
  pub rpm_limit : Option ℕ
  pub concurrency_limit : Option ℕ

pub data Scope : Type 0 where
  project api_key : Scope

pub data QuotaRejectReason : Type 0 where
  rpm : Scope → (limit : ℕ) → (retry_after_secs : ℕ) → QuotaRejectReason
  concurrency : Scope → (limit : ℕ) → QuotaRejectReason

unfoldable pub retry_after_secs : QuotaRejectReason → Option ℕ
retry_after_secs (rpm scope limit retry) = some retry
retry_after_secs (concurrency scope limit) = some 1

pub record QuotaLimiter : Type 0 where
  pub key_rpm : Map Text RpmState
  pub project_rpm : Map Text RpmState
  pub key_concurrency : Map Text ℕ
  pub project_concurrency : Map Text ℕ

unfoldable pub new : QuotaLimiter
new = record {
  key_rpm = empty;
  project_rpm = empty;
  key_concurrency = empty;
  project_concurrency = empty;
}

pub data Outcome : Type 0 where
  ok : Outcome
  err : QuotaRejectReason → Outcome

abbrev pub Admit : Type 0
Admit = QuotaLimiter → QuotaLimiter × Outcome

abbrev pub next : QuotaLimiter × Outcome → Admit → QuotaLimiter × Outcome
next (l, ok) k = k l
next (l, err e) k = (l, err e)

infixr 5 ◌>>◌
abbrev pub ◌>>◌ : Admit → Admit → Admit
◌>>◌ m k l = next (m l) k

abbrev pub verdict : Scope → ℕ → Option ℕ → Outcome
verdict scope limit none = ok
verdict scope limit (some retry) = err (rpm scope limit retry)

unfoldable pub check_project_rpm : Text → Option ℕ → ℕ → Admit
check_project_rpm id none now l = (l, ok)
check_project_rpm id (some limit) now l =
    let (m, retry) = would_exceed_rpm l.project_rpm id limit now in
    (record l { project_rpm = m }, verdict project limit retry)

unfoldable pub check_key_rpm : Text → Option ℕ → ℕ → Admit
check_key_rpm id none now l = (l, ok)
check_key_rpm id (some limit) now l =
    let (m, retry) = would_exceed_rpm l.key_rpm id limit now in
    (record l { key_rpm = m }, verdict api_key limit retry)

unfoldable pub reserve_project : Text → Option ℕ → Admit
reserve_project id none l = (l, ok)
reserve_project id (some limit) l =
    let (m, got) = try_inc_concurrency l.project_concurrency id limit in
    (record l { project_concurrency = m }, if got then ok else err (concurrency project limit))

-- A project slot, if one was taken, is given back.
abbrev roll_back : Text → Option ℕ → QuotaLimiter → QuotaLimiter
roll_back project_id none l = l
roll_back project_id (some limit) l = record l {
  project_concurrency = dec_concurrency l.project_concurrency project_id;
}

unfoldable pub reserve_key : Text → Text → Option ℕ → Option ℕ → Admit
reserve_key key_id project_id project_limit none l = (l, ok)
reserve_key key_id project_id project_limit (some limit) l =
    let (m, got) = try_inc_concurrency l.key_concurrency key_id limit in
    let l' = record l { key_concurrency = m } in
    if got
    then (l', ok)
    else (roll_back project_id project_limit l', err (concurrency api_key limit))

unfoldable pub commit_project : Text → Option ℕ → ℕ → Admit
commit_project id none now l = (l, ok)
commit_project id (some limit) now l =
    (record l { project_rpm = record_rpm l.project_rpm id now }, ok)

unfoldable pub commit_key : Text → Option ℕ → ℕ → Admit
commit_key id none now l = (l, ok)
commit_key id (some limit) now l = (record l { key_rpm = record_rpm l.key_rpm id now }, ok)

unfoldable pub try_acquire : Text → Text → QuotaLimits → QuotaLimits → ℕ → Admit
try_acquire key_id project_id kl pl now =
    check_project_rpm project_id pl.rpm_limit now
    >> check_key_rpm key_id kl.rpm_limit now
    >> reserve_project project_id pl.concurrency_limit
    >> reserve_key key_id project_id pl.concurrency_limit kl.concurrency_limit
    >> commit_project project_id pl.rpm_limit now
    >> commit_key key_id kl.rpm_limit now

unfoldable pub release : Text → Option Text → QuotaLimiter → QuotaLimiter
release key_id none l = record l { key_concurrency = dec_concurrency l.key_concurrency key_id }
release key_id (some project_id) l = record l {
  key_concurrency = dec_concurrency l.key_concurrency key_id;
  project_concurrency = dec_concurrency l.project_concurrency project_id;
}

-- The permit that a request holds until the data plane's hooks take over.
pub record QuotaPermit : Type 0 where
  pub key_id : Text
  pub project_id : Text
  pub released : Bool

unfoldable pub permit : Text → Text → QuotaPermit
permit key_id project_id = record { key_id = key_id; project_id = project_id; released = false }

unfoldable pub drop_permit : QuotaPermit → QuotaLimiter → QuotaLimiter
drop_permit p l = if p.released then l else release p.key_id (some p.project_id) l

-- `disarm` marks the permit and drops it.
unfoldable pub disarm : QuotaPermit → QuotaLimiter → QuotaLimiter
unfolding drop_permit
disarm p l = drop_permit (record p { released = true }) l
