-- ===== src/Quota/Verdicts.antt =====
-- When a request is admitted, and what a refusal says.
use smart_gate.Base.Map.{Map}
use smart_gate.Base.{Option, Text, arith, if_pos, length, none, refl, some, ℕ, ◌-◌, ◌<◌, ◌≡◌, ◌≤◌}
use smart_gate.Quota.Window.{RpmState, prune_window, window_of, would_exceed_rpm}
use smart_gate.Quota.Pruning.{events-entry_at, would_exceed_rpm-retry}
use smart_gate.Quota.Counters.{active, active-dec_concurrency, try_inc_concurrency}
use smart_gate.Quota.Limiter.{
  Admit, Outcome, QuotaLimiter, QuotaLimits, QuotaRejectReason, Scope, api_key, check_key_rpm,
  check_project_rpm, commit_key, commit_project, err, next, ok, project, release, reserve_key,
  reserve_project, retry_after_secs, try_acquire, verdict, ◌>>◌,
}
use smart_gate.Quota.Admission.{settling, try_acquire-Settles}

abbrev HasRoom : Option ℕ → ℕ → Type 0
HasRoom none n = Unit {0}
HasRoom (some limit) n = n < limit

-- The four scopes have room for one more request.
abbrev IsOpen : Text → Text → QuotaLimits → QuotaLimits → ℕ → QuotaLimiter → Type 0
IsOpen key_id project_id kl pl now l =
    HasRoom pl.rpm_limit (length (prune_window (window_of l.project_rpm project_id) now))
    × HasRoom kl.rpm_limit (length (prune_window (window_of l.key_rpm key_id) now))
    × HasRoom pl.concurrency_limit (active l.project_concurrency project_id)
    × HasRoom kl.concurrency_limit (active l.key_concurrency key_id)

would_exceed_rpm-passes :
    (m : Map Text RpmState) (id : Text) (limit now : ℕ)
    → length (prune_window (window_of m id) now) < limit
    → (would_exceed_rpm m id limit now).1 ≡ none
unfolding would_exceed_rpm
would_exceed_rpm-passes m id limit now h = rw events-entry_at (ground arith)

settling-ok :
    (key_id project_id : Text) (kl pl : QuotaLimits) (now : ℕ) (l : QuotaLimiter)
    → HasRoom pl.concurrency_limit (active l.project_concurrency project_id)
    → HasRoom kl.concurrency_limit (active l.key_concurrency key_id)
    → (settling key_id project_id kl pl now l).1 ≡ ok
unfolding reserve_project reserve_key commit_project commit_key try_inc_concurrency
settling-ok key_id project_id kl pl now l p k = ground arith

checks-ok :
    (key_id project_id : Text) (kr pr : Option ℕ) (now : ℕ) (l : QuotaLimiter) (rest : Admit)
    → HasRoom pr (length (prune_window (window_of l.project_rpm project_id) now))
    → HasRoom kr (length (prune_window (window_of l.key_rpm key_id) now))
    → ((a b : Map Text RpmState) → (rest (record l { key_rpm = a; project_rpm = b })).1 ≡ ok)
    → (next (check_project_rpm project_id pr now l) (check_key_rpm key_id kr now >> rest)).1 ≡ ok
unfolding check_project_rpm check_key_rpm
checks-ok k q none none now l rest hp hk go = go l.key_rpm l.project_rpm
checks-ok k q none (some n) now l rest hp hk go =
    rw (would_exceed_rpm-passes l.project_rpm q n now hp) (go _ _)
checks-ok k q (some n) none now l rest hp hk go =
    rw (would_exceed_rpm-passes l.key_rpm k n now hk) (go _ _)
checks-ok k q (some m) (some n) now l rest hp hk go =
    rw
      (
        would_exceed_rpm-passes l.project_rpm q n now hp,
        would_exceed_rpm-passes l.key_rpm k m now hk,
      )
      (go _ _)

-- If every limit that is set has room, the request is admitted.
pub try_acquire-admits :
    (key_id project_id : Text) (kl pl : QuotaLimits) (now : ℕ) (l : QuotaLimiter)
    → IsOpen key_id project_id kl pl now l
    → (try_acquire key_id project_id kl pl now l).1 ≡ ok
unfolding try_acquire
try_acquire-admits key_id project_id kl pl now l (p, k, pc, kc) =
    checks-ok key_id project_id kl.rpm_limit pl.rpm_limit now l
      (settling key_id project_id kl pl now) p k
      λ a b.
        settling-ok key_id project_id kl pl now (record l { key_rpm = a; project_rpm = b }) pc kc

abbrev IsMinute : Option ℕ → Type 0
IsMinute none = ⊥
IsMinute (some secs) = (1 ≤ secs) × (secs ≤ 60)

abbrev Waits : QuotaLimiter × Outcome → Type 0
Waits (l, ok) = Unit {0}
Waits (l, err e) = IsMinute (retry_after_secs e)

Waits-next :
    (r : QuotaLimiter × Outcome) (k : Admit)
    → Waits r
    → ((l : QuotaLimiter) → Waits (k l))
    → Waits (next r k)
Waits-next (l, ok) k w h = h l
Waits-next (l, err e) k w h = w

Waits-verdict :
    (l : QuotaLimiter) (scope : Scope) (limit : ℕ) (retry : Option ℕ)
    → ((secs : ℕ) → retry ≡ some secs → (1 ≤ secs) × (secs ≤ 60))
    → Waits (l, verdict scope limit retry)
unfolding retry_after_secs
Waits-verdict l scope limit none h = tt
Waits-verdict l scope limit (some secs) h = h secs refl

settling-Waits :
    (key_id project_id : Text) (kl pl : QuotaLimits) (now : ℕ) (l : QuotaLimiter)
    → Waits (settling key_id project_id kl pl now l)
unfolding reserve_project reserve_key commit_project commit_key retry_after_secs
settling-Waits key_id project_id kl pl now l = ground arith

check_project_rpm-Waits :
    (id : Text) (limit : Option ℕ) (now : ℕ) (l : QuotaLimiter)
    → Waits (check_project_rpm id limit now l)
unfolding check_project_rpm
check_project_rpm-Waits id none now l = tt
check_project_rpm-Waits id (some n) now l =
    Waits-verdict (record l { project_rpm = (would_exceed_rpm l.project_rpm id n now).0 }) project n
      (would_exceed_rpm l.project_rpm id n now).1 (would_exceed_rpm-retry l.project_rpm id n now)

check_key_rpm-Waits :
    (id : Text) (limit : Option ℕ) (now : ℕ) (l : QuotaLimiter)
    → Waits (check_key_rpm id limit now l)
unfolding check_key_rpm
check_key_rpm-Waits id none now l = tt
check_key_rpm-Waits id (some n) now l =
    Waits-verdict (record l { key_rpm = (would_exceed_rpm l.key_rpm id n now).0 }) api_key n
      (would_exceed_rpm l.key_rpm id n now).1 (would_exceed_rpm-retry l.key_rpm id n now)

-- Every refusal tells the client to wait, for one second at least and a minute at most.
try_acquire-retry :
    (key_id project_id : Text) (kl pl : QuotaLimits) (now : ℕ) (l l' : QuotaLimiter)
    (e : QuotaRejectReason)
    → try_acquire key_id project_id kl pl now l ≡ (l', err e)
    → IsMinute (retry_after_secs e)
unfolding try_acquire
try_acquire-retry k q kl pl now l l' e h = rw h at (
    Waits-next (check_project_rpm q pl.rpm_limit now l)
      (check_key_rpm k kl.rpm_limit now >> settling k q kl pl now)
      (check_project_rpm-Waits q pl.rpm_limit now l)
      λ l2.
        Waits-next (check_key_rpm k kl.rpm_limit now l2) (settling k q kl pl now)
          (check_key_rpm-Waits k kl.rpm_limit now l2) (settling-Waits k q kl pl now))

-- A request that was admitted with no limit on its key gives back a slot that it never took: the
-- counter of the key falls by one against what it was before the request.
pub release_unlimited :
    (key_id project_id : Text) (kl pl : QuotaLimits) (now : ℕ) (l l' : QuotaLimiter)
    → kl.concurrency_limit ≡ none
    → try_acquire key_id project_id kl pl now l ≡ (l', ok)
    → active (release key_id (some project_id) l').key_concurrency key_id
      ≡ active l.key_concurrency key_id - 1
unfolding release
release_unlimited key_id project_id kl pl now l l' none_set e =
    let s = try_acquire-Settles key_id project_id kl pl now l key_id in
    let s' = rw (e, none_set) at s in
    rw active-dec_concurrency (rw (if_pos _ refl) (omega (arith, s'.0)))
