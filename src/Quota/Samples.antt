-- ===== src/Quota/Samples.antt =====
-- Runs of the limiter, and each theorem at one of them.
use smart_gate.Base.{
  Text, Text-discrete, [], arith, codes, none, refl, some, ℕ, ◌*◌, ◌+◌, ◌-◌, ◌∷◌, ◌≡◌,
}
use smart_gate.Base.Map.{empty, put}
use smart_gate.Quota.Interleaving.{
  after, dec_loop, decremented, incremented, loops_end, try_inc_loop,
}
use smart_gate.Quota.Window.{prune_window, record_rpm, second, would_exceed_rpm}
use smart_gate.Quota.Counters.{active, dec_concurrency, try_inc_concurrency}
use smart_gate.Quota.Limiter.{
  QuotaLimits, api_key, check_key_rpm, check_project_rpm, commit_key, commit_project, concurrency,
  err, new, ok, release, reserve_key, reserve_project, try_acquire,
}
use smart_gate.Quota.Admission.{Holds, Settles, release-try_acquire, try_acquire-Settles}
use smart_gate.Quota.System.{Policy, Reach, System, arrive, init, request, start, step}
use smart_gate.Quota.Flight.{Counts, Reach-IsCounted, key_count, project_count}
use smart_gate.Quota.Accounts.{IsRated}
use smart_gate.Quota.Sliding.{Reach-IsRated, key_of, key_rate, project_of, project_rate}
use smart_gate.Quota.Verdicts.{release_unlimited, try_acquire-admits}

abbrev agent : Text
agent = codes "k1"

abbrev team : Text
team = codes "p1"

abbrev limits : ℕ → ℕ → QuotaLimits
limits r c = record { rpm_limit = some r; concurrency_limit = some c }

abbrev unlimited : QuotaLimits
unlimited = record { rpm_limit = none; concurrency_limit = none }

abbrev modest : Policy
modest = record { key_limits = λ j. limits 2 1; project_limits = λ j. limits 5 3 }

-- One request in flight since the fifth second.
abbrev one : System
one = arrive modest init agent team (5 * second)

one-Reach : Reach modest one
one-Reach = step start (request init agent team (5 * second) (unfold init in omega arith))

admitted : (try_acquire agent team (limits 2 1) (limits 5 3) (5 * second) new).1 ≡ ok
unfolding try_acquire check_project_rpm check_key_rpm reserve_project reserve_key commit_project
    commit_key new would_exceed_rpm record_rpm try_inc_concurrency put Text-discrete prune_window
admitted = refl

refused :
    (try_acquire agent team (limits 2 1) (limits 5 3) (6 * second) one.limiter).1
    ≡ err (concurrency api_key 1)
unfolding try_acquire check_project_rpm check_key_rpm reserve_project reserve_key commit_project
    commit_key init new would_exceed_rpm record_rpm try_inc_concurrency put Text-discrete
    prune_window arrive dec_concurrency
refused = refl

Reach-IsCounted_example :
    Counts (some 1) (active one.limiter.key_concurrency agent) (key_count one.flights agent)
    × Counts
        (some 3)
        (active one.limiter.project_concurrency agent)
        (project_count one.flights agent)
Reach-IsCounted_example = Reach-IsCounted modest one-Reach agent

Reach-IsRated_example :
    IsRated key_of (key_rate modest) one.log × IsRated project_of (project_rate modest) one.log
Reach-IsRated_example =
    Reach-IsRated modest (λ j n e. ground arith) (λ j n e. ground arith) one-Reach

try_acquire-Settles_example :
    Settles agent team
      (limits 2 1)
      (limits 5 3)
      agent
      new
      (try_acquire agent team (limits 2 1) (limits 5 3) (5 * second) new)
try_acquire-Settles_example =
    try_acquire-Settles agent team (limits 2 1) (limits 5 3) (5 * second) new agent

release-try_acquire_example : Holds new (release agent (some team) one.limiter) 0 0 agent
unfolding arrive init try_acquire check_project_rpm check_key_rpm reserve_project reserve_key
    commit_project commit_key new would_exceed_rpm record_rpm try_inc_concurrency put Text-discrete
    prune_window
release-try_acquire_example =
    release-try_acquire agent team (limits 2 1) (limits 5 3) 1 3 (5 * second) new one.limiter agent
      refl refl refl

try_acquire-admits_example :
    (try_acquire agent team (limits 2 1) (limits 5 3) (5 * second) new).1 ≡ ok
unfolding new prune_window
try_acquire-admits_example =
    try_acquire-admits agent team (limits 2 1) (limits 5 3) (5 * second) new (omega arith)

release_unlimited_example :
    active
      (release agent
        (some team)
        (try_acquire agent team unlimited unlimited (6 * second) one.limiter).0).key_concurrency
      agent
    ≡ active one.limiter.key_concurrency agent - 1
unfolding try_acquire check_project_rpm check_key_rpm reserve_project reserve_key commit_project
    commit_key
release_unlimited_example =
    release_unlimited agent team unlimited unlimited (6 * second) one.limiter _ refl refl

-- Another thread admits a request between the load and the swap.
loops_end_example :
    ((n : ℕ) × (try_inc_loop 2 ((λ v. v + 1) ∷ []) 3 1
        ≡ some (incremented empty agent (after n ((λ v. v + 1) ∷ []) 1) 3)))
    × ((n : ℕ) × (dec_loop 2 ((λ v. v + 1) ∷ []) 1
          ≡ some (decremented empty agent (after n ((λ v. v + 1) ∷ []) 1))))
loops_end_example = loops_end empty agent 2 ((λ v. v + 1) ∷ []) 3 1 (omega arith)
