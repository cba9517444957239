-- ===== src/Quota/Admission.antt =====
-- What an admission and a release do to the counters of active requests.
use smart_gate.Base.{Option, Text, arith, none, some, ℕ, ◌+◌, ◌≡◌, ◌≤◌}
use smart_gate.Base.Map.{put}
use smart_gate.Quota.Counters.{
  active, active-dec_concurrency, dec_concurrency, slot, try_inc_concurrency,
}
use smart_gate.Quota.Limiter.{
  Admit, Outcome, QuotaLimiter, QuotaLimits, check_key_rpm, check_project_rpm, commit_key,
  commit_project, err, next, ok, release, reserve_key, reserve_project, try_acquire, ◌>>◌,
}

-- A slot at `id`, if a limit is set.
abbrev pub taken : Option ℕ → Text → Text → ℕ
taken none id j = 0
taken (some limit) id j = slot id j

-- The counters of `l'` at `j` are those of `l`, with `k` more for the key and `p` for the project.
abbrev pub Holds : QuotaLimiter → QuotaLimiter → ℕ → ℕ → Text → Type 0
Holds l l' k p j =
    (active l'.key_concurrency j ≡ active l.key_concurrency j + k)
    × (active l'.project_concurrency j ≡ active l.project_concurrency j + p)

abbrev AtMost : Option ℕ → ℕ → Type 0
AtMost none n = Unit {0}
AtMost (some limit) n = n ≤ limit

abbrev pub Settles :
    Text → Text → QuotaLimits → QuotaLimits → Text → QuotaLimiter → QuotaLimiter × Outcome → Type 0
Settles key_id project_id kl pl j l (l', ok) =
    Holds l l' (taken kl.concurrency_limit key_id j) (taken pl.concurrency_limit project_id j) j
    × AtMost kl.concurrency_limit (active l'.key_concurrency key_id)
    × AtMost pl.concurrency_limit (active l'.project_concurrency project_id)
Settles key_id project_id kl pl j l (l', err e) = Holds l l' 0 0 j

-- The steps that look at the rates leave the counters alone.
abbrev Keeps : Text → QuotaLimiter → QuotaLimiter × Outcome → Type 0
Keeps j l r = Holds l r.0 0 0 j

check_project_rpm-Keeps :
    (id : Text) (limit : Option ℕ) (now : ℕ) (l : QuotaLimiter) (j : Text)
    → Keeps j l (check_project_rpm id limit now l)
unfolding check_project_rpm
check_project_rpm-Keeps id limit now l j = ground arith

check_key_rpm-Keeps :
    (id : Text) (limit : Option ℕ) (now : ℕ) (l : QuotaLimiter) (j : Text)
    → Keeps j l (check_key_rpm id limit now l)
unfolding check_key_rpm
check_key_rpm-Keeps id limit now l j = ground arith

-- What follows the two checks.
abbrev pub settling : Text → Text → QuotaLimits → QuotaLimits → ℕ → Admit
settling key_id project_id kl pl now =
    reserve_project project_id pl.concurrency_limit
    >> reserve_key key_id project_id pl.concurrency_limit kl.concurrency_limit
    >> commit_project project_id pl.rpm_limit now
    >> commit_key key_id kl.rpm_limit now

module _ (key_id project_id : Text) (kl pl : QuotaLimits) (j : Text) where
  Settles-from :
      (l l' : QuotaLimiter) (r : QuotaLimiter × Outcome)
      → Holds l l' 0 0 j
      → Settles key_id project_id kl pl j l' r
      → Settles key_id project_id kl pl j l r
  Settles-from l l' (l2, ok) same s = (omega arith, s.1, s.2)
  Settles-from l l' (l2, err e) same s = omega arith

  -- A step that leaves the counters alone may stand in front.
  Settles-next :
      (l : QuotaLimiter) (r : QuotaLimiter × Outcome) (rest : Admit)
      → Keeps j l r
      → ((l' : QuotaLimiter) → Settles key_id project_id kl pl j l' (rest l'))
      → Settles key_id project_id kl pl j l (next r rest)
  Settles-next l (l', ok) rest s t = Settles-from l l' (rest l') s (t l')
  Settles-next l (l', err e) rest s t = s

  reserve-Settles :
      (now : ℕ) (l : QuotaLimiter)
      → Settles key_id project_id kl pl j l (settling key_id project_id kl pl now l)
  unfolding reserve_project reserve_key commit_project commit_key try_inc_concurrency
      dec_concurrency put
  reserve-Settles now l = ground arith

-- An admission raises the counter of the key, and that of the project, by one at the id of the
-- request, if that scope has a concurrency limit, and leaves it within the limit; a refusal, for
-- whatever reason, leaves every counter as it was; and no other id is touched either way.
pub try_acquire-Settles :
    (key_id project_id : Text) (kl pl : QuotaLimits) (now : ℕ) (l : QuotaLimiter) (j : Text)
    → Settles key_id project_id kl pl j l (try_acquire key_id project_id kl pl now l)
unfolding try_acquire
try_acquire-Settles key_id project_id kl pl now l j =
    Settles-next key_id project_id kl pl j l (check_project_rpm project_id pl.rpm_limit now l)
      (check_key_rpm key_id kl.rpm_limit now >> settling key_id project_id kl pl now)
      (check_project_rpm-Keeps project_id pl.rpm_limit now l j)
      λ l'.
        Settles-next key_id project_id kl pl j l' (check_key_rpm key_id kl.rpm_limit now l')
          (settling key_id project_id kl pl now) (check_key_rpm-Keeps key_id kl.rpm_limit now l' j)
          (reserve-Settles key_id project_id kl pl j now)

-- Releasing a request that was admitted under limits on both counters restores every counter.
pub release-try_acquire :
    (key_id project_id : Text) (kl pl : QuotaLimits) (kn pn now : ℕ) (l l' : QuotaLimiter)
    (j : Text)
    → kl.concurrency_limit ≡ some kn
    → pl.concurrency_limit ≡ some pn
    → try_acquire key_id project_id kl pl now l ≡ (l', ok)
    → Holds l (release key_id (some project_id) l') 0 0 j
unfolding release
release-try_acquire key_id project_id kl pl kn pn now l l' j ek ep e =
    let s = try_acquire-Settles key_id project_id kl pl now l j in
    let s' = rw (e, ek, ep) at s in
    omega (
      arith,
      s',
      active-dec_concurrency l'.key_concurrency key_id j,
      active-dec_concurrency l'.project_concurrency project_id j,
    )
