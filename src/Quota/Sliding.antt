-- ===== src/Quota/Sliding.antt =====
-- Rates: in no minute does a key or project get more admissions than its limit.
use smart_gate.Base.{Option, Text, [], arith, refl, ℕ, ◌≤◌}
use smart_gate.Quota.Window.{prune_window}
use smart_gate.Quota.Limiter.{Outcome, QuotaLimiter, err, new, ok, release}
use smart_gate.Quota.Rates.{RatesBoth, try_acquire-Rates}
use smart_gate.Quota.System.{
  Policy, Reach, Step, System, arrive, finish, init, request, settle, start, step,
}
use smart_gate.Quota.Accounts.{Accounts, Entry, IsRated, IsU32, Rated-Accounts, Tracks}

abbrev pub key_of : Entry → Text
key_of e = e.0

abbrev pub project_of : Entry → Text
project_of e = e.1

abbrev pub key_rate : Policy → Text → Option ℕ
key_rate p j = (p.key_limits j).rpm_limit

abbrev pub project_rate : Policy → Text → Option ℕ
project_rate p j = (p.project_limits j).rpm_limit

-- The log stays within the limits, and the windows of the limiter account for it.
record IsSliding (p : Policy) (s : System) : Type 0 where
  pub keys : IsRated key_of (key_rate p) s.log
  pub projects : IsRated project_of (project_rate p) s.log
  pub key_windows : Accounts key_of (key_rate p) s.limiter.key_rpm s.log s.clock
  pub project_windows : Accounts project_of (project_rate p) s.limiter.project_rpm s.log s.clock

empty-Tracks : (id_of : Entry → Text) (j : Text) (n : ℕ) → Tracks id_of j n [] [] 0
unfolding prune_window
empty-Tracks id_of j n = record { counted = λ later h. refl; past = tt; small = omega arith }

module _ (p : Policy) (ku : IsU32 (key_rate p)) (pu : IsU32 (project_rate p)) where
  arrive-IsSliding :
      (s : System) (k q : Text) (now : ℕ) (r : QuotaLimiter × Outcome)
      → s.clock ≤ now
      → RatesBoth k q (p.key_limits k) (p.project_limits q) now s.limiter r
      → IsSliding p s
      → IsSliding p (settle s k q now r)
  arrive-IsSliding s k q now (l, ok) h r v =
      let ks =
        Rated-Accounts key_of (key_rate p) s.limiter.key_rpm l.key_rpm s.log s.clock (k, q, now) ok
          _ refl ku h r.0 v.keys v.key_windows in
      let qs =
        Rated-Accounts project_of (project_rate p) s.limiter.project_rpm l.project_rpm s.log s.clock
          (k, q, now) ok _ refl pu h r.1 v.projects v.project_windows in
      record { keys = ks.0; projects = qs.0; key_windows = ks.1; project_windows = qs.1 }
  arrive-IsSliding s k q now (l, err o) h r v =
      let ks =
        Rated-Accounts key_of (key_rate p) s.limiter.key_rpm l.key_rpm s.log s.clock (k, q, now)
          (err o) _ refl ku h r.0 v.keys v.key_windows in
      let qs =
        Rated-Accounts project_of (project_rate p) s.limiter.project_rpm l.project_rpm s.log s.clock
          (k, q, now) (err o) _ refl pu h r.1 v.projects v.project_windows in
      record { keys = ks.0; projects = qs.0; key_windows = ks.1; project_windows = qs.1 }

  Step-IsSliding : {s t : System} → Step p s t → IsSliding p s → IsSliding p t
  unfolding arrive release
  Step-IsSliding (request s k q now h) v =
      arrive-IsSliding s k q now _ h (try_acquire-Rates k q _ _ now s.limiter) v
  Step-IsSliding (finish s k q before after e) v = record {
    keys = v.keys;
    projects = v.projects;
    key_windows = v.key_windows;
    project_windows = v.project_windows;
  }

  Reach-IsSliding : {s : System} → Reach p s → IsSliding p s
  unfolding init new
  Reach-IsSliding start = record {
    keys = tt;
    projects = tt;
    key_windows = λ j n e. empty-Tracks key_of j n;
    project_windows = λ j n e. empty-Tracks project_of j n;
  }
  Reach-IsSliding (step r st) = Step-IsSliding st (Reach-IsSliding r)

-- Whatever requests arrive and end, at times that do not fall and under 32-bit limits: at every
-- admission the minute that ends there has no more admissions of the same key than the limit of the
-- key, nor of the same project than the limit of the project.
pub Reach-IsRated :
    (p : Policy) {s : System}
    → IsU32 (key_rate p)
    → IsU32 (project_rate p)
    → Reach p s
    → IsRated key_of (key_rate p) s.log × IsRated project_of (project_rate p) s.log
Reach-IsRated p ku pu r = let v = Reach-IsSliding p ku pu r in (v.keys, v.projects)
