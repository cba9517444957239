-- ===== src/Quota/System.antt =====
-- The limiter under traffic: requests at times that do not fall, each with the limits that a fixed
-- policy sets for its key and its project, and the end of any request in flight.
use smart_gate.Base.{List, Text, [], some, ℕ, ◌++◌, ◌∷◌, ◌≡◌, ◌≤◌}
use smart_gate.Quota.Limiter.{
  Outcome, QuotaLimiter, QuotaLimits, err, new, ok, release, try_acquire,
}

pub record Policy : Type 0 where
  pub key_limits : Text → QuotaLimits
  pub project_limits : Text → QuotaLimits

-- `log` keeps, newest first, each admission with its time.
pub record System : Type 0 where
  pub limiter : QuotaLimiter
  pub flights : List (Text × Text)
  pub log : List (Text × Text × ℕ)
  pub clock : ℕ

unfoldable pub init : System
unfolding new
init = record { limiter = new; flights = []; log = []; clock = 0 }

abbrev pub settle : System → Text → Text → ℕ → QuotaLimiter × Outcome → System
settle s key_id project_id now (l, ok) = record {
  limiter = l;
  flights = (key_id, project_id) ∷ s.flights;
  log = (key_id, project_id, now) ∷ s.log;
  clock = now;
}
settle s key_id project_id now (l, err e) = record s { limiter = l; clock = now }

unfoldable pub arrive : Policy → System → Text → Text → ℕ → System
arrive p s key_id project_id now = settle s key_id project_id now (
    try_acquire key_id project_id (p.key_limits key_id) (p.project_limits project_id) now s.limiter)

pub data Step (p : Policy) : System → System → Type 0 where
  request :
      (s : System) (key_id project_id : Text) (now : ℕ)
      → s.clock ≤ now
      → Step p s (arrive p s key_id project_id now)
  finish :
      (s : System) (key_id project_id : Text) (before after : List (Text × Text))
      → s.flights ≡ before ++ (key_id, project_id) ∷ after
      → Step p s (record s {
        limiter = release key_id (some project_id) s.limiter;
        flights = before ++ after;
      })

pub data Reach (p : Policy) : System → Type 0 where
  start : Reach p init
  step : {s t : System} → Reach p s → Step p s t → Reach p t
