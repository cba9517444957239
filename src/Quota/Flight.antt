-- ===== src/Quota/Flight.antt =====
-- Concurrency: the counters against the requests in flight.
use smart_gate.Base.{List, Option, Text, [], ap, arith, none, some, ℕ, ◌++◌, ◌+◌, ◌∷◌, ◌≡◌, ◌≤◌}
use smart_gate.Quota.Admission.{Settles, try_acquire-Settles}
use smart_gate.Quota.Counters.{active, active-dec_concurrency, slot}
use smart_gate.Quota.Limiter.{Outcome, QuotaLimiter, err, new, ok, release}
use smart_gate.Quota.System.{
  Policy, Reach, Step, System, arrive, finish, init, request, settle, start, step,
}

-- How many of the requests in flight hold a slot of the key `j`, and of the project `j`.
abbrev pub key_count : List (Text × Text) → Text → ℕ
key_count [] j = 0
key_count (f ∷ fs) j = slot f.0 j + key_count fs j

abbrev pub project_count : List (Text × Text) → Text → ℕ
project_count [] j = 0
project_count (f ∷ fs) j = slot f.1 j + project_count fs j

-- A counter under a limit counts the requests in flight and stays within the limit; without a
-- limit it stays at zero.
abbrev pub Counts : Option ℕ → ℕ → ℕ → Type 0
Counts none counter flights = counter ≡ 0
Counts (some limit) counter flights = (counter ≡ flights) × (counter ≤ limit)

abbrev pub IsCounted : Policy → System → Type 0
IsCounted p s =
    (j : Text)
    → Counts (p.key_limits j).concurrency_limit (active s.limiter.key_concurrency j)
        (key_count s.flights j)
      × Counts (p.project_limits j).concurrency_limit (active s.limiter.project_concurrency j)
          (project_count s.flights j)

key_count-append :
    (f : Text × Text) (xs ys : List (Text × Text)) (j : Text)
    → key_count (xs ++ f ∷ ys) j ≡ key_count (xs ++ ys) j + slot f.0 j
key_count-append f [] ys j = omega arith
key_count-append f (x ∷ xs) ys j = omega (arith, key_count-append f xs ys j)

project_count-append :
    (f : Text × Text) (xs ys : List (Text × Text)) (j : Text)
    → project_count (xs ++ f ∷ ys) j ≡ project_count (xs ++ ys) j + slot f.1 j
project_count-append f [] ys j = omega arith
project_count-append f (x ∷ xs) ys j = omega (arith, project_count-append f xs ys j)

finish-IsCounted :
    (p : Policy) (s : System) (k q : Text) (before after : List (Text × Text))
    → s.flights ≡ before ++ (k, q) ∷ after
    → IsCounted p s
    → IsCounted p (record s { limiter = release k (some q) s.limiter; flights = before ++ after })
unfolding release
finish-IsCounted p s k q before after e c j = ground (
  arith,
  c j,
  ap (λ fs. key_count fs j) e,
  ap (λ fs. project_count fs j) e,
  key_count-append (k, q) before after j,
  project_count-append (k, q) before after j,
  active-dec_concurrency s.limiter.key_concurrency k j,
  active-dec_concurrency s.limiter.project_concurrency q j,
)

arrive-IsCounted :
    (p : Policy) (s : System) (k q : Text) (now : ℕ) (r : QuotaLimiter × Outcome)
    → ((j : Text) → Settles k q (p.key_limits k) (p.project_limits q) j s.limiter r)
    → IsCounted p s
    → IsCounted p (settle s k q now r)
arrive-IsCounted p s k q now (l, ok) h c j = ground (arith, h j, c j)
arrive-IsCounted p s k q now (l, err e) h c j = ground (arith, h j, c j)

Step-IsCounted : (p : Policy) {s t : System} → Step p s t → IsCounted p s → IsCounted p t
unfolding arrive
Step-IsCounted p (request s k q now h) c =
    arrive-IsCounted p s k q now _ (try_acquire-Settles k q _ _ now s.limiter) c
Step-IsCounted p (finish s k q before after e) c = finish-IsCounted p s k q before after e c

-- Whatever requests arrive and end, in whatever order: under a concurrency limit the counter of a
-- key or project is the number of its requests in flight and never passes the limit.
pub Reach-IsCounted : (p : Policy) {s : System} → Reach p s → IsCounted p s
unfolding init new
Reach-IsCounted p start j = ground arith
Reach-IsCounted p (step r st) j = Step-IsCounted p st (Reach-IsCounted p r) j
