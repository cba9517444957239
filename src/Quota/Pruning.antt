-- ===== src/Quota/Pruning.antt =====
-- Laws of `prune_window` and of the two operations on an id's window.
use smart_gate.Base.{
  All, List, Text, Text-discrete, [], arith, if◌then◌else◌, ite, leb, length, length-append, none,
  refl, some, ℕ, ◌++◌, ◌+◌, ◌-◌, ◌<◌, ◌∷◌, ◌≡◌, ◌≤◌,
}
use smart_gate.Base.Map.{Map, ite-ap, put}
use smart_gate.Quota.Window.{
  RpmState, entry_at, events_of, evict_if_empty, prune_window, record_rpm, retry_after, rpm_window,
  u32_mod, window_of, would_exceed_rpm,
}

-- Pruning later subsumes pruning now.
pub prune_window-prune_window :
    (ts : List ℕ) (now later : ℕ)
    → now ≤ later
    → prune_window (prune_window ts now) later ≡ prune_window ts later
unfolding prune_window
prune_window-prune_window [] now later h = refl
prune_window-prune_window (t ∷ ts) now later h =
    ground (arith, prune_window-prune_window ts now later h)

pub length-prune_window : (ts : List ℕ) (now : ℕ) → length (prune_window ts now) ≤ length ts
unfolding prune_window
length-prune_window [] now = omega arith
length-prune_window (t ∷ ts) now = ground (arith, length-prune_window ts now)

pub prune_window-Past :
    (ts : List ℕ) (now clock : ℕ)
    → All (λ t. t ≤ clock) ts
    → All (λ t. t ≤ clock) (prune_window ts now)
unfolding prune_window
prune_window-Past [] now clock a = tt
prune_window-Past (t ∷ ts) now clock a = ground (arith, prune_window-Past ts now clock a.1)

pub Past-mono : (ts : List ℕ) {m n : ℕ} → m ≤ n → All (λ t. t ≤ m) ts → All (λ t. t ≤ n) ts
Past-mono [] h a = tt
Past-mono (t ∷ ts) h a = (omega arith, Past-mono ts h a.1)

pub Past-append :
    (ts : List ℕ) (now : ℕ) → All (λ t. t ≤ now) ts → All (λ t. t ≤ now) (ts ++ now ∷ [])
Past-append [] now a = omega arith
Past-append (t ∷ ts) now a = (a.0, Past-append ts now a.1)

-- One if an event is younger than a minute.
abbrev pub fresh : ℕ → ℕ → ℕ
fresh later t = if leb rpm_window (later - t) then 0 else 1

-- A new event counts once more for the minute after it.
pub length-prune_window-append :
    (ts : List ℕ) (now later : ℕ)
    → All (λ t. t ≤ now) ts
    → now ≤ later
    → length (prune_window (ts ++ now ∷ []) later)
      ≡ length (prune_window ts later) + fresh later now
unfolding prune_window
length-prune_window-append [] now later a h = ground arith
length-prune_window-append (t ∷ ts) now later a h =
    ground (arith, length-prune_window-append ts now later a.1 h, length-append ts (now ∷ []))

prune_window-nil : (now : ℕ) → prune_window [] now ≡ []
unfolding prune_window
prune_window-nil now = refl

-- The window of an id after the check: pruned there, and as it was elsewhere.
pub window_of-would_exceed_rpm :
    (m : Map Text RpmState) (id j : Text) (limit now : ℕ)
    → window_of (would_exceed_rpm m id limit now).0 j
      ≡ ite (Text-discrete id j) (prune_window (window_of m id) now) (window_of m j)
unfolding would_exceed_rpm put entry_at evict_if_empty
window_of-would_exceed_rpm m id j limit now =
    ground (arith, prune_window-nil now, prune_window-prune_window (window_of m id) now now)

pub events-entry_at :
    (m : Map Text RpmState) (id : Text) (now : ℕ) → (entry_at m id now).events ≡ window_of m id
unfolding entry_at
events-entry_at m id now = ground arith

window_of-put :
    (m : Map Text RpmState) (id j : Text) (state : RpmState)
    → window_of (put Text-discrete m id (some state)) j
      ≡ ite (Text-discrete id j) state.events (window_of m j)
unfolding put
window_of-put m id j state = ite-ap events_of (Text-discrete id j) (some state) (m j)

pub window_of-record_rpm :
    (m : Map Text RpmState) (id j : Text) (now : ℕ)
    → window_of (record_rpm m id now) j
      ≡ ite (Text-discrete id j) (prune_window (window_of m id) now ++ now ∷ []) (window_of m j)
unfolding record_rpm
window_of-record_rpm m id j now = rw (window_of-put, events-entry_at)

-- A check that passes leaves room below the limit, if the window fits its 32-bit length.
pub would_exceed_rpm-room :
    (m : Map Text RpmState) (id : Text) (limit now : ℕ)
    → length (window_of m id) < u32_mod
    → (would_exceed_rpm m id limit now).1 ≡ none
    → length (prune_window (window_of m id) now) < limit
unfolding would_exceed_rpm put entry_at
would_exceed_rpm-room m id limit now h e =
    ground (arith, prune_window-nil now, length-prune_window (window_of m id) now)

-- A refusal names between one and sixty seconds.
pub would_exceed_rpm-retry :
    (m : Map Text RpmState) (id : Text) (limit now retry : ℕ)
    → (would_exceed_rpm m id limit now).1 ≡ some retry
    → (1 ≤ retry) × (retry ≤ 60)
unfolding would_exceed_rpm retry_after
would_exceed_rpm-retry m id limit now retry e = ground arith
