-- ===== src/Quota/Window.antt =====
-- src/quota/mod.rs: the request timestamps of the last minute, one queue for each id.
-- An `Instant` is a number of nanoseconds, and `duration_since` stops at zero, as `-` does.
use smart_gate.Base.{
  Bool, List, Option, Text, Text-discrete, [], false, if◌then◌else◌, leb, length, max, none, some,
  true, ℕ, ◌%◌, ◌&&◌, ◌*◌, ◌++◌, ◌-◌, ◌/◌, ◌^◌, ◌∷◌,
}
use smart_gate.Base.Map.{Map, or_else, put}

abbrev pub second : ℕ
second = 1_000_000_000

abbrev pub rpm_window : ℕ
rpm_window = 60 * second

abbrev pub rpm_idle_ttl : ℕ
rpm_idle_ttl = 600 * second

abbrev pub u32_mod : ℕ
u32_mod = 2 ^ 32

-- The events stand oldest first.
pub record RpmState : Type 0 where
  pub events : List ℕ
  pub last_active : ℕ

unfoldable pub new_state : ℕ → RpmState
new_state now = record { events = []; last_active = now }

unfoldable pub prune_window : List ℕ → ℕ → List ℕ
prune_window [] now = []
prune_window (t ∷ ts) now = if leb rpm_window (now - t) then prune_window ts now else t ∷ ts

abbrev pub is_empty : List ℕ → Bool
is_empty [] = true
is_empty (t ∷ ts) = false

-- Whole seconds until the oldest event leaves the window, at least one.
unfoldable pub retry_after : List ℕ → ℕ → ℕ
retry_after [] now = 1
retry_after (oldest ∷ ts) now = max ((rpm_window - (now - oldest)) / second) 1

-- `remove_if`: the entry is pruned under the lock, and dropped if nothing is left.
unfoldable pub evict_if_empty : Map Text RpmState → Text → ℕ → Map Text RpmState
evict_if_empty m id now = elim (m id) [
  | none ↦ m
  | some state ↦
      let events = prune_window state.events now in
      put Text-discrete m id
        (if is_empty events then none else some (record state { events = events }))
]

-- The state under an id, made on first use.
unfoldable pub entry_at : Map Text RpmState → Text → ℕ → RpmState
unfolding new_state
entry_at m id now = or_else (m id) (new_state now)

-- The new map, and after how many seconds to retry if the limit is reached.
unfoldable pub would_exceed_rpm : Map Text RpmState → Text → ℕ → ℕ → Map Text RpmState × Option ℕ
unfolding entry_at evict_if_empty
would_exceed_rpm m id limit now =
    let state = entry_at m id now in
    let events = prune_window state.events now in
    let evict = is_empty events && leb rpm_idle_ttl (now - state.last_active) in
    let touched = put Text-discrete m id (some (record { events = events; last_active = now })) in
    let retry : Option ℕ =
      if leb limit (length events % u32_mod) then some (retry_after events now) else none in
    (if evict then evict_if_empty touched id now else touched, retry)

unfoldable pub record_rpm : Map Text RpmState → Text → ℕ → Map Text RpmState
unfolding entry_at
record_rpm m id now =
    let state = entry_at m id now in
    put Text-discrete m id
      (some (record { events = prune_window state.events now ++ now ∷ []; last_active = now }))

abbrev pub events_of : Option RpmState → List ℕ
events_of none = []
events_of (some state) = state.events

-- What the window of an id holds; a missing entry holds nothing.
abbrev pub window_of : Map Text RpmState → Text → List ℕ
window_of m id = events_of (m id)
