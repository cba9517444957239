-- ===== src/Session/Store.antt =====
-- src/policy/session.rs: the table of sessions. A read of the clock is an argument: `now` is the
-- first read of a call and `later` the next. A `Duration` is a number of nanoseconds.
use smart_gate.Base.{
  Bool, Option, Text, if◌then◌else◌, leb, ltb, none, some, suc, zero, ℕ, ℕ_discrete, ◌%◌, ◌*◌, ◌+◌,
  ◌-◌, ◌==◌, ◌^◌,
}
use smart_gate.Base.Map.{Map, or_else, put}
use smart_gate.Base.Int.{negsuc, pos, ℤ}

pub record SessionKey : Type 0 where
  pub pool_id : Text
  pub session_id : Text
  pub epoch : ℕ

pub record SessionEntry : Type 0 where
  pub turn_count : ℕ
  pub first_prefix_hash : Option ℕ
  pub sticky_endpoint_id : Option Text
  pub last_seen : ℕ
  pub ttl : ℕ

unfoldable pub SessionKey-discrete : Discrete SessionKey
unfolding ℕ_discrete
SessionKey-discrete = hlevel ℕ_discrete

abbrev pub Sessions : Type 0
Sessions = Map SessionKey SessionEntry

abbrev pub nanos : ℕ
nanos = 1_000_000_000

abbrev pub default_session_ttl : ℕ
default_session_ttl = 3600 * nanos

abbrev pub session_key : Text → Text → ℕ → SessionKey
session_key pool session epoch = record { pool_id = pool; session_id = session; epoch = epoch }

-- An entry that was seen within its own lifetime stays.
unfoldable pub keep_fresh : ℕ → Option SessionEntry → Option SessionEntry
keep_fresh now none = none
keep_fresh now (some e) = if ltb (now - e.last_seen) e.ttl then some e else none

unfoldable pub purge_stale_sessions : Sessions → ℕ → Sessions
purge_stale_sessions m now k = keep_fresh now (m k)

unfoldable pub ttl_from_secs : ℤ → ℕ
ttl_from_secs (pos zero) = default_session_ttl
ttl_from_secs (pos (suc n)) = suc n * nanos
ttl_from_secs (negsuc n) = default_session_ttl

unfoldable pub sticky_of : ℕ → ℕ → Option SessionEntry → Option Text
sticky_of ttl later none = none
sticky_of ttl later (some e) = if leb ttl (later - e.last_seen) then none else e.sticky_endpoint_id

unfoldable pub get_sticky_endpoint :
    Sessions → SessionKey → ℤ → (now later : ℕ) → Sessions × Option Text
get_sticky_endpoint m key ttl_secs now later =
    let purged = purge_stale_sessions m now in
    (purged, sticky_of (ttl_from_secs ttl_secs) later (purged key))

unfoldable pub fresh_entry : Option ℕ → ℕ → ℕ → SessionEntry
fresh_entry prefix_hash now ttl = record {
  turn_count = 0;
  first_prefix_hash = prefix_hash;
  sticky_endpoint_id = none;
  last_seen = now;
  ttl = ttl;
}

-- `if entry.first_prefix_hash.is_none() { … }`
abbrev pub or_first : Option ℕ → Option ℕ → Option ℕ
or_first none prefix_hash = prefix_hash
or_first (some h) prefix_hash = some h

-- The turn number is a `u32`.
unfoldable pub next_turn_entry : SessionEntry → Option ℕ → ℕ → ℕ → SessionEntry
next_turn_entry e prefix_hash ttl later = record e {
  turn_count = (e.turn_count + 1) % 2 ^ 32;
  last_seen = later;
  ttl = ttl;
  first_prefix_hash = or_first e.first_prefix_hash prefix_hash;
}

unfoldable pub next_turn_index :
    Sessions → SessionKey → Option ℕ → ℤ → (now later : ℕ) → Sessions × ℕ
next_turn_index m key prefix_hash ttl_secs now later =
    let purged = purge_stale_sessions m now in
    let ttl = ttl_from_secs ttl_secs in
    let entry = or_else (purged key) (fresh_entry prefix_hash later ttl) in
    let e = next_turn_entry entry prefix_hash ttl later in
    (put SessionKey-discrete purged key (some e), e.turn_count)

abbrev pub same_hash : Option ℕ → Option ℕ → Option Bool
same_hash (some first) (some current) = some (first == current)
same_hash none h = none
same_hash (some first) none = none

unfoldable pub prefix_stable : Sessions → SessionKey → Option ℕ → Option Bool
prefix_stable m key prefix_hash = elim (m key) [
  | none ↦ none
  | some e ↦ same_hash e.first_prefix_hash prefix_hash
]

-- The endpoint binds if none is bound yet; else a hit reads the clock once more.
unfoldable pub bind_sticky : Option Text → Text → Bool → ℕ → ℕ → Option Text × ℕ
bind_sticky none endpoint_id hit now later = (some endpoint_id, now)
bind_sticky (some old) endpoint_id hit now later = (some old, if hit then later else now)

unfoldable pub success_entry :
    SessionEntry → Text → Option ℕ → Bool → ℕ → (now later : ℕ) → SessionEntry
success_entry e endpoint_id prefix_hash hit ttl now later =
    let (sticky, seen) = bind_sticky e.sticky_endpoint_id endpoint_id hit now later in
    record e {
      last_seen = seen;
      ttl = ttl;
      sticky_endpoint_id = sticky;
      first_prefix_hash = or_first e.first_prefix_hash prefix_hash;
    }

unfoldable pub record_success :
    Sessions → SessionKey → Text → Option ℕ → Bool → ℤ → (now later : ℕ) → Sessions
record_success m key endpoint_id prefix_hash hit ttl_secs now later =
    let ttl = ttl_from_secs ttl_secs in
    let entry = or_else (m key) (fresh_entry prefix_hash now ttl) in
    put SessionKey-discrete m key
      (some (success_entry entry endpoint_id prefix_hash hit ttl now later))
