-- ===== src/Session/Laws.antt =====
-- What one call does to one session, and to the others.
use smart_gate.Base.{
  Bool, Option, Text, arith, if◌then◌else◌, ltb, some, ℕ, ◌%◌, ◌+◌, ◌-◌, ◌<◌, ◌^◌, ◌≡◌, ◌≢◌,
}
use smart_gate.Base.Map.{put}
use smart_gate.Base.Int.{ℤ}
use smart_gate.Session.Store.{
  SessionEntry, SessionKey, Sessions, fresh_entry, get_sticky_endpoint, keep_fresh, next_turn_entry,
  next_turn_index, purge_stale_sessions, record_success, sticky_of, ttl_from_secs,
}

-- A sticky endpoint is given only for an entry that is within its own lifetime at the purge and
-- within the caller's at the read; and such an entry gives what it is bound to.
get_sticky_endpoint_iff :
    (m : Sessions) (key : SessionKey) (secs : ℤ) (now later : ℕ) (e : SessionEntry)
    → m key ≡ some e
    → ((id : Text)
        → (get_sticky_endpoint m key secs now later).1 ≡ some id
        → (now - e.last_seen < e.ttl)
          × (later - e.last_seen < ttl_from_secs secs)
          × (e.sticky_endpoint_id ≡ some id))
      × ((now - e.last_seen < e.ttl)
          → (later - e.last_seen < ttl_from_secs secs)
          → (get_sticky_endpoint m key secs now later).1 ≡ e.sticky_endpoint_id)
unfolding get_sticky_endpoint purge_stale_sessions keep_fresh sticky_of
get_sticky_endpoint_iff m key secs now later e h = ((λ id s. ground arith), λ a b. ground arith)

-- A live session gets the next number, modulo 2^32; a session that is new, or ran out, starts at 1.
next_turn_index_live :
    (m : Sessions) (key : SessionKey) (hash : Option ℕ) (secs : ℤ) (now later : ℕ)
    (e : SessionEntry)
    → m key ≡ some e
    → (next_turn_index m key hash secs now later).1
      ≡ (if ltb (now - e.last_seen) e.ttl then (e.turn_count + 1) % 2 ^ 32 else 1)
unfolding next_turn_index purge_stale_sessions keep_fresh next_turn_entry fresh_entry
next_turn_index_live m key hash secs now later e h = ground arith

-- Keys that differ in pool, session or epoch do not touch one another, but for the purge.
pub next_turn_index_other :
    (m : Sessions) (key other : SessionKey) (hash : Option ℕ) (secs : ℤ) (now later : ℕ)
    → key ≢ other
    → (next_turn_index m key hash secs now later).0 other ≡ purge_stale_sessions m now other
unfolding next_turn_index put
next_turn_index_other m key other hash secs now later h = ground arith

pub record_success_other :
    (m : Sessions) (key other : SessionKey) (id : Text) (hash : Option ℕ) (hit : Bool) (secs : ℤ)
    (now later : ℕ)
    → key ≢ other
    → record_success m key id hash hit secs now later other ≡ m other
unfolding record_success put
record_success_other m key other id hash hit secs now later h = ground arith
