-- ===== src/Session/Samples.antt =====
-- A session of two turns, and the theorems at it.
use smart_gate.Base.{
  Text, [], arith, codes, false, none, refl, some, true, ◌%◌, ◌*◌, ◌+◌, ◌^◌, ◌∷◌, ◌≡◌,
}
use smart_gate.Base.Map.{empty, put}
use smart_gate.Base.Int.{pos, ℤ}
use smart_gate.Session.Store.{
  SessionEntry, SessionKey, SessionKey-discrete, Sessions, bind_sticky, fresh_entry,
  get_sticky_endpoint, keep_fresh, nanos, next_turn_entry, next_turn_index, prefix_stable,
  purge_stale_sessions, record_success, session_key, success_entry, ttl_from_secs,
}
use smart_gate.Session.History.{IsBound, run, run-keeps_session, turn, turns}

abbrev chat : SessionKey
chat = session_key (codes "pool") (codes "s-1") 0

abbrev hour : ℤ
hour = pos 3600

abbrev sticky : Text
sticky = codes "ep-1"

-- After one turn and one success, both at the first second.
abbrev bound : Sessions
bound =
    record_success (next_turn_index empty chat (some 7) hour nanos nanos).0 chat sticky (some 7)
      false hour nanos nanos

abbrev bound_entry : SessionEntry
bound_entry = record {
  turn_count = 1;
  first_prefix_hash = some 7;
  sticky_endpoint_id = some sticky;
  last_seen = nanos;
  ttl = 3600 * nanos;
}

bound_found : bound chat ≡ some bound_entry
unfolding record_success next_turn_index next_turn_entry success_entry bind_sticky
    purge_stale_sessions keep_fresh ttl_from_secs put SessionKey-discrete fresh_entry
bound_found = refl

bound-IsBound : IsBound chat sticky 7 1 nanos (3600 * nanos) bound
bound-IsBound = record {
  entry = bound_entry;
  found = bound_found;
  sticky = refl;
  first = refl;
  counted = refl;
  lasts = omega arith;
  seen = omega arith;
}

second_turn : (next_turn_index bound chat none hour (2 * nanos) (2 * nanos)).1 ≡ 2
unfolding record_success next_turn_index next_turn_entry success_entry bind_sticky
    purge_stale_sessions keep_fresh ttl_from_secs put SessionKey-discrete fresh_entry
second_turn = refl

run-keeps_session_example :
    ((get_sticky_endpoint
        (run bound (turn chat none hour (2 * nanos) (2 * nanos) ∷ []))
        chat
        hour
        (3 * nanos)
        (3 * nanos)).1
      ≡ some sticky)
    × (prefix_stable (run bound (turn chat none hour (2 * nanos) (2 * nanos) ∷ [])) chat (some 7)
        ≡ some true)
    × ((next_turn_index
          (run bound (turn chat none hour (2 * nanos) (2 * nanos) ∷ []))
          chat
          (some 7)
          hour
          (3 * nanos)
          (3 * nanos)).1
        ≡ (1 + turns chat (turn chat none hour (2 * nanos) (2 * nanos) ∷ []) + 1) % 2 ^ 32)
unfolding ttl_from_secs
run-keeps_session_example =
    run-keeps_session chat sticky 7 1 nanos (3600 * nanos) bound
      (turn chat none hour (2 * nanos) (2 * nanos) ∷ []) (some 7) hour (3 * nanos) (3 * nanos)
      bound-IsBound (((omega arith), (omega arith), (omega arith), (λ e. omega arith)), tt)
      (omega arith, omega arith, omega arith, λ e. omega arith)
