-- ===== src/Session/History.antt =====
-- A session under traffic: calls for any session, in any order, within the lifetime of one.
use smart_gate.Session.Laws.{next_turn_index_other, record_success_other}
use smart_gate.Base.Map.{put_self}
use smart_gate.Base.{
  All, Bool, List, Option, Text, [], add-zero, add_assoc, arith, if_neg, if_pos, ite, refl, some, ℕ,
  ◌%◌, ◌+◌, ◌<◌, ◌^◌, ◌∙◌, ◌∷◌, ◌≡◌, ◌≤◌,
}
use smart_gate.Base.Int.{ℤ}
use smart_gate.Session.Store.{
  SessionEntry, SessionKey, SessionKey-discrete, Sessions, bind_sticky, get_sticky_endpoint,
  keep_fresh, next_turn_entry, next_turn_index, prefix_stable, purge_stale_sessions, record_success,
  same_hash, sticky_of, success_entry, ttl_from_secs,
}

-- Each call with its reads of the clock.
pub data Call : Type 0 where
  turn : SessionKey → Option ℕ → ℤ → (now later : ℕ) → Call
  success : SessionKey → Text → Option ℕ → Bool → ℤ → (now later : ℕ) → Call
  look : SessionKey → ℤ → (now later : ℕ) → Call

unfoldable pub call : Sessions → Call → Sessions
call m (turn k hash secs now later) = (next_turn_index m k hash secs now later).0
call m (success k id hash hit secs now later) = record_success m k id hash hit secs now later
call m (look k secs now later) = (get_sticky_endpoint m k secs now later).0

pub run : Sessions → List Call → Sessions
run m [] = m
run m (c ∷ cs) = run (call m c) cs

-- A call within `life` of the time `start`, whose lifetime is no shorter if it is for `key`.
abbrev pub Timely : SessionKey → ℕ → ℕ → SessionKey → ℤ → ℕ → ℕ → Type 0
Timely key start life k secs now later =
    (start ≤ now) × (now ≤ later) × (later < start + life) × (k ≡ key → life ≤ ttl_from_secs secs)

abbrev pub IsTimely : SessionKey → ℕ → ℕ → Call → Type 0
IsTimely key start life (turn k hash secs now later) = Timely key start life k secs now later
IsTimely key start life (success k id hash hit secs now later) =
    Timely key start life k secs now later
IsTimely key start life (look k secs now later) = Timely key start life k secs now later

-- The turns that a call adds to the session `key`.
abbrev pub turns_of : SessionKey → Call → ℕ
turns_of key (turn k hash secs now later) = ite (SessionKey-discrete k key) 1 0
turns_of key (success k id hash hit secs now later) = 0
turns_of key (look k secs now later) = 0

abbrev pub turns : SessionKey → List Call → ℕ
turns key [] = 0
turns key (c ∷ cs) = turns_of key c + turns key cs

-- The entry of `key` is bound to `id`, began with the prefix `hash`, has had `n` turns, was seen at
-- `start` or later, and then lives for `life` at least.
pub record IsBound (key : SessionKey) (id : Text) (hash n start life : ℕ) (m : Sessions)
    : Type 0 where
  pub entry : SessionEntry
  pub found : m key ≡ some entry
  pub sticky : entry.sticky_endpoint_id ≡ some id
  pub first : entry.first_prefix_hash ≡ some hash
  pub counted : entry.turn_count ≡ n % 2 ^ 32
  pub lasts : life ≤ entry.ttl
  pub seen : start ≤ entry.last_seen

module _ (key : SessionKey) (id : Text) (hash n start life : ℕ) (m : Sessions)
    (b : IsBound key id hash n start life m) where
  purge-found :
      (now : ℕ) → now < start + life → 0 < life → purge_stale_sessions m now key ≡ some b.entry
  unfolding purge_stale_sessions keep_fresh
  purge-found now h pos_life = rw b.found (ground arith)
      -- A session that is not called is left alone, at most looked over by the purge.

  other-IsBound :
      (m' : Sessions) → m' key ≡ some b.entry → IsBound key id hash (n + 0) start life m'
  other-IsBound m' e = record {
    entry = b.entry;
    found = e;
    sticky = b.sticky;
    first = b.first;
    counted = omega (arith, b.counted);
    lasts = b.lasts;
    seen = b.seen;
  }

  turn-IsBound :
      (h : Option ℕ) (secs : ℤ) (now later : ℕ)
      → Timely key start life key secs now later
      → IsBound key id hash (n + 1) start life (next_turn_index m key h secs now later).0
  unfolding next_turn_index next_turn_entry
  turn-IsBound h secs now later t =
      let found : purge_stale_sessions m now key ≡ some b.entry =
        purge-found now (omega arith) (omega arith) in
      let long = t.3 refl in
      record {
        entry = next_turn_entry b.entry h (ttl_from_secs secs) later;
        found = rw (put_self, found);
        sticky = b.sticky;
        first = ground (arith, b.first);
        counted = ground (arith, b.counted);
        lasts = long;
        seen = omega arith;
      }

  success-IsBound :
      (i : Text) (h : Option ℕ) (hit : Bool) (secs : ℤ) (now later : ℕ)
      → Timely key start life key secs now later
      → IsBound key id hash (n + 0) start life (record_success m key i h hit secs now later)
  unfolding record_success success_entry bind_sticky
  success-IsBound i h hit secs now later t =
      let long = t.3 refl in
      record {
        entry = success_entry b.entry i h hit (ttl_from_secs secs) now later;
        found = rw (put_self, b.found);
        sticky = ground (arith, b.sticky);
        first = ground (arith, b.first);
        counted = omega (arith, b.counted);
        lasts = long;
        seen = ground (arith, b.sticky);
      }

  call-IsBound :
      (c : Call)
      → IsTimely key start life c
      → IsBound key id hash (n + turns_of key c) start life (call m c)
  unfolding call
  call-IsBound (turn k h secs now later) t = elim (SessionKey-discrete k key) [
    | yes same ↦ rw (if_pos _ same, same) (turn-IsBound h secs now later (rw same at t))
    | no other ↦ rw (if_neg _ other) (
        other-IsBound (next_turn_index m k h secs now later).0 (
          next_turn_index_other m k key h secs now later other
          ∙ purge-found now (omega arith) (omega arith)))
  ]
  call-IsBound (success k i h hit secs now later) t = elim (SessionKey-discrete k key) [
    | yes same ↦ rw same (success-IsBound i h hit secs now later (rw same at t))
    | no other ↦
        other-IsBound (record_success m k i h hit secs now later)
          (record_success_other m k key i h hit secs now later other ∙ b.found)
  ]
  call-IsBound (look k secs now later) t =
      other-IsBound (get_sticky_endpoint m k secs now later).0
        (unfold get_sticky_endpoint in purge-found now (omega arith) (omega arith))

run-IsBound :
    (key : SessionKey) (id : Text) (hash n start life : ℕ) (m : Sessions) (cs : List Call)
    → IsBound key id hash n start life m
    → All (IsTimely key start life) cs
    → IsBound key id hash (n + turns key cs) start life (run m cs)
unfolding run
run-IsBound key id hash n start life m [] b t = rw (add-zero n) b
run-IsBound key id hash n start life m (c ∷ cs) b t =
    let rest =
      run-IsBound key id hash (n + turns_of key c) start life (call m c) cs
        (call-IsBound key id hash n start life m b c t.0) t.1 in
    rw (← add_assoc n (turns_of key c) (turns key cs)) rest

-- A session is bound to `id` and was seen at `start` or later. Whatever calls are made before
-- `start + life`, where `life` is no longer than the lifetime of its entry, for
-- this session (under lifetimes no shorter) and for any other: the session stays bound to `id`, the
-- prefix that it is compared with stays its first, and its next turn number is one more than the
-- turns it has had, modulo 2^32.
pub run-keeps_session :
    (key : SessionKey) (id : Text) (hash n start life : ℕ) (m : Sessions) (cs : List Call)
    (h : Option ℕ) (secs : ℤ) (now later : ℕ)
    → IsBound key id hash n start life m
    → All (IsTimely key start life) cs
    → Timely key start life key secs now later
    → ((get_sticky_endpoint (run m cs) key secs now later).1 ≡ some id)
      × (prefix_stable (run m cs) key h ≡ same_hash (some hash) h)
      × ((next_turn_index (run m cs) key h secs now later).1 ≡ (n + turns key cs + 1) % 2 ^ 32)
unfolding get_sticky_endpoint sticky_of prefix_stable next_turn_index next_turn_entry
run-keeps_session key id hash n start life m cs h secs now later b ts t =
    let v = run-IsBound key id hash n start life m cs b ts in
    let found =
      purge-found key id hash (n + turns key cs) start life (run m cs) v now (omega arith)
        (omega arith) in
    let long = t.3 refl in
    (
      rw found (ground (arith, v.seen, v.sticky, long)),
      rw (v.found, prefix_stable) (rw v.first),
      rw found (ground (arith, v.counted)),
    )
