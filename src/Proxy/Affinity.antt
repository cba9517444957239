-- ===== src/Proxy/Affinity.antt =====
-- src/api/proxy.rs: the session of a request, and the hint for its route.
use smart_gate.Base.{
  Bool, List, Option, Text, Text-discrete, false, length, ltb, map_option, none, some, true, ℕ, ◌%◌,
  ◌&&◌, ◌^◌,
}
use smart_gate.Base.Headers.{Headers}
use smart_gate.Base.Int.{negsuc, pos, ℤ}
use smart_gate.Base.Map.{Map, or_else, put}
use smart_gate.Context.Json.{Items, Value}
use smart_gate.Auth.Models.{VirtualModel}
use smart_gate.Routing.Candidate.{Provider, RouteHint}
use smart_gate.Session.Ids.{and_then, extract_context_epoch, extract_session_id, or_option}
use smart_gate.Session.Hash.{from_str_radix16, resolve_prefix_hash, trim_0x}
use smart_gate.Session.Store.{
  Sessions, get_sticky_endpoint, next_turn_index, prefix_stable, session_key,
}
use smart_gate.Warm.Sessions.{SessionStore}
use smart_gate.Warm.Store.{WarmContext}
use smart_gate.Proxy.State.{AppState, Clock, ModelPool}

pub record WarmAffinity : Type 0 where
  pub session_id : Option Text
  pub context_epoch : ℕ
  pub prefix_hash : Option ℕ
  pub affinity_ttl_secs : ℤ
  pub member_count : ℕ
  pub affinity_enabled : Bool
  pub sticky_endpoint_id : Option Text
  pub affinity_applied : Bool
  pub turn_index : Option ℕ
  pub is_prefix_stable : Option Bool

abbrev is_some : {A : Type 0} → Option A → Bool
is_some none = false
is_some (some a) = true

-- `e.max(0) as u32`
unfoldable pub epoch_u32 : ℤ → ℕ
epoch_u32 (pos n) = n % 2 ^ 32
epoch_u32 (negsuc n) = 0

abbrev warm_prefix_hash : WarmContext → Option ℕ
warm_prefix_hash context = and_then context.prefix_hash (λ h. from_str_radix16 (trim_0x h))

-- What follows once the session is known: the three reads of its entry.
unfoldable pub with_session :
    Sessions
    → Option Text
    → (pool_id : Text) (epoch : ℕ) (prefix_hash : Option ℕ) (ttl_secs : ℤ) → Clock
    → Option Text × Option ℕ × Option Bool × Sessions
unfolding get_sticky_endpoint next_turn_index prefix_stable
with_session m none pool epoch hash ttl c = (none, none, none, m)
with_session m (some sid) pool epoch hash ttl c =
    let key = session_key pool sid epoch in
    let (m1, sticky) = get_sticky_endpoint m key ttl c.sticky c.sticky_later in
    let (m2, turn) = next_turn_index m1 key hash ttl c.turn c.turn_later in
    (sticky, some turn, prefix_stable m2 key hash, m2)

abbrev pub session_of : Headers → Value → Option WarmContext → Option Text
session_of headers payload warm =
    or_option (and_then warm (λ c. c.session_id)) (extract_session_id headers payload)

abbrev pub epoch_of : Headers → Value → Option WarmContext → ℕ
epoch_of headers payload warm =
    or_else (map_option epoch_u32 (and_then warm (λ c. c.epoch)))
      (extract_context_epoch headers payload)

abbrev hash_or_given : Option ℕ → Option (Option ℕ) → Option (Option ℕ)
hash_or_given (some h) given = some (some h)
hash_or_given none given = given

module _ {F : Type 0} where
  abbrev members_of : Provider F → Text → ℕ
  members_of p pool_id = or_else (map_option length (p.pool_members pool_id)) 0

  abbrev pool_ttl : Option (ModelPool F) → ℤ
  pool_ttl pool = or_else (map_option (λ p. p.session_affinity_ttl_secs) pool) (pos 3600)

  abbrev pool_affinity : Option (ModelPool F) → Bool
  pool_affinity pool = or_else (map_option (λ p. p.session_affinity_enabled) pool) false

module _ {F : Type 0} {S : SessionStore} where
  abbrev pub affinity_with :
      VirtualModel
      → Option (ModelPool F)
      → Clock
      → Option Text
      → ℕ
      → AppState F S
      → Option ℕ
      → WarmAffinity × AppState F S
  affinity_with vm pool c sid epoch s hash =
      let count = members_of s.routing vm.pool_id in
      let enabled = pool_affinity pool && is_some sid && ltb 1 count in
      let (sticky, turn, stable, m) =
        with_session s.sessions sid vm.pool_id epoch hash (pool_ttl pool) c in
      (
        record {
          session_id = sid;
          context_epoch = epoch;
          prefix_hash = hash;
          affinity_ttl_secs = pool_ttl pool;
          member_count = count;
          affinity_enabled = enabled;
          sticky_endpoint_id = sticky;
          affinity_applied = enabled && is_some sticky;
          turn_index = turn;
          is_prefix_stable = stable;
        },
        record s { sessions = m },
      )

module _ {F : Type 0} {S : SessionStore} (to_bytes : Items → Option (List ℕ)) where
  -- `none` is a panic, where the given hash of a prefix is cut inside a character.
  unfoldable pub derive_warm_affinity :
      Headers
      → Value
      → VirtualModel
      → Option (ModelPool F)
      → Option WarmContext
      → Clock
      → AppState F S
      → Option (WarmAffinity × AppState F S)
  unfolding extract_session_id extract_context_epoch resolve_prefix_hash from_str_radix16 trim_0x
      epoch_u32 with_session
  derive_warm_affinity headers payload vm pool warm c s =
      map_option
        (affinity_with vm pool c (session_of headers payload warm) (epoch_of headers payload warm)
          s)
        (hash_or_given (and_then warm warm_prefix_hash)
          (resolve_prefix_hash to_bytes headers payload))

module _ {F : Type 0} where
  abbrev under : RouteHint F → Text → Map Text (RouteHint F) → Map Text (RouteHint F)
  under hint name hints = put Text-discrete hints name (some hint)

module _ {F : Type 0} {S : SessionStore} where
  -- The hint is found under the pool and under every name of the model.
  unfoldable pub install_hints :
      VirtualModel → (requested_model : Text) → RouteHint F → AppState F S → AppState F S
  unfolding put
  install_hints vm asked hint s = record s {
    routing = record s.routing {
      hints =
          under hint asked
            (under hint vm.name (under hint vm.id (under hint vm.pool_id s.routing.hints)));
    };
  }
