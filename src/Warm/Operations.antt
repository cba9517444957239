-- ===== src/Warm/Operations.antt =====
-- The operations of `WarmStore`. `hash` is `fingerprint_messages`: a hash of the messages' JSON.
use smart_gate.Base.{
  Bool, List, Option, Text, [], codes, false, if◌then◌else◌, length, none, not, some, true, ℕ, ◌+◌,
  ◌∷◌,
}
use smart_gate.Base.Map.{put}
use smart_gate.Context.Json.{Value}
use smart_gate.Warm.Keys.{SessionKey, gateway_key}
use smart_gate.Warm.Sessions.{
  Fingerprint, Result, SessionError, SessionPrefix, SessionStore, err, expired, ok,
}
use smart_gate.Warm.Errors.{
  WarmError, map_session_error, prefix_hash_mismatch, session_not_found, virtual_model_mismatch,
}
use smart_gate.Warm.Store.{
  Act, Delivery, PrefixSnapshot, PublishInput, SessionKey-discrete, WarmMetrics, World, delta,
  first_error, full, lift, on_error, pure, reject, same_text, to_gateway_epoch, validate_publish,
  validate_virtual_model_id, ◌>>=◌, ◌>>◌,
}

abbrev pub hash_algorithm_version : Text
hash_algorithm_version = codes "v1"

abbrev pub flatten : Option (Option Text) → Option Text
flatten none = none
flatten (some o) = o

abbrev pub or_option : {A : Type 0} → Option A → Option A → Option A
or_option (some a) o = some a
or_option none o = o

-- Two names that are both given and differ.
abbrev pub clashes : Option Text → Option Text → Bool
clashes (some a) (some b) = not (same_text a b)
clashes none b = false
clashes (some a) none = false

unfoldable pub binding_for : {S : SessionStore} → SessionKey → World S → Option Text
binding_for key w = flatten (w.virtual_models key)

unfoldable pub bind_model : {S : SessionStore} → SessionKey → Option Text → World S → World S
bind_model key none w = w
bind_model key (some m) w = record w {
  virtual_models = put SessionKey-discrete w.virtual_models key (some (some m));
}

unfoldable pub remove_binding : {S : SessionStore} → SessionKey → World S → World S
remove_binding key w = record w {
  virtual_models = put SessionKey-discrete w.virtual_models key none;
}

abbrev pub count : {S : SessionStore} → (WarmMetrics → WarmMetrics) → World S → World S
count f w = record w { metrics = f w.metrics }

abbrev pub and_then : {S : SessionStore} → (World S → World S) → Act S Unit
and_then f w = (ok tt, f w)

unfoldable pub record_publish_failure : {S : SessionStore} → World S → World S
record_publish_failure w = count (λ m. record m { publish_failures = m.publish_failures + 1 }) w

unfoldable pub record_delta_attempt : {S : SessionStore} → Delivery → World S → World S
record_delta_attempt full w = count (λ m. record m { full_deliveries = m.full_deliveries + 1 }) w
record_delta_attempt delta w = count (λ m. record m { delta_attempts = m.delta_attempts + 1 }) w

unfoldable pub record_delta_result : {S : SessionStore} → Bool → World S → World S
record_delta_result true w = count (λ m. record m { delta_successes = m.delta_successes + 1 }) w
record_delta_result false w = count (λ m. record m { delta_failures = m.delta_failures + 1 }) w

unfoldable pub validate_virtual_model : {S : SessionStore} → SessionKey → Option Text → Act S Unit
unfolding binding_for
validate_virtual_model key requested w =
    if clashes (binding_for key w) requested
    then (
      err virtual_model_mismatch,
      count (λ m. record m { virtual_model_mismatches = m.virtual_model_mismatches + 1 }) w,
    )
    else (ok tt, w)

abbrev pub hash_or : (List Value → Text) → SessionPrefix → Option Fingerprint → Text
hash_or hash p none = hash p.messages
hash_or hash p (some f) = f.value

abbrev pub number_or : ℕ → Option ℕ → ℕ
number_or d none = d
number_or d (some n) = n

abbrev pub is_expired : SessionError → Bool
is_expired expired = true
is_expired _ = false

module _ (S : SessionStore) (hash : List Value → Text) where
  unfoldable pub to_snapshot : SessionPrefix → Option Text → PrefixSnapshot
  to_snapshot p virtual_model_id = record {
    epoch = p.epoch;
    prefix_hash = hash_or hash p p.fingerprint;
    message_count = number_or (length p.messages) p.message_count;
    messages = p.messages;
    pinned_boundary = number_or 0 p.pinned_boundary;
    virtual_model_id = virtual_model_id;
  }

  abbrev pub key_of : SessionKey → S.Key
  key_of key = gateway_key S.new_key key

  -- One call of the library's store.
  abbrev pub get_key : SessionKey → World S → Result SessionError (Option SessionPrefix) × World S
  get_key key w = let (r, s) = S.get_key w.sessions (key_of key) in (r, record w { sessions = s })

  abbrev pub existing_found :
      SessionKey → Result SessionError (Option SessionPrefix) → Act S (Option SessionPrefix)
  existing_found key (ok p) w = (ok p, w)
  existing_found key (err e) w =
      if is_expired e then (ok none, remove_binding key w) else (err (map_session_error e), w)

  -- The stored prefix before a publication; an expired session loses its binding.
  abbrev pub existing_prefix : SessionKey → Act S (Option SessionPrefix)
  existing_prefix key w = existing_found key (get_key key w).0 (get_key key w).1

  abbrev pub publish_key : SessionKey → SessionPrefix → Act S Unit
  publish_key key p w =
      let (r, s) = S.publish_key w.sessions (key_of key) p in
      (on_error r, record w { sessions = s })

  abbrev pub stored_found :
      Option SessionPrefix → Result SessionError (Option SessionPrefix) → Act S SessionPrefix
  stored_found existing (err e) w = (err (map_session_error e), w)
  stored_found existing (ok (some p)) w = (ok p, w)
  stored_found (some p) (ok none) w = (ok p, w)
  stored_found none (ok none) w = (err session_not_found, w)

  abbrev pub stored_prefix : SessionKey → Option SessionPrefix → Act S SessionPrefix
  stored_prefix key existing w = stored_found existing (get_key key w).0 (get_key key w).1

  abbrev pub check_model_id : Option Text → Option WarmError
  check_model_id none = none
  check_model_id (some m) = validate_virtual_model_id m

  abbrev pub check_hash : Text → Option Text → Option WarmError
  check_hash computed none = none
  check_hash computed (some client) =
      if same_text client computed then none else some prefix_hash_mismatch

  abbrev pub check_binding : Option Text → Option Text → Option WarmError
  check_binding existing incoming =
      if clashes existing incoming then some virtual_model_mismatch else none

  abbrev pub check_size : List Value → Option WarmError
  check_size messages = elim (S.validate_prefix messages) [
    | none ↦ none
    | some e ↦ some (map_session_error e)
  ]

  abbrev pub prefix_of : PublishInput → ℕ → SessionPrefix
  prefix_of input epoch = record {
    epoch = epoch;
    messages = input.messages;
    pinned_boundary = some input.pinned_boundary;
    fingerprint = some (record { algorithm = hash_algorithm_version; value = hash input.messages });
    message_count = some input.message_count;
  }

  -- The part of a publication that writes.
  unfoldable pub commit :
      SessionKey
      → PublishInput
      → (existing_binding : Option Text) → (existing : Option SessionPrefix) → (epoch : ℕ)
      → Act S PrefixSnapshot
  unfolding to_snapshot bind_model
  commit key input existing_binding existing epoch = do
    publish_key key (prefix_of input epoch)
    and_then (bind_model key (or_option input.virtual_model_id existing_binding))
    stored ← stored_prefix key existing
    and_then (count (λ m. record m { publish_successes = m.publish_successes + 1 }))
    pure (to_snapshot stored (or_option input.virtual_model_id existing_binding))

  abbrev pub publish_checks : PublishInput → List (Option WarmError)
  publish_checks input =
      validate_publish input
      ∷ check_model_id input.virtual_model_id
      ∷ check_hash (hash input.messages) input.prefix_hash
      ∷ []

  unfoldable pub publish : SessionKey → PublishInput → Act S PrefixSnapshot
  unfolding commit validate_publish
  publish key input = do
    and_then (count (λ m. record m { publish_attempts = m.publish_attempts + 1 }))
    reject (first_error (publish_checks input))
    existing_binding ← λ w. (ok (binding_for key w), w)
    reject (check_binding existing_binding input.virtual_model_id)
    existing ← existing_prefix key
    epoch ← lift (to_gateway_epoch input.epoch)
    reject (check_size input.messages)
    commit key input existing_binding existing epoch
