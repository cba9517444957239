-- ===== src/Warm/Reads.antt =====
-- The operations of `WarmStore` that read, assemble and clean up.
use smart_gate.Base.{
  Bool, List, Option, Text, [], codes, false, if◌then◌else◌, leb, length, none, some, ℕ, ◌++◌, ◌+◌,
  ◌==◌, ◌^◌, ◌∷◌,
}
use smart_gate.Base.Int.{negsuc, pos, ℤ}
use smart_gate.Context.Json.{Value}
use smart_gate.Warm.Keys.{SessionKey}
use smart_gate.Warm.Sessions.{
  Fingerprint, Result, SessionError, SessionPrefix, SessionStore, err, ok,
}
use smart_gate.Warm.Errors.{
  WarmError, epoch_mismatch, invalid_context, map_session_error, prefix_hash_mismatch,
  session_expired, session_not_found, tail_start_mismatch,
}
use smart_gate.Warm.Store.{
  Act, PrefixSnapshot, WarmContext, World, first_error, pure, reject, ◌>>=◌, ◌>>◌,
}
use smart_gate.Warm.Operations.{
  binding_for, count, get_key, is_expired, key_of, number_or, remove_binding, to_snapshot,
  validate_virtual_model,
}

-- `context.epoch != Some(expected_epoch)`, where the stored epoch must fit an `i64`.
abbrev pub same_epoch : Option ℤ → ℕ → Bool
same_epoch (some (pos n)) stored = n == stored
same_epoch (some (negsuc n)) stored = false
same_epoch none stored = false

abbrev pub tail_at : ℕ → Option ℕ → Option WarmError
tail_at expected none = some (invalid_context (codes "delta delivery requires tail_start"))
tail_at expected (some actual) =
    if actual == expected then none else some (tail_start_mismatch expected actual)

module _ (S : SessionStore) (hash : List Value → Text) where
  abbrev pub fits : Option SessionError → Option WarmError
  fits none = none
  fits (some e) = some (map_session_error e)

  abbrev pub print_matches : Option Fingerprint → Option Text → Option WarmError
  print_matches stored none = none
  print_matches none (some request) = some prefix_hash_mismatch
  print_matches (some f) (some request) =
      if S.fingerprints_match f (record { algorithm = []; value = request })
      then none
      else some prefix_hash_mismatch

  -- The checks of a delta against the stored prefix.
  abbrev pub delta_checks : SessionPrefix → WarmContext → List Value → List (Option WarmError)
  delta_checks p context tail =
      (if leb (2 ^ 63) p.epoch
        then some (invalid_context (codes "stored epoch is too large"))
        else none)
      ∷ (if same_epoch context.epoch p.epoch then none else some epoch_mismatch)
      ∷ print_matches p.fingerprint context.prefix_hash
      ∷ tail_at (number_or (length p.messages) p.message_count) context.tail_start
      ∷ fits (S.validate_tail tail)
      ∷ fits (S.validate_assembled (p.messages ++ tail))
      ∷ []

  unfoldable pub delta_error : SessionPrefix → WarmContext → List Value → Option WarmError
  delta_error p context tail = first_error (delta_checks p context tail)

  abbrev pub delta_found :
      SessionKey → Result SessionError (Option SessionPrefix) → Act S SessionPrefix
  delta_found key (ok none) w = (err session_not_found, w)
  delta_found key (ok (some p)) w = (ok p, w)
  delta_found key (err e) w =
      if is_expired e
      then (err session_expired, remove_binding key w)
      else (err (map_session_error e), w)

  abbrev pub delta_prefix : SessionKey → Act S SessionPrefix
  delta_prefix key w = delta_found key (get_key S hash key w).0 (get_key S hash key w).1

  unfoldable pub assemble_delta :
      SessionKey → WarmContext → List Value → Option Text → Act S (List Value)
  unfolding delta_error validate_virtual_model
  assemble_delta key context tail virtual_model_id = do
    snapshot ← delta_prefix key
    validate_virtual_model key virtual_model_id
    reject (delta_error snapshot context tail)
    pure (snapshot.messages ++ tail)

  abbrev pub get_found :
      SessionKey
      → Result SessionError (Option SessionPrefix)
      → World S
      → Option PrefixSnapshot × World S
  get_found key (ok none) w = (none, remove_binding key w)
  get_found key (ok (some p)) w = (some (to_snapshot S hash p (binding_for key w)), w)
  get_found key (err e) w = (none, if is_expired e then remove_binding key w else w)

  unfoldable pub get : SessionKey → World S → Option PrefixSnapshot × World S
  unfolding to_snapshot binding_for remove_binding
  get key w = get_found key (get_key S hash key w).0 (get_key S hash key w).1

  unfoldable pub delete : SessionKey → World S → World S
  unfolding remove_binding
  delete key w =
      remove_binding key (record w { sessions = S.delete_key w.sessions (key_of S hash key) })

  -- The keys whose session is gone, and the world after the reads.
  unfoldable pub gone : List SessionKey → World S → List SessionKey × World S
  unfolding get
  gone [] w = ([], w)
  gone (k ∷ ks) w =
      let (found, w') = get k w in
      let (rest, w'') = gone ks w' in
      elim found as (λ _. List SessionKey × World S) [
        | none ↦ (k ∷ rest, w'')
        | some p ↦ (rest, w'')
      ]

  unfoldable pub remove_all : List SessionKey → World S → World S
  unfolding remove_binding
  remove_all [] w = w
  remove_all (k ∷ ks) w = remove_all ks (remove_binding k w)

  -- `keys` are those of the map of bindings, in its order.
  unfoldable pub purge_expired : List SessionKey → Act S ℕ
  unfolding gone remove_all
  purge_expired keys w =
      let w1 = count (λ m. record m { cleanup_runs = m.cleanup_runs + 1 }) w in
      let (r, s) = S.purge_expired w1.sessions in
      let w2 = record w1 { sessions = s } in
      elim r as (λ _. Result WarmError ℕ × World S) [
        | err e ↦ (
          err (map_session_error e),
          count (λ m. record m { cleanup_failures = m.cleanup_failures + 1 }) w2,
        )
        | ok removed ↦
            let (expired_keys, w3) = gone keys w2 in (ok removed, remove_all expired_keys w3)
      ]
