-- ===== src/Warm/Sessions.antt =====
-- What src/warm/mod.rs uses of the session library: its errors, prefixes and store.
use smart_gate.Base.{Bool, List, Option, Text, some, ℕ, ◌≡◌}
use smart_gate.Context.Json.{Value}

pub data SessionError : Type 0 where
  expired not_found epoch_conflicts epoch_mismatches epoch_stale : SessionError
  fingerprint_mismatch prefix_over tail_over assembled_over : SessionError
  tail_start_off : (expected actual : ℕ) → SessionError
  context_invalid unavailable : Text → SessionError

pub record Fingerprint : Type 0 where
  pub algorithm : Text
  pub value : Text

pub record SessionPrefix : Type 0 where
  pub epoch : ℕ
  pub messages : List Value
  pub pinned_boundary : Option ℕ
  pub fingerprint : Option Fingerprint
  pub message_count : Option ℕ

-- `Result`: a value or an error.
pub data Result (E A : Type 0) : Type 0 where
  ok : A → Result E A
  err : E → Result E A

-- The store, its size limits and its comparison of fingerprints. A read may move the end of a
-- session, so every operation returns the state.
pub record SessionStore : Type 1 where
  pub State : Type 0
  pub Key : Type 0
  pub new_key : Text → Text → Key
  pub get_key : State → Key → Result SessionError (Option SessionPrefix) × State
  pub publish_key : State → Key → SessionPrefix → Result SessionError Unit × State
  pub delete_key : State → Key → State
  pub purge_expired : State → Result SessionError ℕ × State
  pub validate_prefix : List Value → Option SessionError
  pub validate_tail : List Value → Option SessionError
  pub validate_assembled : List Value → Option SessionError
  pub fingerprints_match : Fingerprint → Fingerprint → Bool

-- A store without lifetimes: a published prefix is read back, and a read changes no answer.
pub record IsLawful (S : SessionStore) : Type 0 where
  pub get-publish :
      (s : S.State) (k : S.Key) (p : SessionPrefix)
      → (S.publish_key s k p).0 ≡ ok tt
      → (S.get_key (S.publish_key s k p).1 k).0 ≡ ok (some p)
  pub get-get : (s : S.State) (k : S.Key) → (S.get_key (S.get_key s k).1 k).0 ≡ (S.get_key s k).0
