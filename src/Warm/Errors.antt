-- ===== src/Warm/Errors.antt =====
-- The errors of the warm store, and how those of the session library become them.
use smart_gate.Base.{Text, codes, ℕ, ◌++◌}
use smart_gate.Context.Text.{to_decimal}
use smart_gate.Warm.Sessions.{
  SessionError, assembled_over, context_invalid, epoch_conflicts, epoch_mismatches, epoch_stale,
  expired, fingerprint_mismatch, not_found, prefix_over, tail_over, tail_start_off, unavailable,
}

pub data WarmError : Type 0 where
  invalid_context store_unavailable invalid_publish : Text → WarmError
  session_not_found session_expired prefix_too_large tail_too_large assembled_too_large : WarmError
  epoch_conflict stale_epoch epoch_mismatch prefix_hash_mismatch : WarmError
  tail_start_mismatch : (expected actual : ℕ) → WarmError
  virtual_model_mismatch virtual_model_unauthorized virtual_model_required : WarmError

unfoldable pub code : WarmError → Text
code (invalid_context m) = codes "INVALID_CONTEXT"
code session_not_found = codes "SESSION_NOT_FOUND"
code session_expired = codes "SESSION_EXPIRED"
code (store_unavailable m) = codes "PUBLISH_UNAVAILABLE"
code prefix_too_large = codes "PREFIX_TOO_LARGE"
code tail_too_large = codes "TAIL_TOO_LARGE"
code assembled_too_large = codes "ASSEMBLED_TOO_LARGE"
code epoch_conflict = codes "EPOCH_CONFLICT"
code stale_epoch = codes "STALE_EPOCH"
code epoch_mismatch = codes "EPOCH_MISMATCH"
code prefix_hash_mismatch = codes "PREFIX_HASH_MISMATCH"
code (tail_start_mismatch e a) = codes "TAIL_START_MISMATCH"
code virtual_model_mismatch = codes "VIRTUAL_MODEL_MISMATCH"
code virtual_model_unauthorized = codes "MODEL_NOT_AUTHORIZED"
code virtual_model_required = codes "VIRTUAL_MODEL_REQUIRED"
code (invalid_publish m) = codes "INVALID_CONTEXT"

unfoldable pub map_session_error : SessionError → WarmError
map_session_error expired = session_expired
map_session_error epoch_stale = stale_epoch
map_session_error epoch_conflicts = epoch_conflict
map_session_error epoch_mismatches = epoch_mismatch
map_session_error fingerprint_mismatch = prefix_hash_mismatch
map_session_error (tail_start_off expected actual) = tail_start_mismatch expected actual
map_session_error prefix_over = prefix_too_large
map_session_error tail_over = tail_too_large
map_session_error assembled_over = assembled_too_large
map_session_error (context_invalid message) = invalid_context message
map_session_error (unavailable message) = store_unavailable message
map_session_error not_found = session_not_found

-- `WarmError::message`
unfoldable pub message : WarmError → Text
unfolding to_decimal
message (invalid_context m) = m
message (invalid_publish m) = m
message session_not_found = codes "Zene session was not found"
message session_expired = codes "Zene session has expired"
message (store_unavailable m) = m
message prefix_too_large = codes "The published prefix is too large"
message tail_too_large = codes "The delta tail is too large"
message assembled_too_large = codes "The assembled request is too large"
message epoch_conflict = codes "The epoch already contains a different prefix"
message stale_epoch = codes "The publish epoch is older than the stored prefix"
message epoch_mismatch = codes "The request epoch does not match the stored prefix"
message prefix_hash_mismatch = codes "The prefix hash does not match the stored prefix"
message (tail_start_mismatch expected actual) =
    codes "tail_start must equal " ++ (to_decimal expected ++ (codes ", got " ++ to_decimal actual))
message virtual_model_mismatch = codes "The session is bound to a different Virtual Model"
message virtual_model_unauthorized = codes "The requested Virtual Model is not authorized"
message virtual_model_required = codes "virtual_model is required for Warm publish"
