-- ===== src/Proxy/Response.antt =====
-- Answers of the handlers, and those of a warm error. A status is its number; a header is written
-- over one of its name. `Stream` is the body of server-sent events.
use smart_gate.Base.{Text, Text-discrete, codes, some, ℕ, ◌==◌}
use smart_gate.Base.Map.{Map, empty, put}
use smart_gate.Context.Json.{Value, bool, end, field, obj, str}
use smart_gate.Warm.Errors.{
  WarmError, assembled_too_large, code, epoch_conflict, epoch_mismatch, invalid_context,
  invalid_publish, message, prefix_hash_mismatch, prefix_too_large, session_expired,
  session_not_found, stale_epoch, store_unavailable, tail_start_mismatch, tail_too_large,
  virtual_model_mismatch, virtual_model_required, virtual_model_unauthorized,
}

pub data Body (Stream : Type 0) : Type 0 where
  nothing : Body Stream
  plain : Text → Body Stream
  json : Value → Body Stream
  events : Stream → Body Stream

pub record Response (Stream : Type 0) : Type 0 where
  pub status : ℕ
  pub headers : Map Text Text
  pub body : Body Stream

module _ {Stream : Type 0} where
  -- `(status, text).into_response()`
  abbrev pub answer : ℕ → Text → Response Stream
  answer status text = record { status = status; headers = empty; body = plain text }

  unfoldable pub with_header : Text → Text → Response Stream → Response Stream
  with_header name value r = record r { headers = put Text-discrete r.headers name (some value) }

-- src/api/proxy.rs
unfoldable pub warm_status : WarmError → ℕ
warm_status (invalid_context m) = 400
warm_status (invalid_publish m) = 400
warm_status session_not_found = 404
warm_status session_expired = 404
warm_status (store_unavailable m) = 503
warm_status prefix_too_large = 413
warm_status tail_too_large = 413
warm_status assembled_too_large = 413
warm_status virtual_model_unauthorized = 403
warm_status virtual_model_required = 403
warm_status epoch_conflict = 409
warm_status stale_epoch = 409
warm_status epoch_mismatch = 409
warm_status prefix_hash_mismatch = 409
warm_status (tail_start_mismatch expected actual) = 409
warm_status virtual_model_mismatch = 409

-- src/api/warm.rs has the table again.
unfoldable pub status_for : WarmError → ℕ
status_for (invalid_context m) = 400
status_for (invalid_publish m) = 400
status_for session_not_found = 404
status_for session_expired = 404
status_for (store_unavailable m) = 503
status_for prefix_too_large = 413
status_for tail_too_large = 413
status_for assembled_too_large = 413
status_for virtual_model_unauthorized = 403
status_for virtual_model_required = 403
status_for epoch_conflict = 409
status_for stale_epoch = 409
status_for epoch_mismatch = 409
status_for prefix_hash_mismatch = 409
status_for (tail_start_mismatch expected actual) = 409
status_for virtual_model_mismatch = 409

unfoldable pub warm_error : {Stream : Type 0} → ℕ → WarmError → Response Stream
unfolding code message
warm_error status e =
    let detail = field (codes "code") (str (code e)) (
      field (codes "message") (str (message e))
        (field (codes "retryable") (bool (status == 503)) end)) in
    record {
      status = status;
      headers = empty;
      body = json (obj (field (codes "error") (obj detail) end));
    }
