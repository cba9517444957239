-- ===== src/Warm/Gateway.antt =====
-- What is handed on of a warm context: it is taken off the request, and a delta is written into the
-- field that the gateway reads.
use smart_gate.Base.{Option, Text, Text-discrete, codes, ite, none, some, ℕ}
use smart_gate.Base.Int.{negsuc, pos, ℤ}
use smart_gate.Context.Json.{
  Fields, Value, arr, bool, end, field, null, number, obj, set_field, str, uint,
}
use smart_gate.Warm.Sessions.{Result, err, ok}
use smart_gate.Warm.Errors.{WarmError, invalid_context}
use smart_gate.Warm.Store.{WarmContext, delta, full}

-- `object.remove` of a key.
unfoldable pub without_field : Text → Fields → Fields
without_field k end = end
without_field k (field j v fs) =
    let rest = without_field k fs in ite (Text-discrete j k) rest (field j v rest)

unfoldable pub strip_context : Value → Value
unfolding without_field
strip_context (obj fs) = obj (without_field (codes "_zene_context") fs)
strip_context null = null
strip_context (bool b) = bool b
strip_context (uint n) = uint n
strip_context (number t) = number t
strip_context (str t) = str t
strip_context (arr xs) = arr xs

-- What is written into the field that the gateway reads.
unfoldable pub delta_field : Text → ℕ → WarmContext → Value
delta_field session_id epoch context =
    let base =
      field (codes "session_id") (str session_id)
        (field (codes "epoch") (uint epoch) (field (codes "delivery") (str (codes "delta")) end)) in
    let hashed = elim (context.prefix_hash) as (λ _. Fields) [
      | none ↦ base
      | some h ↦ set_field (codes "prefix_hash") (str h) base
    ] in
    elim (context.tail_start) [
      | none ↦ obj hashed
      | some n ↦ obj (set_field (codes "tail_start") (uint n) hashed)
    ]

abbrev pub install_delta :
    Text → WarmContext → Fields → Option Text → Option ℤ → Result WarmError Unit × Fields
install_delta name context fields none epoch =
    (err (invalid_context (codes "delta delivery requires session_id")), fields)
install_delta name context fields (some s) none =
    (err (invalid_context (codes "delta delivery requires context_epoch")), fields)
install_delta name context fields (some s) (some (negsuc n)) =
    (err (invalid_context (codes "context_epoch must be non-negative")), fields)
install_delta name context fields (some s) (some (pos n)) =
    (ok tt, set_field name (delta_field s n context) fields)

-- `gateway_field` is the name that the session library gives its field.
unfoldable pub install_session_gateway_context :
    (gateway_field : Text) → Fields → Option WarmContext → Result WarmError Unit × Fields
unfolding without_field delta_field
install_session_gateway_context name fields none =
    (ok tt, without_field name (without_field (codes "_zene_context") fields))
install_session_gateway_context name fields (some c) =
    let bare = without_field (codes "_zene_context") fields in
    elim (c.delivery) as (λ _. Result WarmError Unit × Fields) [
      | full ↦ (ok tt, without_field name bare)
      | delta ↦ install_delta name c bare c.session_id c.epoch
    ]
