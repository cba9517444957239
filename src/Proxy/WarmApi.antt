-- ===== src/Proxy/WarmApi.antt =====
-- src/api/warm.rs: the handlers of the warm store. `hash` is that of the messages, and
-- `require_virtual_model` a setting.
use smart_gate.Base.{Bool, List, Option, Text, codes, if◌then◌else◌, ltb, none, some, true, ℕ, ◌||◌}
use smart_gate.Base.Int.{ℤ}
use smart_gate.Base.Map.{empty}
use smart_gate.Auth.Models.{VirtualModel, resolve_authorized_virtual_model}
use smart_gate.Context.Json.{Value, bool, end, field, obj, str, uint}
use smart_gate.Context.Text.{is_empty, len, trim}
use smart_gate.Warm.Errors.{
  WarmError, invalid_context, store_unavailable, virtual_model_required, virtual_model_unauthorized,
}
use smart_gate.Warm.Operations.{hash_algorithm_version, publish, record_publish_failure}
use smart_gate.Warm.Reads.{delete}
use smart_gate.Warm.Sessions.{Result, SessionStore, err, ok}
use smart_gate.Warm.Store.{PrefixSnapshot, PublishInput, World}
use smart_gate.Proxy.Response.{Response, json, nothing, status_for, warm_error}
use smart_gate.Proxy.Dispatch.{key_with}
use smart_gate.Proxy.State.{Caller, Tables}

pub record PublishRequest : Type 0 where
  pub epoch : ℤ
  pub message_count : ℕ
  pub messages : List Value
  pub pinned_boundary : ℕ
  pub prefix_hash : Option Text
  pub virtual_model : Option Text

-- An answer of its own, and not that of a publication: none is attempted.
abbrev pub Checked : Type 0 → Type 0 → Type 0
Checked Stream A = Result (Response Stream) A

abbrev pub input_of : PublishRequest → Option Text → PublishInput
input_of r virtual_model_id = record {
  epoch = r.epoch;
  message_count = r.message_count;
  messages = r.messages;
  pinned_boundary = r.pinned_boundary;
  prefix_hash = r.prefix_hash;
  virtual_model_id = virtual_model_id;
}

module _ {Stream : Type 0} where
  abbrev pub both :
      Checked Stream Unit → Checked Stream (Option Text) → Checked Stream (Option Text)
  both (err r) next = err r
  both (ok u) next = next

  unfoldable pub check_session_id : Text → Checked Stream Unit
  unfolding len warm_error
  check_session_id session_id =
      if is_empty session_id || ltb 256 (len session_id)
      then err (
          warm_error 400
            (invalid_context (codes "session_id must be between 1 and 256 characters")))
      else ok tt

  abbrev model_found : Option (Option VirtualModel) → Checked Stream (Option Text)
  model_found none =
      err (warm_error 500 (store_unavailable (codes "failed to authorize Virtual Model")))
  model_found (some none) = err (warm_error 403 virtual_model_unauthorized)
  model_found (some (some vm)) = ok (some vm.id)

  unfoldable pub requested_virtual_model :
      {F : Type 0}
      → Tables F
      → Caller F
      → (require_virtual_model : Bool) → Option Text
      → Checked Stream (Option Text)
  unfolding len trim warm_error resolve_authorized_virtual_model
  requested_virtual_model t c require none =
      if require then err (warm_error 403 virtual_model_required) else ok none
  requested_virtual_model t c require (some model) =
      if is_empty (trim model) || ltb 256 (len model)
      then err (warm_error 400 (invalid_context (codes "virtual_model must be 1-256 characters")))
      else model_found (
          resolve_authorized_virtual_model t.id_before t.taken_before t.exact_fails t.default_fails
            t.database model c.project_id c.key_id)

  abbrev published : PrefixSnapshot → Response Stream
  published snapshot =
      let fields = field (codes "ok") (bool true) (
        field (codes "epoch") (uint snapshot.epoch) (
          field (codes "message_count") (uint snapshot.message_count) (
            field (codes "prefix_hash") (str snapshot.prefix_hash)
              (field (codes "hash_algorithm_version") (str hash_algorithm_version) end)))) in
      record { status = 200; headers = empty; body = json (obj fields) }

  module _ {S : SessionStore} where
    -- A failure is counted where the answer is made.
    unfoldable pub answered : Result WarmError PrefixSnapshot × World S → Response Stream × World S
    unfolding warm_error status_for record_publish_failure
    answered (ok snapshot, w) = (published snapshot, w)
    answered (err e, w) = (warm_error (status_for e) e, record_publish_failure w)

module _ {F Stream : Type 0} {S : SessionStore} (hash : List Value → Text) (t : Tables F)
    (c : Caller F) where
  abbrev pub publish_checked :
      Text → PublishRequest → Checked Stream (Option Text) → World S → Response Stream × World S
  publish_checked session_id r (err r') w = (r', w)
  publish_checked session_id r (ok vm) w =
      answered (publish S hash (key_with c session_id) (input_of r vm) w)

  unfoldable pub publish_session :
      (require_virtual_model : Bool) (session_id : Text)
      → PublishRequest
      → World S
      → Response Stream × World S
  unfolding check_session_id requested_virtual_model answered publish
  publish_session require session_id r =
      publish_checked session_id r
        (both (check_session_id session_id) (requested_virtual_model t c require r.virtual_model))

  unfoldable pub delete_session : (session_id : Text) → World S → Response Stream × World S
  unfolding delete
  delete_session session_id w = (
    record { status = 204; headers = empty; body = nothing },
    delete S hash (key_with c session_id) w,
  )
