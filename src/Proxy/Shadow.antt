-- ===== src/Proxy/Shadow.antt =====
-- src/api/proxy.rs and shadow.rs: the sampling of answers for a shadow model, and one shadow request.
use smart_gate.Base.{
  Bool, Option, Text, [], codes, false, if◌then◌else◌, ltb, none, some, true, ℕ, ◌%◌, ◌&&◌, ◌+◌,
  ◌-◌, ◌==◌, ◌∷◌,
}
use smart_gate.Base.Headers.{Headers, insert}
use smart_gate.Base.Map.{Map, put}
use smart_gate.Float.{Float, clamp, whole}
use smart_gate.Auth.Models.{VirtualModel, resolve_authorized_virtual_model}
use smart_gate.Context.Json.{Value, set, str}
use smart_gate.Session.Ids.{and_then}
use smart_gate.Warm.Gateway.{strip_context}
use smart_gate.Warm.Request.{parse_context_with_headers}
use smart_gate.Warm.Sessions.{Result, SessionStore, err, ok}
use smart_gate.Warm.Errors.{WarmError, message}
use smart_gate.Warm.Store.{WarmContext, delta, full}
use smart_gate.Proxy.Response.{Body, events, json, nothing, plain}
use smart_gate.Proxy.State.{
  AppState, Caller, ChatProtocol, DataPlane, Dispatched, HostOutcome, ModelPool, ProxyRequest,
  ShadowJob, Tables, anthropic, open_ai, response,
}
use smart_gate.Proxy.Finished.{absorb}
use smart_gate.Proxy.Preview.{extract_json_preview, jaccard_similarity}

module _ {F : Type 0} ⦃f : Float F⦄ where
  -- `(rate.clamp(0.0, 1.0) * 1_000_000.0) as u128`
  unfoldable pub sample_threshold : F → ℕ
  sample_threshold rate = f.to_u32 (f.mul (clamp rate (whole 0) (whole 1)) (whole 1_000_000))

  unfoldable pub sampled : F → (draw : ℕ) → Bool
  unfolding sample_threshold
  sampled rate draw = ltb (draw % 1_000_000) (sample_threshold rate)

  abbrev sampled_model : ModelPool F → ℕ → Option Text
  sampled_model pool draw =
      if pool.shadow_enabled && sampled pool.shadow_sample_rate draw
      then pool.shadow_virtual_model_id
      else none

  -- The shadow model of a sampled answer; a stream is never sampled.
  unfoldable pub shadow_model :
      {Stream : Type 0} → Option (ModelPool F) → Body Stream → (draw : ℕ) → Option Text
  unfolding sampled
  shadow_model pool (json value) draw = and_then pool (λ p. sampled_model p draw)
  shadow_model pool (events stream) draw = none
  shadow_model pool (plain text) draw = none
  shadow_model pool nothing draw = none

abbrev preview_of : {Stream : Type 0} → Body Stream → Text
preview_of (json value) = extract_json_preview value
preview_of (events stream) = []
preview_of (plain text) = []
preview_of nothing = []

module _ {F : Type 0} where
  abbrev shadow_job :
      {Stream : Type 0}
      → Caller F
      → Headers
      → Value
      → (request_preview : Text) → ChatProtocol
      → Body Stream
      → Text
      → ShadowJob F
  shadow_job c headers payload preview protocol body name = record {
    auth = c;
    headers = headers;
    payload = payload;
    shadow_model_name = name;
    request_preview = preview;
    main_preview = preview_of body;
    is_openai = elim protocol [ open_ai ↦ true | anthropic ↦ false ];
  }

module _ {F : Type 0} {S : SessionStore} where
  -- A job starts if the semaphore has a permit.
  unfoldable pub spawn_shadow : ShadowJob F → AppState F S → AppState F S
  spawn_shadow job s =
      if s.shadow_permits == 0
      then record s { shadow_dropped = s.shadow_dropped + 1 }
      else record s { shadow_permits = s.shadow_permits - 1; shadow_jobs = job ∷ s.shadow_jobs }

  unfoldable pub maybe_spawn_shadow :
      {Stream : Type 0} ⦃f : Float F⦄
      → Option (ModelPool F)
      → Body Stream
      → (draw : ℕ) → Caller F
      → Headers
      → Value
      → (request_preview : Text) → ChatProtocol
      → AppState F S
      → AppState F S
  unfolding spawn_shadow shadow_model extract_json_preview
  maybe_spawn_shadow pool body draw c headers payload preview protocol s =
      elim (shadow_model pool body draw) as (λ _. AppState F S) [
        | none ↦ s
        | some name ↦ spawn_shadow (shadow_job c headers payload preview protocol body name) s
      ]

-- A snapshot is sent without its context, as is a full one in chat.
abbrev without_warm : Result WarmError (Option WarmContext) → Value → Value
without_warm (err e) payload = payload
without_warm (ok none) payload = payload
without_warm (ok (some context)) payload = elim (context.delivery) [
  | full ↦ strip_context payload
  | delta ↦ payload
]

-- The payload that is mirrored, with the shadow model's name.
unfoldable pub shadow_payload : {F : Type 0} → ShadowJob F → Value
unfolding parse_context_with_headers strip_context set
shadow_payload job =
    set (codes "model") (str job.shadow_model_name)
      (without_warm (parse_context_with_headers job.payload (some job.headers)) job.payload)

unfoldable pub shadow_metadata :
    {F : Type 0} → Caller F → VirtualModel → Map Text Text → Map Text Text
unfolding put
shadow_metadata c vm m = insert (codes "routing_strategy") (codes "round_robin") (
    insert (codes "pool_id") vm.pool_id (
      insert (codes "virtual_model_id") vm.id (
        insert (codes "key_id") c.key_id
          (insert (codes "project_id") c.project_id (insert (codes "org_id") c.org_id m)))))

-- The row of `shadow_evaluations`, but for ids and times.
pub record ShadowResult (F : Type 0) : Type 0 where
  pub virtual_model_id : Text
  pub status_code : ℕ
  pub request_preview : Text
  pub response_preview : Text
  pub similarity_score : F
  pub agreement : Bool

module _ {F : Type 0} ⦃f : Float F⦄ {S : SessionStore} (dp : DataPlane F S)
    (registry_version : Text) (lowercase : Text → Text) (t : Tables F) where
  abbrev shadow_preview : Body dp.Stream → Text
  shadow_preview (json value) = extract_json_preview value
  shadow_preview (events stream) = codes "[stream]"
  shadow_preview (plain text) = []
  shadow_preview nothing = []

  abbrev result_of : ShadowJob F → VirtualModel → ℕ → Text → ShadowResult F
  result_of job vm status preview =
      let similarity = jaccard_similarity lowercase job.main_preview preview in
      record {
        virtual_model_id = vm.id;
        status_code = status;
        request_preview = job.request_preview;
        response_preview = preview;
        similarity_score = similarity;
        agreement = f.lt (f.decimal 3 1) similarity;
      }

  abbrev evaluated : ShadowJob F → VirtualModel → HostOutcome dp.Stream → Option (ShadowResult F)
  evaluated job vm (response status body) = some (result_of job vm status (shadow_preview body))
  evaluated job vm _ = none

  abbrev Ran : Type 0
  Ran = Option (ShadowResult F) × AppState F S

  abbrev finished_by :
      ShadowJob F → VirtualModel → Dispatched F S (HostOutcome dp.Stream) → AppState F S → Ran
  finished_by job vm d s = (evaluated job vm d.outcome, absorb registry_version d s.warm s)

  abbrev pub protocol_of : ShadowJob F → ChatProtocol
  protocol_of job = if job.is_openai then open_ai else anthropic

  -- The request that goes out: no slot of the limiter is taken for it.
  abbrev pub shadow_request : Caller F → VirtualModel → ProxyRequest dp.Rest → ProxyRequest dp.Rest
  shadow_request c vm r = record r { metadata = shadow_metadata c vm r.metadata }

  abbrev sent : ShadowJob F → VirtualModel → Result Text (ProxyRequest dp.Rest) → AppState F S → Ran
  sent job vm (err message) s = (none, s)
  sent job vm (ok r) s =
      finished_by job vm
        (dp.dispatch none none vm.pool_id (protocol_of job) (shadow_request job.auth vm r) s) s

  abbrev resolved : ShadowJob F → Option (Option VirtualModel) → AppState F S → Ran
  resolved job none s = (none, s)
  resolved job (some none) s = (none, s)
  resolved job (some (some vm)) s =
      sent job vm (dp.chat_request (protocol_of job) (shadow_payload job) vm.name) s

  -- `run_shadow`, but for the write of the row.
  unfoldable pub run_shadow : ShadowJob F → AppState F S → Ran
  unfolding resolve_authorized_virtual_model shadow_payload shadow_metadata absorb
      extract_json_preview jaccard_similarity
  run_shadow job s =
      resolved job
        (resolve_authorized_virtual_model t.id_before t.taken_before t.exact_fails t.default_fails
          t.database job.shadow_model_name job.auth.project_id job.auth.key_id)
        s
