-- ===== src/Proxy/Serve.antt =====
-- src/api/proxy.rs: the chat handler from the quota on, and as a whole.
use smart_gate.Auth.Models.{VirtualModel}
use smart_gate.Pricing.{is_some}
use smart_gate.Base.{Bool, List, Option, Text, codes, false, none, some, true, ◌++◌}
use smart_gate.Base.Headers.{Headers}
use smart_gate.Float.{Float}
use smart_gate.Context.Json.{Value}
use smart_gate.Difficulty.Signals.{extract_user_prompt_preview}
use smart_gate.Routing.Candidate.{RouteHint}
use smart_gate.Routing.Explain.{explain}
use smart_gate.Warm.Operations.{record_delta_result}
use smart_gate.Warm.Sessions.{SessionStore, err, ok}
use smart_gate.Proxy.Response.{answer}
use smart_gate.Proxy.HostErrors.{host_error_response}
use smart_gate.Proxy.State.{
  AppState, Caller, ChatProtocol, Clock, DataPlane, HostOutcome, Printing, ProxyRequest, Tables,
  failed, pool_not_found, response, unsupported,
}
use smart_gate.Proxy.Stage.{Ends, Served, Stage, finally, holding, ◌>>=◌}
use smart_gate.Proxy.QuotaStage.{acquire_quota}
use smart_gate.Proxy.Borderline.{classify_borderline_difficulty}
use smart_gate.Proxy.Affinity.{WarmAffinity, derive_warm_affinity, install_hints}
use smart_gate.Proxy.Decision.{Judged, judged_by, routing_decision}
use smart_gate.Proxy.Metadata.{stamp_chat_metadata, stamp_core_metadata}
use smart_gate.Proxy.Dispatch.{dispatch_chat_request}
use smart_gate.Proxy.Shadow.{maybe_spawn_shadow}
use smart_gate.Proxy.Chat.{Admissible, before_quota, decorate_proxy_response, result_counted}

module _ {F : Type 0} ⦃f : Float F⦄ {S : SessionStore} (dp : DataPlane F S) (pr : Printing F)
    (t : Tables F) (c : Caller F) (clock : Clock) (headers : Headers) (protocol : ChatProtocol)
    (a : Admissible dp pr t c clock headers protocol) where
  abbrev pub vm : VirtualModel
  vm = a.context.virtual_model

  abbrev pub judge_stage : Stage F S dp.Stream (Judged F)
  judge_stage s =
      let (tier, s') =
        classify_borderline_difficulty dp pr.registry_version c vm a.signals.prompt_text
          a.context.pool a.signals.difficulty s in
      (ok (judged_by a.signals tier), s')

  abbrev pub or_panic :
      Option (WarmAffinity × AppState F S)
      → AppState F S
      → Ends dp.Stream WarmAffinity × AppState F S
  or_panic none s = (err none, s)
  or_panic (some (affinity, s')) s = (ok affinity, s')

  abbrev pub affinity_stage : Stage F S dp.Stream WarmAffinity
  affinity_stage s =
      or_panic
        (derive_warm_affinity pr.to_bytes headers a.payload vm a.context.pool a.warm_context clock
          s)
        s

  unfoldable pub route_hint : Judged F → WarmAffinity → RouteHint F
  route_hint j affinity = record {
    input_tokens = a.signals.input_tokens;
    output_tokens = a.signals.output_tokens;
    has_tools = a.signals.has_tools;
    difficulty = j.difficulty;
    downshift = a.gate.downshift;
    pool_id = vm.pool_id;
    affinity_enabled = affinity.affinity_enabled;
    sticky_endpoint_id = affinity.sticky_endpoint_id;
  }

  unfoldable pub install_route_hint : RouteHint F → Stage F S dp.Stream (List Value)
  unfolding install_hints explain
  install_route_hint hint s =
      let s' = install_hints vm a.requested_model hint s in
      (ok (explain pr.float_value pr.sort_trace s'.routing vm.pool_id hint clock.explained), s')

  abbrev pub preview : Text
  preview = extract_user_prompt_preview pr.to_string a.payload

  abbrev pub decision_of : Judged F → WarmAffinity → List Value → Value
  decision_of j affinity candidates =
      routing_decision pr.float_value protocol a.context.strategy a.signals j preview a.gate
        candidates a.slim affinity (is_some a.warm_context)

  unfoldable pub parse_chat_request : Stage F S dp.Stream (ProxyRequest dp.Rest)
  parse_chat_request s = (
    elim (dp.chat_request protocol a.payload a.requested_model)
        as (λ _. Ends dp.Stream (ProxyRequest dp.Rest)) [
          | ok request ↦ ok request
          | err printed ↦ err (some (answer 400 (codes "Invalid request: " ++ printed)))
        ],
    s,
  )

  unfoldable pub stamped :
      Judged F → WarmAffinity → List Value → ProxyRequest dp.Rest → ProxyRequest dp.Rest
  unfolding stamp_core_metadata stamp_chat_metadata routing_decision extract_user_prompt_preview
  stamped j affinity candidates request = record request {
    metadata =
        stamp_chat_metadata a.warm_context affinity a.slim
          (pr.display (decision_of j affinity candidates)) a.gate.downshift
          (stamp_core_metadata c vm a.context.strategy a.signals.input_tokens
            a.signals.output_tokens request.metadata);
  }

  abbrev pub counted_result : Bool → AppState F S → AppState F S
  counted_result success s =
      result_counted dp pr t c clock headers protocol success a.warm_context s

  -- The answer to each outcome, and whether the permit was disarmed.
  unfoldable pub respond : HostOutcome dp.Stream → Stage F S dp.Stream (Served dp.Stream)
  unfolding record_delta_result maybe_spawn_shadow decorate_proxy_response host_error_response
      extract_user_prompt_preview
  respond (response status body) s = (
    ok (
      some (decorate_proxy_response pr.four_decimals status body a.gate a.slim.slimmed_chars),
      true,
    ),
    maybe_spawn_shadow a.context.pool body clock.shadow_draw c headers a.payload preview protocol
        (counted_result true s),
  )
  respond pool_not_found s = (ok (some (answer 404 (codes "Model pool not found")), false), s)
  respond unsupported s =
      (ok (some (answer 502 (codes "Unsupported host dispatch outcome")), false), s)
  respond (failed e) s = (ok (some (host_error_response e), false), counted_result false s)

  -- What is done while the permit is held.
  unfoldable pub while_held : Stage F S dp.Stream (Served dp.Stream)
  unfolding classify_borderline_difficulty judged_by derive_warm_affinity route_hint
      install_route_hint parse_chat_request stamped dispatch_chat_request respond
  while_held = do
    j ← judge_stage
    affinity ← affinity_stage
    candidates ← install_route_hint (route_hint j affinity)
    request ← parse_chat_request
    outcome ←
        dispatch_chat_request dp pr.registry_version c a.warm_context vm protocol
          (route_hint j affinity) (stamped j affinity candidates request)
    respond outcome

module _ {F : Type 0} ⦃f : Float F⦄ {S : SessionStore} (dp : DataPlane F S) (pr : Printing F)
    (t : Tables F) (c : Caller F) (clock : Clock) (headers : Headers)
    (protocol : ChatProtocol) where
  -- The part of the handler that takes a slot.
  unfoldable pub admitted :
      Admissible dp pr t c clock headers protocol → Stage F S dp.Stream (Served dp.Stream)
  unfolding acquire_quota while_held holding
  admitted a = acquire_quota c clock.admitted >>= λ permit.
      holding permit (while_held dp pr t c clock headers protocol a)

  -- The answer, and whether the data plane's hooks have the slot now.
  unfoldable pub chat_proxy : Value → AppState F S → Served dp.Stream × AppState F S
  unfolding before_quota admitted
  chat_proxy payload =
      finally (before_quota dp pr t c clock headers protocol payload >>= λ a. admitted a)
