-- ===== src/Proxy/Dispatch.antt =====
-- src/api/proxy.rs: the call of the data plane for a chat request, with the checks of a warm session
-- before it.
use smart_gate.Base.{Option, Text, map_option, none, some}
use smart_gate.Float.{Float}
use smart_gate.Auth.Models.{VirtualModel}
use smart_gate.Context.Json.{Fields}
use smart_gate.Routing.Candidate.{RouteHint}
use smart_gate.Warm.Errors.{WarmError}
use smart_gate.Warm.Gateway.{install_session_gateway_context}
use smart_gate.Warm.Keys.{SessionKey}
use smart_gate.Session.Ids.{and_then}
use smart_gate.Warm.Operations.{validate_virtual_model}
use smart_gate.Warm.Sessions.{Result, SessionStore, err, ok}
use smart_gate.Warm.Store.{WarmContext}
use smart_gate.Proxy.Response.{warm_error, warm_status}
use smart_gate.Proxy.State.{Caller, ChatProtocol, DataPlane, HostOutcome, ProxyRequest}
use smart_gate.Proxy.Finished.{absorb}
use smart_gate.Proxy.Stage.{Ends, Stage, ◌>>=◌, ◌>>◌}

abbrev pub warm_failure : {Stream A : Type 0} → WarmError → Ends Stream A
warm_failure e = err (some (warm_error (warm_status e) e))

abbrev on_warm_error : {Stream A : Type 0} → Result WarmError A → Ends Stream A
on_warm_error (ok a) = ok a
on_warm_error (err e) = warm_failure e

module _ {F : Type 0} where
  abbrev pub key_with : Caller F → Text → SessionKey
  key_with c session_id = record {
    project_id = c.project_id;
    api_key_id = c.key_id;
    session_id = session_id;
  }

  unfoldable pub warm_key : Caller F → Option WarmContext → Option SessionKey
  warm_key c warm = map_option (key_with c) (and_then warm (λ w. w.session_id))

module _ {F : Type 0} ⦃f : Float F⦄ {S : SessionStore} (dp : DataPlane F S)
    (registry_version : Text) where
  abbrev pub with_fields : ProxyRequest dp.Rest → Fields → ProxyRequest dp.Rest
  with_fields r fields = record r { gateway_fields = fields }

  abbrev pub install :
      Option WarmContext → ProxyRequest dp.Rest → Stage F S dp.Stream (ProxyRequest dp.Rest)
  install warm r s =
      let (checked, fields) =
        install_session_gateway_context dp.gateway_field r.gateway_fields warm in
      (
        elim checked as (λ _. Ends dp.Stream (ProxyRequest dp.Rest)) [
          | ok u ↦ ok (with_fields r fields)
          | err e ↦ warm_failure e
        ],
        s,
      )

  abbrev pub validate : Option SessionKey → VirtualModel → Stage F S dp.Stream Unit
  validate none vm s = (ok tt, s)
  validate (some key) vm s =
      let (checked, w) = validate_virtual_model key (some vm.id) s.warm in
      (on_warm_error checked, record s { warm = w })

  abbrev pub call :
      Option SessionKey
      → VirtualModel
      → ChatProtocol
      → RouteHint F
      → ProxyRequest dp.Rest
      → Stage F S dp.Stream (HostOutcome dp.Stream)
  call key vm protocol hint r s =
      let d = dp.dispatch key (some hint) vm.pool_id protocol r s in
      (ok d.outcome, absorb registry_version d d.warm s)

  unfoldable pub dispatch_chat_request :
      Caller F
      → Option WarmContext
      → VirtualModel
      → ChatProtocol
      → RouteHint F
      → ProxyRequest dp.Rest
      → Stage F S dp.Stream (HostOutcome dp.Stream)
  unfolding warm_key install_session_gateway_context validate_virtual_model absorb warm_error
      warm_status
  dispatch_chat_request c warm vm protocol hint r = install warm r >>= λ request.
      validate (warm_key c warm) vm >> call (warm_key c warm) vm protocol hint request
