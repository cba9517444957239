-- ===== src/Proxy/Release.antt =====
-- A request that the data plane does not respond to gives its slot back.
use smart_gate.Context.Json.{Value}
use smart_gate.Proxy.Decision.{Judged}
use smart_gate.Proxy.QuotaStage.{key_limits, project_limits}
use smart_gate.Proxy.Affinity.{WarmAffinity, affinity_with, derive_warm_affinity, install_hints}
use smart_gate.Proxy.Stage.{Served, Stage, ◌>>=◌}
use smart_gate.Auth.Models.{VirtualModel}
use smart_gate.Base.{
  Bool, Bool-cases, List, Option, Text, false, inl, inr, map_option, none, refl, some, ℕ, ◌≡◌, ◌≤◌,
}
use smart_gate.Base.Headers.{Headers}
use smart_gate.Float.{Float}
use smart_gate.Routing.Candidate.{RouteHint}
use smart_gate.Warm.Sessions.{SessionStore}
use smart_gate.Warm.Keys.{SessionKey}
use smart_gate.Proxy.State.{
  AppState, Caller, ChatProtocol, Clock, DataPlane, HostOutcome, Printing, ProxyRequest, Tables,
  failed, pool_not_found, response, unsupported,
}
use smart_gate.Proxy.Dispatch.{call, dispatch_chat_request, install, validate, warm_key}
use smart_gate.Proxy.Entry.{before_quota-Quiet}
use smart_gate.Proxy.Idle.{
  Falls, Idle, Idle-bind, Idle-from-Lost, Lost, Lost-bind, Quiet, absorb-Falls, is_response,
}
use smart_gate.Proxy.Restores.{Lowered, Restores, Restores-bind, acquired-Restores}
use smart_gate.Proxy.Slots.{Declines, classify-Quiet}
use smart_gate.Proxy.Chat.{Admissible, before_quota, is_delta}
use smart_gate.Proxy.Serve.{
  admitted, affinity_stage, chat_proxy, counted_result, install_route_hint, judge_stage, or_panic,
  parse_chat_request, respond, route_hint, stamped, vm, while_held,
}

module _ {F : Type 0} ⦃f : Float F⦄ {S : SessionStore} (dp : DataPlane F S) (pr : Printing F)
    (t : Tables F) (c : Caller F) (m : ℕ) (q : Declines dp c m) (clock : Clock) (headers : Headers)
    (protocol : ChatProtocol) (a : Admissible dp pr t c clock headers protocol) where
  result_counted_quiet :
      (b : Bool) (s : AppState F S)
      → (counted_result dp pr t c clock headers protocol a b s).quotas ≡ s.quotas
  result_counted_quiet b s = elim (Bool-cases (is_delta a.warm_context)) [
    | inl e ↦ rw e refl
    | inr e ↦ rw e refl
  ]

  respond-Idle :
      (o : HostOutcome dp.Stream) (s s' : AppState F S)
      → is_response o ≡ false
      → Falls c m s.quotas s'.quotas
      → Idle c m s (respond dp pr t c clock headers protocol a o s')
  unfolding respond
  respond-Idle (response status body) s s' e h = absurd cc
  respond-Idle pool_not_found s s' e h = (refl, h)
  respond-Idle unsupported s s' e h = (refl, h)
  respond-Idle (failed x) s s' e h = (refl, rw (result_counted_quiet false s') h)

  call-Lost :
      (k : Option SessionKey) (hint : RouteHint F) (r : ProxyRequest dp.Rest) (s : AppState F S)
      → Lost c m s
          (call dp pr.registry_version k (vm dp pr t c clock headers protocol a) protocol hint r s)
  call-Lost k hint r s = (
    q.unanswered _ _ _ _ _ _,
    let (own, few) = q.reports _ _ _ _ _ _ in absorb-Falls pr.registry_version c m _ _ s own few,
  )

  validate-Quiet :
      (k : Option SessionKey) (v : VirtualModel) (s : AppState F S)
      → Quiet s (validate dp pr.registry_version k v s)
  validate-Quiet none v s = refl
  validate-Quiet (some k) v s = refl

  -- The call that ends the handler's way to the data plane.
  abbrev calls : RouteHint F → ProxyRequest dp.Rest → Stage F S dp.Stream (HostOutcome dp.Stream)
  calls hint request =
      call dp pr.registry_version (warm_key c a.warm_context)
        (vm dp pr t c clock headers protocol a) protocol hint request

  dispatch-Lost :
      (hint : RouteHint F) (r : ProxyRequest dp.Rest) (s : AppState F S)
      → Lost c m s (
          dispatch_chat_request dp pr.registry_version c a.warm_context
            (vm dp pr t c clock headers protocol a)
            protocol
            hint
            r
            s)
  unfolding dispatch_chat_request
  dispatch-Lost hint r s =
      Lost-bind c m (install dp pr.registry_version a.warm_context r) _ s refl λ request s1.
        Lost-bind c m (validate dp pr.registry_version (warm_key c a.warm_context) _)
          (λ u. calls hint request) s1 (validate-Quiet _ _ s1) λ u s2. call-Lost _ hint request s2

  judge_stage-Quiet :
      (s : AppState F S) → Quiet s (judge_stage dp pr t c clock headers protocol a s)
  judge_stage-Quiet s = classify-Quiet dp q.judge_metadata pr.registry_version c _ _ _ _ s

  or_panic-Quiet :
      (hash : Option (Option ℕ)) (sid : Option Text) (epoch : ℕ) (s : AppState F S)
      → Quiet s (
          or_panic dp pr t c clock headers protocol a
            (map_option
              (affinity_with
                (vm dp pr t c clock headers protocol a)
                a.context.pool
                clock
                sid
                epoch
                s)
              hash)
            s)
  or_panic-Quiet none sid epoch s = refl
  or_panic-Quiet (some h) sid epoch s = refl

  affinity_stage-Quiet :
      (s : AppState F S) → Quiet s (affinity_stage dp pr t c clock headers protocol a s)
  unfolding derive_warm_affinity
  affinity_stage-Quiet s = or_panic-Quiet _ _ _ s

  abbrev hint : Judged F → WarmAffinity → RouteHint F
  hint j w = route_hint dp pr t c clock headers protocol a j w

  -- The last two steps.
  abbrev sends :
      Judged F
      → WarmAffinity
      → List Value
      → ProxyRequest dp.Rest
      → Stage F S dp.Stream (Served dp.Stream)
  sends j w cs r =
      dispatch_chat_request dp pr.registry_version c a.warm_context
        (vm dp pr t c clock headers protocol a) protocol (hint j w)
        (stamped dp pr t c clock headers protocol a j w cs r)
      >>= respond dp pr t c clock headers protocol a

  sends-Idle :
      (j : Judged F) (w : WarmAffinity) (cs : List Value) (r : ProxyRequest dp.Rest)
      (s : AppState F S)
      → Idle c m s (sends j w cs r s)
  sends-Idle j w cs r s =
      Idle-from-Lost c m
        (dispatch_chat_request dp pr.registry_version c a.warm_context
          (vm dp pr t c clock headers protocol a) protocol (hint j w)
          (stamped dp pr t c clock headers protocol a j w cs r))
        (respond dp pr t c clock headers protocol a) s
        (dispatch-Lost (hint j w) (stamped dp pr t c clock headers protocol a j w cs r) s)
        respond-Idle

  -- From the installed hint on, and from the affinity on.
  abbrev installs : Judged F → WarmAffinity → Stage F S dp.Stream (Served dp.Stream)
  installs j w = install_route_hint dp pr t c clock headers protocol a (hint j w) >>= λ cs.
      parse_chat_request dp pr t c clock headers protocol a >>= sends j w cs

  installs-Idle : (j : Judged F) (w : WarmAffinity) (s : AppState F S) → Idle c m s (installs j w s)
  unfolding parse_chat_request install_route_hint install_hints
  installs-Idle j w s =
      Idle-bind c m (install_route_hint dp pr t c clock headers protocol a (hint j w))
        (λ cs. parse_chat_request dp pr t c clock headers protocol a >>= sends j w cs) s refl
        λ cs u.
          Idle-bind c m (parse_chat_request dp pr t c clock headers protocol a) (sends j w cs) u
            refl (sends-Idle j w cs)

  abbrev settles : Judged F → Stage F S dp.Stream (Served dp.Stream)
  settles j = affinity_stage dp pr t c clock headers protocol a >>= installs j

  pub while_held-Idle :
      (s : AppState F S) → Idle c m s (while_held dp pr t c clock headers protocol a s)
  unfolding while_held
  while_held-Idle s =
      Idle-bind c m (judge_stage dp pr t c clock headers protocol a) settles s (judge_stage-Quiet s)
        λ j u.
          Idle-bind c m (affinity_stage dp pr t c clock headers protocol a) (installs j) u
            (affinity_stage-Quiet u) (installs-Idle j)

module _ {F : Type 0} ⦃f : Float F⦄ {S : SessionStore} (dp : DataPlane F S) (pr : Printing F)
    (t : Tables F) (c : Caller F) (m : ℕ) (q : Declines dp c m) (clock : Clock) (headers : Headers)
    (protocol : ChatProtocol) (kn pn : ℕ) (ek : (key_limits c).concurrency_limit ≡ some kn)
    (ep : (project_limits c).concurrency_limit ≡ some pn) (j : Text) where
  admitted-Restores :
      (a : Admissible dp pr t c clock headers protocol) (s : AppState F S)
      → Restores c m clock.admitted kn pn ek ep j s (admitted dp pr t c clock headers protocol a s)
  unfolding admitted
  admitted-Restores a =
      acquired-Restores c m clock.admitted kn pn ek ep j
        (while_held dp pr t c clock headers protocol a)
        (while_held-Idle dp pr t c m q clock headers protocol a)

  -- Under a concurrency limit on key and project, with a data plane that does not respond to the
  -- chat: however the request ends, it gives back the slot that it took, and no slot is kept. Every
  -- counter of active requests is as it was, but for further releases of the caller, at most as many
  -- as the most requests of it that the data plane reports in a call. A judge's are not among them.
  pub chat_proxy-restores :
      (payload : Value) (s : AppState F S)
      → (n : ℕ) × (n ≤ m)
        × Lowered c j n s.quotas (chat_proxy dp pr t c clock headers protocol payload s).1.quotas
  unfolding chat_proxy
  chat_proxy-restores payload s =
      Restores-bind c m clock.admitted kn pn ek ep j
        (before_quota dp pr t c clock headers protocol payload)
        (admitted dp pr t c clock headers protocol) s
        (before_quota-Quiet dp pr t c clock headers protocol payload s) admitted-Restores
