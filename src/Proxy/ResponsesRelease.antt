-- ===== src/Proxy/ResponsesRelease.antt =====
-- src/api/proxy.rs: the handler of responses gives its slot back, unless it is taken over.
use smart_gate.Base.{Text, [], codes, false, refl, some, ℕ, ◌∙◌, ◌≡◌, ◌≤◌}
use smart_gate.Base.Map.{or_else}
use smart_gate.Float.{Float}
use smart_gate.Context.Json.{Value, get_str}
use smart_gate.Warm.Sessions.{Result, SessionStore, err, ok}
use smart_gate.Proxy.Response.{Body}
use smart_gate.Proxy.State.{AppState, Caller, DataPlane, Printing, ProxyRequest, Tables}
use smart_gate.Proxy.Stage.{Served, Stage, holding, ◌>>=◌}
use smart_gate.Proxy.Stages.{BudgetGate, PoolContext}
use smart_gate.Proxy.QuotaStage.{
  acquire_quota, enforce_spend_budget, key_limits, project_limits, resolve_pool_context,
}
use smart_gate.Proxy.Decision.{RequestSignals, request_signals}
use smart_gate.Proxy.Responses.{
  answered, parsed, responses, responses_held, responses_metadata, sent,
}
use smart_gate.Proxy.Idle.{Idle, Idle-bind, absorb-Falls, is_ok}
use smart_gate.Proxy.Slots.{DeclinesResponses}
use smart_gate.Proxy.Restores.{Lowered, Restores, Restores-bind, acquired-Restores}

module _ {F : Type 0} ⦃f : Float F⦄ {S : SessionStore} (dp : DataPlane F S) (pr : Printing F)
    (t : Tables F) (c : Caller F) (m : ℕ) (q : DeclinesResponses dp c m) (now : ℕ) where
  answered_ok :
      (g : BudgetGate F) (o : Result Text (ℕ × Body dp.Stream))
      → (answered dp pr t c now g o).1 ≡ is_ok o
  answered_ok g (ok x) = refl
  answered_ok g (err e) = refl

  sent-Idle :
      (context : PoolContext F) (g : BudgetGate F) (r : ProxyRequest dp.Rest) (s : AppState F S)
      → Idle c m s (sent dp pr t c now context g r s)
  sent-Idle context g r s = (
    answered_ok g _ ∙ q.unanswered _ r s,
    let (own, few) = q.reports _ r s in absorb-Falls pr.registry_version c m _ s.warm s own few,
  )

  responses_held-Idle :
      (payload : Value) (model : Text) (context : PoolContext F) (g : BudgetGate F)
      (r : RequestSignals F) (s : AppState F S)
      → Idle c m s (responses_held dp pr t c now payload model context g r s)
  unfolding responses_held
  responses_held-Idle payload model context g r s =
      Idle-bind c m (parsed dp pr t c now model payload)
        (λ request.
          sent dp pr t c now context g (responses_metadata dp pr t c now context r g request))
        s refl λ request u. sent-Idle context g _ u

  module _ (kn pn : ℕ) (ek : (key_limits c).concurrency_limit ≡ some kn)
      (ep : (project_limits c).concurrency_limit ≡ some pn) (j : Text) where
    -- The handler from the budget on.
    abbrev gates : Value → Text → PoolContext F → Stage F S dp.Stream (Served dp.Stream)
    gates payload model context =
        enforce_spend_budget pr.four_decimals pr.debug_limit t c false >>= λ g.
        acquire_quota c now >>= λ p. holding p (
          responses_held dp pr t c now payload model context g
            (request_signals pr.to_string payload))

    gates-Restores :
        (payload : Value) (model : Text) (context : PoolContext F) (s : AppState F S)
        → Restores c m now kn pn ek ep j s (gates payload model context s)
    unfolding enforce_spend_budget
    gates-Restores payload model context s =
        Restores-bind c m now kn pn ek ep j
          (enforce_spend_budget pr.four_decimals pr.debug_limit t c false)
          (λ g. acquire_quota c now >>= λ p. holding p (
            responses_held dp pr t c now payload model context g
              (request_signals pr.to_string payload)))
          s refl
          λ g.
            acquired-Restores c m now kn pn ek ep j
              (responses_held dp pr t c now payload model context g
                (request_signals pr.to_string payload))
              (responses_held-Idle payload model context g (request_signals pr.to_string payload))

    -- Under a concurrency limit on key and project, with a data plane whose calls for responses
    -- fail: however the request ends, it gives back the slot that it took, and no slot is kept.
    -- Every counter of active requests is as it was, but for further releases of the caller, at most
    -- as many as the most requests of it that the data plane reports in a call.
    pub responses-restores :
        (payload : Value) (s : AppState F S)
        → (n : ℕ) × (n ≤ m) × Lowered c j n s.quotas (responses dp pr t c now payload s).1.quotas
    unfolding responses resolve_pool_context
    responses-restores payload s =
        let model = or_else (get_str (codes "model") payload) [] in
        Restores-bind c m now kn pn ek ep j (resolve_pool_context t c model) (gates payload model) s
          refl (gates-Restores payload model)
