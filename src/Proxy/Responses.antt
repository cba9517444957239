-- ===== src/Proxy/Responses.antt =====
-- src/api/proxy.rs: the handler of the responses surface. It has no warm context, slimming, judge or
-- affinity; the hint that it sets for its thread is not modelled.
use smart_gate.Base.{Text, [], codes, false, map_option, some, true, ℕ, ◌++◌}
use smart_gate.Base.Headers.{insert}
use smart_gate.Base.Map.{or_else, put}
use smart_gate.Float.{Float}
use smart_gate.Context.Json.{Value, arr, bool, end, field, get_str, obj, str, uint}
use smart_gate.Context.Text.{take}
use smart_gate.Warm.Sessions.{Result, SessionStore, err, ok}
use smart_gate.Proxy.Response.{Body, answer}
use smart_gate.Proxy.State.{AppState, Caller, DataPlane, Printing, ProxyRequest, Tables}
use smart_gate.Proxy.Stage.{Ends, Served, Stage, finally, holding, ◌>>=◌}
use smart_gate.Proxy.Stages.{BudgetGate, PoolContext}
use smart_gate.Proxy.QuotaStage.{acquire_quota, enforce_spend_budget, resolve_pool_context}
use smart_gate.Proxy.Judge.{difficulty_tier, tier_text}
use smart_gate.Proxy.Decision.{RequestSignals, or_null, request_signals, texts_value}
use smart_gate.Proxy.Metadata.{stamp_core_metadata}
use smart_gate.Proxy.Finished.{absorb}
use smart_gate.Proxy.Chat.{apply_budget_headers, converted}

module _ {F : Type 0} ⦃f : Float F⦄ {S : SessionStore} (dp : DataPlane F S) (pr : Printing F)
    (t : Tables F) (c : Caller F) (now : ℕ) where
  unfoldable pub responses_decision : RequestSignals F → BudgetGate F → Value
  unfolding difficulty_tier tier_text take
  responses_decision r gate = obj (
      field (codes "product") (str (codes "smartgate")) (
        field (codes "protocol") (str (codes "responses")) (
          field (codes "input_tokens_est") (uint r.input_tokens) (
            field (codes "output_tokens_est") (uint r.output_tokens) (
              field (codes "difficulty") (pr.float_value r.difficulty) (
                field (codes "difficulty_tier") (str (tier_text (difficulty_tier r.difficulty))) (
                  field (codes "difficulty_source") (str (codes "heuristic")) (
                    field (codes "judge_used") (bool false) (
                      field (codes "prompt_preview") (str (take 200 r.prompt_text)) (
                        field (codes "signals") (arr (texts_value r.signals)) (
                          field (codes "has_tools") (bool r.has_tools) (
                            field (codes "downshift") (bool gate.downshift) (
                              field (codes "spent_today") (pr.float_value gate.spent) (
                                field (codes "daily_limit")
                                  (or_null (map_option pr.float_value gate.limit)) end))))))))))))))

  abbrev pub parsed : Text → Value → Stage F S dp.Stream (ProxyRequest dp.Rest)
  parsed requested_model payload s = (
    elim (dp.responses_request payload requested_model)
        as (λ _. Ends dp.Stream (ProxyRequest dp.Rest)) [
          | ok request ↦ ok request
          | err printed ↦ err (some (answer 400 (codes "Invalid request: " ++ printed)))
        ],
    s,
  )

  unfoldable pub responses_metadata :
      PoolContext F → RequestSignals F → BudgetGate F → ProxyRequest dp.Rest → ProxyRequest dp.Rest
  unfolding stamp_core_metadata responses_decision put
  responses_metadata context r gate request = record request {
    metadata = insert (codes "routing_decision") (pr.display (responses_decision r gate)) (
        stamp_core_metadata c context.virtual_model context.strategy r.input_tokens r.output_tokens
          request.metadata);
  }

  abbrev pub answered : BudgetGate F → Result Text (ℕ × Body dp.Stream) → Served dp.Stream
  answered gate (ok (status, body)) = (
    some (apply_budget_headers pr.four_decimals gate (converted pr.four_decimals status body)),
    true,
  )
  answered gate (err printed) = (some (answer 502 (codes "Upstream error: " ++ printed)), false)

  abbrev pub sent :
      PoolContext F → BudgetGate F → ProxyRequest dp.Rest → Stage F S dp.Stream (Served dp.Stream)
  sent context gate request s =
      let d = dp.responses context.virtual_model.pool_id request s in
      (ok (answered gate d.outcome), absorb pr.registry_version d s.warm s)

  unfoldable pub responses_held :
      Value
      → Text
      → PoolContext F
      → BudgetGate F
      → RequestSignals F
      → Stage F S dp.Stream (Served dp.Stream)
  unfolding responses_metadata absorb apply_budget_headers
  responses_held payload requested_model context gate r = do
    request ← parsed requested_model payload
    sent context gate (responses_metadata context r gate request)

  abbrev all_stages : Value → Text → Stage F S dp.Stream (Served dp.Stream)
  all_stages payload requested_model = do
    context ← resolve_pool_context t c requested_model
    gate ← enforce_spend_budget pr.four_decimals pr.debug_limit t c false
    permit ← acquire_quota c now
    holding permit
        (responses_held payload requested_model context gate (request_signals pr.to_string payload))

  unfoldable pub responses : Value → AppState F S → Served dp.Stream × AppState F S
  unfolding get_str resolve_pool_context enforce_spend_budget request_signals acquire_quota
      responses_held holding
  responses payload = finally (all_stages payload (or_else (get_str (codes "model") payload) []))
