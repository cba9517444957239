-- ===== src/Proxy/Chat.antt =====
-- src/api/proxy.rs: the chat handler as a whole.
use smart_gate.Base.{Bool, Option, Text, [], codes, false, if◌then◌else◌, ltb, none, some, true, ℕ}
use smart_gate.Base.Headers.{Headers}
use smart_gate.Base.Map.{Map, empty, or_else}
use smart_gate.Float.{Float}
use smart_gate.Context.Json.{Value, get_str}
use smart_gate.Context.Text.{to_decimal}
use smart_gate.Warm.Gateway.{strip_context}
use smart_gate.Warm.Operations.{record_delta_attempt, record_delta_result}
use smart_gate.Warm.Request.{parse_context_with_headers}
use smart_gate.Warm.Sessions.{SessionStore, err, ok}
use smart_gate.Warm.Store.{WarmContext, World, delta, full}
use smart_gate.Proxy.Response.{Body, Response, events, with_header}
use smart_gate.Proxy.State.{AppState, Caller, ChatProtocol, Clock, DataPlane, Printing, Tables}
use smart_gate.Proxy.Stage.{Ends, Stage, lift, modify, ◌>>=◌, ◌>>◌}
use smart_gate.Proxy.Stages.{
  BudgetGate, PoolContext, SlimStats, budget_headers, slim_request_context,
}
use smart_gate.Proxy.QuotaStage.{enforce_spend_budget, resolve_pool_context}
use smart_gate.Proxy.Decision.{RequestSignals, request_signals}
use smart_gate.Proxy.Dispatch.{warm_failure}

abbrev pub is_delta : Option WarmContext → Bool
is_delta none = false
is_delta (some c) = elim (c.delivery) [ full ↦ false | delta ↦ true ]

abbrev pub is_some : {A : Type 0} → Option A → Bool
is_some none = false
is_some (some a) = true

-- `apply_budget_headers`, the headers of a gate over those of an answer.
abbrev pub over : Map Text Text → Map Text Text → Map Text Text
over new old name = elim (new name) [ none ↦ old name | some v ↦ some v ]

module _ {F Stream : Type 0} ⦃f : Float F⦄ (four_decimals : F → Text) where
  unfoldable pub apply_budget_headers : BudgetGate F → Response Stream → Response Stream
  unfolding budget_headers
  apply_budget_headers gate r = record r {
    headers = over (budget_headers four_decimals gate.outcome gate.spent gate.limit) r.headers;
  }

  abbrev marked : Bool → Response Stream → Response Stream
  marked soft r = if soft then with_header (codes "x-smartgate-budget") (codes "soft") r else r

  abbrev counted : ℕ → Response Stream → Response Stream
  counted slimmed r =
      if ltb 0 slimmed
      then with_header (codes "x-smartgate-slim-chars") (to_decimal slimmed) r
      else r

  -- An answer of the data plane: a stream gets its headers, and the status of a success.
  abbrev pub converted : ℕ → Body Stream → Response Stream
  converted status (events stream) = with_header (codes "connection") (codes "keep-alive") (
      with_header (codes "cache-control") (codes "no-cache") (
        with_header (codes "content-type") (codes "text/event-stream")
          (record { status = 200; headers = empty; body = events stream })))
  converted status body = record { status = status; headers = empty; body = body }

  unfoldable pub decorate_proxy_response :
      ℕ → Body Stream → BudgetGate F → (slimmed_chars : ℕ) → Response Stream
  unfolding apply_budget_headers with_header to_decimal
  decorate_proxy_response status body gate slimmed =
      counted slimmed (marked gate.downshift (apply_budget_headers gate (converted status body)))

module _ {F : Type 0} ⦃f : Float F⦄ {S : SessionStore} (dp : DataPlane F S) (pr : Printing F)
    (t : Tables F) (c : Caller F) (clock : Clock) (headers : Headers)
    (protocol : ChatProtocol) where
  -- What the stages before the quota have found.
  pub record Admissible : Type 0 where
    pub requested_model : Text
    pub context : PoolContext F
    pub warm_context : Option WarmContext
    pub payload : Value
    pub gate : BudgetGate F
    pub slim : SlimStats
    pub signals : RequestSignals F

  abbrev pub parse_warm : Value → Stage F S dp.Stream (Option WarmContext)
  parse_warm payload s = (
    elim (parse_context_with_headers payload (some headers))
        as (λ _. Ends dp.Stream (Option WarmContext)) [
          | ok warm ↦ ok warm
          | err e ↦ warm_failure e
        ],
    s,
  )

  abbrev on_warm : (World S → World S) → AppState F S → AppState F S
  on_warm g s = record s { warm = g s.warm }

  abbrev pub attempted : Option WarmContext → AppState F S → AppState F S
  attempted none s = s
  attempted (some w) s = on_warm (record_delta_attempt w.delivery) s

  abbrev pub result_counted : Bool → Option WarmContext → AppState F S → AppState F S
  result_counted success warm s =
      if is_delta warm then on_warm (record_delta_result success) s else s

  abbrev pub stripped : Option WarmContext → Value → Value
  stripped none payload = payload
  stripped (some w) payload = elim (w.delivery) [ full ↦ strip_context payload | delta ↦ payload ]

  abbrev pub admissible :
      Text → PoolContext F → Option WarmContext → Value → BudgetGate F → Admissible
  admissible requested context warm payload gate =
      let (slimmed, slim) =
        slim_request_context pr.head_share payload (is_some warm) context.pool in
      record {
        requested_model = requested;
        context = context;
        warm_context = warm;
        payload = slimmed;
        gate = gate;
        slim = slim;
        signals = request_signals pr.to_string slimmed;
      }

  -- The stages before the quota.
  unfoldable pub before_quota : Value → Stage F S dp.Stream Admissible
  unfolding get_str resolve_pool_context parse_context_with_headers record_delta_attempt
      strip_context enforce_spend_budget slim_request_context request_signals
  before_quota payload = do
    context ← resolve_pool_context t c (or_else (get_str (codes "model") payload) [])
    warm ← parse_warm payload
    modify (attempted warm)
    gate ← enforce_spend_budget pr.four_decimals pr.debug_limit t c true
    lift (
        ok (
          admissible (or_else (get_str (codes "model") payload) []) context warm
            (stripped warm payload) gate))
