-- ===== src/Proxy/QuotaStage.antt =====
-- src/api/proxy.rs: the stages of access, budget and quota.
use smart_gate.Base.{Bool, Option, Text, codes, if◌then◌else◌, map_option, none, some, ℕ, ◌++◌}
use smart_gate.Float.{Float}
use smart_gate.Context.Text.{to_decimal}
use smart_gate.Auth.Models.{VirtualModel, resolve_authorized_virtual_model}
use smart_gate.Budget.{BudgetOutcome, effective_daily_limit, evaluate, is_blocked, should_downshift}
use smart_gate.Quota.Limiter.{
  Outcome, QuotaLimiter, QuotaLimits, QuotaPermit, QuotaRejectReason, Scope, api_key, concurrency,
  permit, project, retry_after_secs, rpm, try_acquire,
}
use smart_gate.Routing.Strategy.{canonicalize}
use smart_gate.Usage.Numbers.{as_u32}
use smart_gate.Warm.Sessions.{SessionStore, err, ok}
use smart_gate.Proxy.Response.{Response, answer, plain, with_header}
use smart_gate.Proxy.State.{AppState, Caller, ModelPool, Tables}
use smart_gate.Proxy.Stage.{Ends, Stage}
use smart_gate.Proxy.Stages.{BudgetGate, PoolContext, budget_headers, strategy_name}

abbrev scope_text : Scope → Text
scope_text project = codes "project"
scope_text api_key = codes "api_key"

-- `QuotaRejectReason::message`
unfoldable pub reject_message : QuotaRejectReason → Text
unfolding to_decimal
reject_message (rpm scope limit retry) =
    codes "Rate limit exceeded for "
    ++ (scope_text scope
        ++ (codes ": "
            ++ (to_decimal limit
                ++ (codes " requests/minute. Retry after " ++ (to_decimal retry ++ codes "s")))))
reject_message (concurrency scope limit) =
    codes "Concurrency limit exceeded for "
    ++ (scope_text scope ++ (codes ": " ++ (to_decimal limit ++ codes " active requests")))

module _ {F : Type 0} where
  abbrev pool_strategy : Option (ModelPool F) → Text
  pool_strategy none = codes "round_robin"
  pool_strategy (some p) = strategy_name (canonicalize p.strategy)

  unfoldable pub key_limits : Caller F → QuotaLimits
  unfolding as_u32
  key_limits c = record {
    rpm_limit = map_option as_u32 c.key_rpm_limit;
    concurrency_limit = map_option as_u32 c.key_concurrency_limit;
  }

  unfoldable pub project_limits : Caller F → QuotaLimits
  unfolding as_u32
  project_limits c = record {
    rpm_limit = map_option as_u32 c.project_rpm_limit;
    concurrency_limit = map_option as_u32 c.project_concurrency_limit;
  }

module _ {Stream : Type 0} where
  abbrev internal_error : Response Stream
  internal_error = answer 500 (codes "Internal server error")

  -- The answer to a request over a limit.
  unfoldable pub rejected : QuotaRejectReason → Response Stream
  unfolding with_header reject_message retry_after_secs
  rejected reason = elim (retry_after_secs reason) [
    | none ↦ answer 429 (reject_message reason)
    | some seconds ↦
        with_header (codes "retry-after") (to_decimal seconds) (answer 429 (reject_message reason))
  ]

module _ {F Stream : Type 0} where
  abbrev pub with_model : Tables F → Option (Option VirtualModel) → Ends Stream (PoolContext F)
  with_model tables none = err (some internal_error)
  with_model tables (some none) =
      err (some (answer 403 (codes "Access to this model is not granted or model not found")))
  with_model tables (some (some vm)) = elim (tables.pools) [
    | none ↦ err (some internal_error)
    | some pools ↦ ok (record {
      virtual_model = vm;
      pool = pools vm.pool_id;
      strategy = pool_strategy (pools vm.pool_id);
    })
  ]

module _ {F Stream : Type 0} {S : SessionStore} where
  unfoldable pub resolve_pool_context :
      Tables F → Caller F → (requested_model : Text) → Stage F S Stream (PoolContext F)
  unfolding resolve_authorized_virtual_model canonicalize strategy_name
  resolve_pool_context t c requested_model s =
      let found =
        resolve_authorized_virtual_model t.id_before t.taken_before t.exact_fails t.default_fails
          t.database requested_model c.project_id c.key_id in
      (with_model t found, s)

  abbrev pub settled :
      Caller F → QuotaLimiter × Outcome → AppState F S → Ends Stream QuotaPermit × AppState F S
  settled c (l, Outcome.ok) s = (ok (permit c.key_id c.project_id), record s { quotas = l })
  settled c (l, Outcome.err reason) s = (err (some (rejected reason)), record s { quotas = l })

  unfoldable pub acquire_quota : Caller F → (now : ℕ) → Stage F S Stream QuotaPermit
  unfolding try_acquire key_limits project_limits permit
  acquire_quota c now s =
      settled c (try_acquire c.key_id c.project_id (key_limits c) (project_limits c) now s.quotas) s

module _ {F : Type 0} (four_decimals : F → Text) (debug_limit : Option F → Text) where
  abbrev exceeded_message : Bool → F → Option F → Text
  exceeded_message include_detail spent limit =
      if include_detail
      then codes "Daily spend budget exceeded (spent≈"
        ++ (four_decimals spent
            ++ (codes ", limit="
                ++ (debug_limit limit ++ codes "). Increase limit or wait until reset.")))
      else codes "Daily spend budget exceeded"

module _ {F Stream : Type 0} ⦃f : Float F⦄ (four_decimals : F → Text)
    (debug_limit : Option F → Text) where
  abbrev pub gated : Bool → F → Option F → BudgetOutcome F → Ends Stream (BudgetGate F)
  gated include_detail spent limit outcome =
      if is_blocked outcome
      then err (
          some (record {
            status = 429;
            headers = budget_headers four_decimals outcome spent limit;
            body = plain (exceeded_message four_decimals debug_limit include_detail spent limit);
          }))
      else ok (record {
        outcome = outcome;
        spent = spent;
        limit = limit;
        downshift = should_downshift outcome;
      })

module _ {F Stream : Type 0} ⦃f : Float F⦄ {S : SessionStore} (four_decimals : F → Text)
    (debug_limit : Option F → Text) where
  unfoldable pub enforce_spend_budget : Tables F → Caller F → Bool → Stage F S Stream (BudgetGate F)
  unfolding budget_headers
  enforce_spend_budget t c include_detail s =
      let limit = effective_daily_limit c.key_daily_spend_limit c.project_daily_spend_limit in
      (
        elim (t.spent_today) as (λ _. Ends Stream (BudgetGate F)) [
          | none ↦ err (some (answer 503 (codes "Spend tracking temporarily unavailable")))
          | some spent ↦
              gated four_decimals debug_limit include_detail (spent c.key_id) limit
                (evaluate (spent c.key_id) limit)
        ],
        s,
      )
