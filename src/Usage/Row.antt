-- ===== src/Usage/Row.antt =====
-- src/usage/mod.rs: the row that `on_request_finished` writes, and the hook as a whole.
use smart_gate.Base.{
  Bool, List, Option, Text, Text-discrete, [], codes, false, if◌then◌else◌, length, ltb, map_option,
  none, some, true, ℕ, ◌%◌, ◌++◌, ◌^◌, ◌∷◌,
}
use smart_gate.Base.Int.{pos}
use smart_gate.Base.Headers.{insert}
use smart_gate.Base.Map.{Map, or_else, put}
use smart_gate.Float.{Float}
use smart_gate.Health.{EndpointMetric, record_cache_observation}
use smart_gate.Context.Text.{to_decimal}
use smart_gate.Pricing.{
  EndpointProfile, UnitPrice, calculate_cost, input_price, is_priced, output_price,
}
use smart_gate.Quota.Limiter.{QuotaLimiter}
use smart_gate.Session.Ids.{or_option}
use smart_gate.Session.Store.{Sessions}
use smart_gate.Usage.Numbers.{as_i32, as_i64_or_zero, parse_i32}
use smart_gate.Usage.Report.{Attempt, Report, UsageRow}
use smart_gate.Usage.Finish.{Tokens, affinity_of, i32_or, record_session, release_of, tokens_of}

pub record Hooks (F : Type 0) : Type 0 where
  pub metrics : Map Text (EndpointMetric F)
  pub quotas : QuotaLimiter
  pub profiles : Map Text (EndpointProfile F)
  pub sessions : Sessions

abbrev is_none : {A : Type 0} → Option A → Bool
is_none none = true
is_none (some a) = false

-- `{endpoint}:{status}`, and `:{error}` of an attempt that failed.
abbrev attempt_text : Attempt → Text
attempt_text a =
    a.endpoint_id ++ (58 ∷ (a.status ++ or_else (map_option (λ e. 58 ∷ e) a.error_kind) []))

abbrev attempts_text : List Attempt → Text
attempts_text [] = []
attempts_text (a ∷ []) = attempt_text a
attempts_text (a ∷ b ∷ more) = attempt_text a ++ (44 ∷ attempts_text (b ∷ more))

unfoldable pub metadata_values : Report → Tokens → (pricing_source : Text) → Map Text Text
unfolding to_decimal put
metadata_values report tokens pricing_source =
    insert (codes "fallback")
      (if ltb 1 (length report.attempts) then codes "true" else codes "false")
      (insert (codes "attempt_count") (to_decimal (length report.attempts)) (
        insert (codes "attempts") (attempts_text report.attempts) (
          insert (codes "pricing_source") pricing_source (
            insert (codes "usage_confidence") tokens.confidence
              (insert (codes "usage_source") tokens.source report.metadata)))))

abbrev endpoint_of : Report → Text
endpoint_of report = or_else (report.metadata (codes "endpoint_id")) report.selected_endpoint_id

module _ {F : Type 0} ⦃f : Float F⦄ (registry_version : Text) where
  abbrev unpriced : UnitPrice F
  unpriced = record { input_per_1m = none; output_per_1m = none; cache_read_per_1m = none }

  abbrev price_of : Option (EndpointProfile F) → UnitPrice F
  price_of none = unpriced
  price_of (some profile) = profile.price

  abbrev has_price : Option (EndpointProfile F) → Bool
  has_price none = false
  has_price (some profile) = is_priced profile.price

  -- A failed request teaches nothing about the cache.
  unfoldable pub observe_cache :
      Report → Tokens → Map Text (EndpointMetric F) → Map Text (EndpointMetric F)
  unfolding put
  observe_cache report tokens metrics =
      let id = endpoint_of report in
      elim (if is_none report.error_kind then metrics id else none)
        as (λ _. Map Text (EndpointMetric F)) [
          | none ↦ metrics
          | some metric ↦ put Text-discrete metrics id (
              some (
                record_cache_observation metric (as_i64_or_zero tokens.prompt)
                  (as_i64_or_zero (or_else tokens.cache_hit 0))))
        ]

  unfoldable pub usage_row : Hooks F → Report → UsageRow F
  unfolding tokens_of affinity_of metadata_values is_priced calculate_cost input_price output_price
      as_i32 parse_i32
  usage_row hooks report =
      let m = report.metadata in
      let tokens = tokens_of m report.usage in
      let a = affinity_of report in
      let endpoint_id = endpoint_of report in
      let price = price_of (hooks.profiles endpoint_id) in
      let priced = has_price (hooks.profiles endpoint_id) in
      let pricing_source = if priced then codes "configured_endpoint" else codes "unpriced" in
      record {
        org_id = m (codes "org_id");
        project_id = m (codes "project_id");
        key_id = m (codes "key_id");
        virtual_model_id = m (codes "virtual_model_id");
        pool_id = or_option (m (codes "pool_id")) report.pool_id;
        endpoint_id = endpoint_id;
        provider_account_id = m (codes "account_id");
        prompt_tokens = as_i32 tokens.prompt;
        completion_tokens = as_i32 tokens.completion;
        total_tokens = as_i32 tokens.total;
        cache_hit_tokens = tokens.cache_hit;
        cache_write_tokens = tokens.cache_write;
        latency_ms = as_i32 report.latency_ms;
        status_code = if is_none report.error_kind then 200 else 502;
        error_message = report.error_kind;
        metadata = metadata_values report tokens pricing_source;
        estimated_cost =
            calculate_cost price (tokens.prompt % 2 ^ 32) (tokens.completion % 2 ^ 32)
              (map_option (λ v. v % 2 ^ 32) tokens.cache_hit);
        routing_strategy = m (codes "routing_strategy");
        routing_decision = m (codes "routing_decision");
        tool_message_chars = i32_or (pos 0) (m (codes "tool_message_chars"));
        trimmed_chars = i32_or (pos 0) (m (codes "trimmed_chars"));
        usage_source = tokens.source;
        usage_confidence = tokens.confidence;
        pricing_source = pricing_source;
        input_price_snapshot = input_price price;
        output_price_snapshot = output_price price;
        pricing_version = if priced then some registry_version else none;
        session_id = a.session_id;
        turn_index = a.turn_index;
        ttft_ms = map_option as_i32 report.ttft_ms;
        cached_input_tokens = as_i32 (or_else tokens.cache_hit 0);
        affinity_applied = a.applied;
        affinity_hit = a.hit;
        prefix_hash = a.prefix_hash;
        context_epoch = a.context_epoch;
      }

  unfoldable pub on_request_finished : Report → (now later : ℕ) → Hooks F → Hooks F × UsageRow F
  unfolding release_of tokens_of observe_cache record_session usage_row
  on_request_finished report now later hooks = (
    record hooks {
      quotas = release_of report.metadata hooks.quotas;
      metrics = observe_cache report (tokens_of report.metadata report.usage) hooks.metrics;
      sessions = record_session report now later hooks.sessions;
    },
    usage_row hooks report,
  )
