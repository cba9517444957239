-- ===== src/Usage/Report.antt =====
-- src/usage/mod.rs: the report of a finished request, as the data plane gives it, and the row that is
-- kept of it. `{:?}` of a status or an error is a text here.
use smart_gate.Base.{Bool, List, Option, Text, ℕ}
use smart_gate.Base.Int.{ℤ}
use smart_gate.Base.Map.{Map}

pub record Usage : Type 0 where
  pub input_tokens : Option ℕ
  pub output_tokens : Option ℕ
  pub total_tokens : Option ℕ
  pub cache_hit_tokens : Option ℕ
  pub cache_write_tokens : Option ℕ

pub record Attempt : Type 0 where
  pub endpoint_id : Text
  pub status : Text
  pub error_kind : Option Text

pub record Report : Type 0 where
  pub metadata : Map Text Text
  pub selected_endpoint_id : Text
  pub pool_id : Option Text
  pub usage : Option Usage
  pub error_kind : Option Text
  pub attempts : List Attempt
  pub latency_ms : ℕ
  pub ttft_ms : Option ℕ

-- The columns of `usage_logs`, but for the id of the row. `metadata` is kept as a map, which the
-- code prints as JSON.
pub record UsageRow (F : Type 0) : Type 0 where
  pub org_id : Option Text
  pub project_id : Option Text
  pub key_id : Option Text
  pub virtual_model_id : Option Text
  pub pool_id : Option Text
  pub endpoint_id : Text
  pub provider_account_id : Option Text
  pub prompt_tokens : ℤ
  pub completion_tokens : ℤ
  pub total_tokens : ℤ
  pub cache_hit_tokens : Option ℕ
  pub cache_write_tokens : Option ℕ
  pub latency_ms : ℤ
  pub status_code : ℕ
  pub error_message : Option Text
  pub metadata : Map Text Text
  pub estimated_cost : F
  pub routing_strategy : Option Text
  pub routing_decision : Option Text
  pub tool_message_chars : ℤ
  pub trimmed_chars : ℤ
  pub usage_source : Text
  pub usage_confidence : Text
  pub pricing_source : Text
  pub input_price_snapshot : F
  pub output_price_snapshot : F
  pub pricing_version : Option Text
  pub session_id : Option Text
  pub turn_index : Option ℤ
  pub ttft_ms : Option ℤ
  pub cached_input_tokens : ℤ
  pub affinity_applied : Bool
  pub affinity_hit : Bool
  pub prefix_hash : Option Text
  pub context_epoch : ℤ
