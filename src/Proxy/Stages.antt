-- ===== src/Proxy/Stages.antt =====
-- src/api/proxy.rs: the stages that may answer a request before the data plane sees it.
use smart_gate.Base.{
  Bool, Option, Text, Text-discrete, codes, if◌then◌else◌, max, none, not, some, true, ℕ, ◌&&◌, ◌*◌,
}
use smart_gate.Base.Int.{negsuc, pos, ℤ}
use smart_gate.Base.Map.{Map, empty, put}
use smart_gate.Float.{Float, whole}
use smart_gate.Context.Json.{Value}
use smart_gate.Context.Slim.{SlimConfig, slim_tool_messages}
use smart_gate.Auth.Models.{VirtualModel}
use smart_gate.Budget.{BudgetOutcome, hard, soft}
use smart_gate.Difficulty.Signals.{tool_message_chars}
use smart_gate.Routing.Strategy.{
  Strategy, capability_aware, cost_aware, least_connections, load_aware, other, score_ordered,
}
use smart_gate.Proxy.State.{ModelPool}

-- The name of a strategy, as `canonicalize_strategy` gives it.
unfoldable pub strategy_name : Strategy → Text
strategy_name Strategy.priority = codes "priority"
strategy_name least_connections = codes "least_connections"
strategy_name load_aware = codes "load_aware"
strategy_name cost_aware = codes "cost_aware"
strategy_name capability_aware = codes "capability_aware"
strategy_name score_ordered = codes "score_ordered"
strategy_name (other s) = s

pub record PoolContext (F : Type 0) : Type 0 where
  pub virtual_model : VirtualModel
  pub pool : Option (ModelPool F)
  pub strategy : Text

pub record BudgetGate (F : Type 0) : Type 0 where
  pub outcome : BudgetOutcome F
  pub spent : F
  pub limit : Option F
  pub downshift : Bool

pub record SlimStats : Type 0 where
  pub tool_chars_before : ℕ
  pub slimmed_chars : ℕ
  pub tools_touched : ℕ
  pub dry_run : Bool

-- `max_tool_chars.max(256)`
unfoldable pub tool_cap : ℤ → ℕ
tool_cap (pos n) = max n 256
tool_cap (negsuc n) = 256

-- The sizes are below 2^31, so that the product does not saturate.
abbrev pub slim_config : ℕ → SlimConfig
slim_config cap = record { max_tool_chars = cap; placeholder_after = cap * 4 }

unfoldable pub slim_request_context :
    {F : Type 0} → (ℕ → ℕ) → Value → Bool → Option (ModelPool F) → Value × SlimStats
unfolding tool_message_chars slim_tool_messages tool_cap
slim_request_context head_share payload warm_active pool =
    let skipped : SlimStats = record {
      tool_chars_before = tool_message_chars payload;
      slimmed_chars = 0;
      tools_touched = 0;
      dry_run = true;
    } in
    elim (if warm_active then none else pool) as (λ _. Value × SlimStats) [
      | none ↦ (payload, skipped)
      | some p ↦
          let result =
            slim_tool_messages head_share (slim_config (tool_cap p.max_tool_chars)) payload in
          if p.tool_trim_enabled
          then (
            if not p.tool_trim_dry_run && result.modified then result.body else payload,
            record {
              tool_chars_before = tool_message_chars payload;
              slimmed_chars = result.slimmed_chars;
              tools_touched = result.tools_touched;
              dry_run = p.tool_trim_dry_run;
            },
          )
          else (payload, skipped)
    ]

module _ {F : Type 0} ⦃f : Float F⦄ where
  abbrev pub status_text : BudgetOutcome F → Text
  status_text (soft spent limit) = codes "soft"
  status_text (hard spent limit) = codes "hard"
  status_text _ = codes "ok"

  -- A limit that is not positive gives no amounts.
  abbrev pub positive : Option F → Option F
  positive none = none
  positive (some limit) = if f.lt (whole 0) limit then some limit else none

  unfoldable pub budget_headers : (F → Text) → BudgetOutcome F → F → Option F → Map Text Text
  unfolding put
  budget_headers print outcome spent limit =
      let base =
        put Text-discrete empty (codes "x-smartgate-budget-status") (some (status_text outcome)) in
      elim (positive limit) [
        | none ↦ base
        | some l ↦
            put Text-discrete
              (put Text-discrete base (codes "x-smartgate-budget-used")
                (some (print (f.div spent l))))
              (codes "x-smartgate-budget-remaining")
              (some (print (f.max_of (f.sub l spent) (whole 0))))
      ]
