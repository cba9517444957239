-- ===== src/Proxy/Decision.antt =====
-- src/api/proxy.rs: what is read of a prompt, and the routing decision that is recorded.
use smart_gate.Base.{
  Bool, List, Option, Text, [], codes, false, map_option, none, some, true, ℕ, ◌++◌, ◌∷◌,
}
use smart_gate.Base.Map.{or_else}
use smart_gate.Float.{Float}
use smart_gate.Context.Json.{Items, Value, arr, bool, cons, end, field, nil, null, obj, str, uint}
use smart_gate.Difficulty.Estimate.{
  estimate_tokens_from_text, heuristic_difficulty, request_has_tools,
}
use smart_gate.Difficulty.Focus.{extract_openai_prompt_text}
use smart_gate.Difficulty.Signals.{expected_output_tokens, extract_complexity_signals}
use smart_gate.Session.Hash.{format_prefix_hash}
use smart_gate.Proxy.State.{ChatProtocol, anthropic, open_ai}
use smart_gate.Proxy.Stages.{BudgetGate, SlimStats}
use smart_gate.Proxy.Judge.{DifficultyTier, difficulty_tier, tier_score, tier_text, tier_upper}
use smart_gate.Proxy.Affinity.{WarmAffinity}

pub record RequestSignals (F : Type 0) : Type 0 where
  pub prompt_text : Text
  pub input_tokens : ℕ
  pub output_tokens : ℕ
  pub difficulty : F
  pub has_tools : Bool
  pub signals : List Text

-- The difficulty that is routed by, and where it is from.
pub record Judged (F : Type 0) : Type 0 where
  pub difficulty : F
  pub source : Text
  pub judge_used : Bool
  pub signals : List Text

module _ {F : Type 0} ⦃f : Float F⦄ where
  unfoldable pub request_signals : (Value → Option Text) → Value → RequestSignals F
  unfolding extract_openai_prompt_text estimate_tokens_from_text expected_output_tokens
      heuristic_difficulty request_has_tools extract_complexity_signals
  request_signals to_string payload =
      let prompt_text = extract_openai_prompt_text to_string payload in
      record {
        prompt_text = prompt_text;
        input_tokens = estimate_tokens_from_text prompt_text;
        output_tokens = expected_output_tokens payload 512;
        difficulty = heuristic_difficulty to_string payload;
        has_tools = request_has_tools payload;
        signals = extract_complexity_signals to_string payload;
      }

  -- What the judge's answer changes.
  unfoldable pub judged_by : RequestSignals F → Option DifficultyTier → Judged F
  unfolding tier_score tier_upper
  judged_by r none = record {
    difficulty = r.difficulty;
    source = codes "heuristic";
    judge_used = false;
    signals = r.signals;
  }
  judged_by r (some tier) = record {
    difficulty = tier_score tier;
    source = codes "judge";
    judge_used = true;
    signals = r.signals ++ (codes "Auxiliary Judge: " ++ tier_upper tier) ∷ [];
  }

abbrev protocol_text : ChatProtocol → Text
protocol_text anthropic = codes "anthropic_messages"
protocol_text open_ai = codes "openai_chat"

abbrev pub texts_value : List Text → Items
texts_value [] = nil
texts_value (t ∷ ts) = cons (str t) (texts_value ts)

abbrev values : List Value → Items
values [] = nil
values (v ∷ vs) = cons v (values vs)

abbrev pub or_null : Option Value → Value
or_null v = or_else v null

abbrev str_or_null : Option Text → Value
str_or_null t = or_null (map_option str t)

abbrev slim_value : SlimStats → (warm_active : Bool) → Value
slim_value s warm = obj (
    field (codes "tool_chars_before") (uint s.tool_chars_before) (
      field (codes "slimmed_chars") (uint s.slimmed_chars) (
        field (codes "tools_touched") (uint s.tools_touched) (
          field (codes "dry_run") (bool s.dry_run)
            (field (codes "session_id_required") (bool warm) end)))))

abbrev warming_value : WarmAffinity → Value
warming_value a = obj (
    field (codes "session_id") (str_or_null a.session_id) (
      field (codes "context_epoch") (uint a.context_epoch) (
        field (codes "turn_index") (or_null (map_option uint a.turn_index)) (
          field (codes "prefix_hash") (str_or_null (map_option format_prefix_hash a.prefix_hash)) (
            field (codes "affinity_enabled") (bool a.affinity_enabled) (
              field (codes "affinity_applied") (bool a.affinity_applied) (
                field (codes "affinity_hit") (bool false) (
                  field (codes "sticky_endpoint_id") (str_or_null a.sticky_endpoint_id) (
                    field (codes "member_count") (uint a.member_count) (
                      field (codes "prefix_stable") (or_null (map_option bool a.is_prefix_stable))
                        end))))))))))

module _ {F : Type 0} ⦃f : Float F⦄ (float_value : F → Value) where
  unfoldable pub routing_decision :
      ChatProtocol
      → (strategy : Text) → RequestSignals F
      → Judged F
      → (prompt_preview : Text) → BudgetGate F
      → List Value
      → SlimStats
      → WarmAffinity
      → (warm_active : Bool) → Value
  unfolding difficulty_tier tier_text format_prefix_hash
  routing_decision protocol strategy r j preview gate candidates slim affinity warm = obj (
      field (codes "product") (str (codes "smartgate")) (
        field (codes "protocol") (str (protocol_text protocol)) (
          field (codes "strategy") (str strategy) (
            field (codes "input_tokens_est") (uint r.input_tokens) (
              field (codes "output_tokens_est") (uint r.output_tokens) (
                field (codes "difficulty") (float_value j.difficulty) (
                  field (codes "difficulty_tier") (str (tier_text (difficulty_tier j.difficulty))) (
                    field (codes "difficulty_source") (str j.source) (
                      field (codes "judge_used") (bool j.judge_used) (
                        field (codes "prompt_preview") (str preview) (
                          field (codes "signals") (arr (texts_value j.signals)) (
                            field (codes "has_tools") (bool r.has_tools) (
                              field (codes "downshift") (bool gate.downshift) (
                                field (codes "spent_today") (float_value gate.spent) (
                                  field (codes "daily_limit")
                                    (or_null (map_option float_value gate.limit))
                                    (field (codes "candidates") (arr (values candidates)) (
                                      field (codes "context_slim") (slim_value slim warm) (
                                        field (codes "warming") (warming_value affinity)
                                          end))))))))))))))))))
