-- ===== src/Routing/Explain.antt =====
-- src/routing/mod.rs: `explain`, the candidates of a request as JSON. Their order has a random part,
-- so that the sort of the trace is a parameter, as is the JSON of an `f64`.
use smart_gate.Base.{List, Option, Text, [], codes, if◌then◌else◌, ltb, map, none, some, ℕ}
use smart_gate.Float.{Float, whole}
use smart_gate.Health.{EndpointMetric}
use smart_gate.Context.Json.{Value, bool, end, field, null, obj, str}
use smart_gate.Routing.Candidate.{
  CandidateTrace, ExclusionReason, Provider, RouteHint, budget_downshift, health, not_excluded,
  tools_unsupported,
}
use smart_gate.Routing.Evaluate.{evaluate_pool}

unfoldable pub reason_text : ExclusionReason → Text
reason_text not_excluded = []
reason_text health = codes "health"
reason_text tools_unsupported = codes "tools_unsupported"
reason_text budget_downshift = codes "budget_downshift"

module _ {F : Type 0} ⦃f : Float F⦄ (float_value : F → Value) where
  abbrev option_value : Option F → Value
  option_value none = null
  option_value (some x) = float_value x

  -- To three decimal places, once the cache was observed.
  abbrev ratio_of : Option (EndpointMetric F) → Option F
  ratio_of none = none
  ratio_of (some m) =
      if ltb 0 m.cache_samples
      then some (f.div (f.round (f.mul m.cache_hit_ratio_ema (whole 1000))) (whole 1000))
      else none

  unfoldable pub candidate_json : Provider F → CandidateTrace F → Value
  unfolding reason_text
  candidate_json p t = obj (
      field (codes "endpoint_id") (str t.endpoint_id) (
        field (codes "capability") (float_value t.capability) (
          field (codes "expected_cost") (float_value t.expected_cost) (
            field (codes "score") (option_value t.score) (
              field (codes "excluded") (bool t.excluded) (
                field (codes "exclusion_reason") (str (reason_text t.exclusion_reason)) (
                  field (codes "cache_hit_ratio")
                    (option_value (ratio_of (p.metrics t.endpoint_id))) end)))))))

  unfoldable pub explain :
      (sort_trace : List (CandidateTrace F) → List (CandidateTrace F))
      → Provider F
      → (pool_id : Text) → RouteHint F
      → (now : ℕ) → List Value
  unfolding candidate_json evaluate_pool
  explain sort_trace p pool_id hint now =
      map (candidate_json p) (sort_trace (evaluate_pool p pool_id (some hint) none none now).1)
