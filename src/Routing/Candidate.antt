-- ===== src/Routing/Candidate.antt =====
-- src/routing/mod.rs: what is said to the data plane of one member of a pool. Times are numbers of
-- nanoseconds.
use smart_gate.Routing.Cost.{expected_cost}
use smart_gate.Base.{
  Bool, List, Option, Text, false, if◌then◌else◌, ltb, none, not, some, true, ℕ, ◌&&◌, ◌/◌,
}
use smart_gate.Base.Map.{Map, or_else}
use smart_gate.Base.Int.{pos}
use smart_gate.Float.{Float, whole}
use smart_gate.Pricing.{EndpointProfile, default_profile, is_priced}
use smart_gate.Health.{EndpointMetric, nanos}
use smart_gate.Routing.Strategy.{
  PoolEndpointMember, ScoreInput, Strategy, capability_aware, capability_qualified,
  hard_task_difficulty, score,
}

pub record RouteHint (F : Type 0) : Type 0 where
  pub input_tokens : ℕ
  pub output_tokens : ℕ
  pub has_tools : Bool
  pub difficulty : F
  pub downshift : Bool
  pub pool_id : Text
  pub affinity_enabled : Bool
  pub sticky_endpoint_id : Option Text

pub record EndpointSignal (F : Type 0) : Type 0 where
  pub score : Option F
  pub excluded : Bool
  pub cooldown_until : Option ℕ
  pub recent_error_rate : Option F

pub data ExclusionReason : Type 0 where
  not_excluded health tools_unsupported budget_downshift : ExclusionReason

pub record CandidateTrace (F : Type 0) : Type 0 where
  pub endpoint_id : Text
  pub capability : F
  pub expected_cost : F
  pub score : Option F
  pub excluded : Bool
  pub exclusion_reason : ExclusionReason

pub record Provider (F : Type 0) : Type 0 where
  pub metrics : Map Text (EndpointMetric F)
  pub pools : Map Text Text
  pub pool_members : Map Text (List PoolEndpointMember)
  pub profiles : Map Text (EndpointProfile F)
  pub hints : Map Text (RouteHint F)

-- What the members of a pool are judged by.
pub record Request (F : Type 0) : Type 0 where
  pub strategy : Strategy
  pub input_tokens : ℕ
  pub output_tokens : ℕ
  pub difficulty : F
  pub has_tools : Bool
  pub downshift : Bool
  pub affinity_enabled : Bool
  pub sticky_endpoint_id : Option Text
  pub max_pool_capability : F
  pub median_cost : F
  pub now : ℕ

abbrev pub is_capability_aware : Strategy → Bool
is_capability_aware capability_aware = true
is_capability_aware _ = false

abbrev pub is_false : Option Bool → Bool
is_false none = false
is_false (some b) = not b

abbrev pub is_excluded : ExclusionReason → Bool
is_excluded not_excluded = false
is_excluded health = true
is_excluded tools_unsupported = true
is_excluded budget_downshift = true

-- `m.cooldown_until.map(|until| until > now).unwrap_or(false)`
abbrev pub cooling : ℕ → Option ℕ → Bool
cooling now none = false
cooling now (some until) = ltb now until

-- The end of a cooldown that still lasts, in whole seconds.
abbrev pub cooldown_left : ℕ → Option ℕ → Option ℕ
cooldown_left now none = none
cooldown_left now (some until) = if ltb now until then some (until / nanos) else none

module _ {F : Type 0} ⦃f : Float F⦄ where
  abbrev pub capability_or : F → Option (EndpointProfile F) → F
  capability_or d none = d
  capability_or d (some p) = p.capability_score

  -- The members that the budget downshift may not drop.
  unfoldable pub budget_protected : Provider F → Request F → Text → Bool
  budget_protected p r id =
      is_capability_aware r.strategy
      && f.le hard_task_difficulty r.difficulty
      && capability_qualified (capability_or (f.decimal 5 1) (p.profiles id)) r.difficulty
          r.max_pool_capability

  unfoldable pub error_rate_of : Option (EndpointMetric F) → Option F
  error_rate_of none = none
  error_rate_of (some m) =
      if ltb 0 m.total_requests
      then some (f.div (f.of_nat m.total_errors) (f.of_nat m.total_requests))
      else none

  abbrev pub cooldown_of : Option (EndpointMetric F) → Option ℕ
  cooldown_of none = none
  cooldown_of (some m) = m.cooldown_until

  abbrev pub active_of : Option (EndpointMetric F) → ℕ
  active_of none = 0
  active_of (some m) = m.active_requests

  abbrev pub success_latency_of : Option (EndpointMetric F) → F
  success_latency_of none = whole 0
  success_latency_of (some m) = m.ema_success_latency_ms

  abbrev pub latency_of : Option (EndpointMetric F) → F
  latency_of none = whole 0
  latency_of (some m) = m.ema_latency_ms

  abbrev pub profile_of : Provider F → Text → EndpointProfile F
  profile_of p id = or_else (p.profiles id) default_profile

  unfoldable pub base_cost : Provider F → Request F → Text → F
  unfolding error_rate_of
  base_cost p r id =
      expected_cost (profile_of p id) r.input_tokens r.output_tokens
        (or_else (error_rate_of (p.metrics id)) (whole 0))

  unfoldable pub exclusion : Provider F → Request F → Text → ExclusionReason
  unfolding budget_protected base_cost
  exclusion p r id =
      let profile = profile_of p id in
      if r.downshift
        && is_priced profile.price
        && f.lt (f.mul r.median_cost (f.decimal 105 2)) (base_cost p r id)
        && not (budget_protected p r id)
      then budget_downshift
      else if r.has_tools && is_false profile.supports_tools
      then tools_unsupported
      else if cooling r.now (cooldown_of (p.metrics id))
      then health
      else not_excluded

  unfoldable pub score_input : Provider F → Request F → PoolEndpointMember → ScoreInput F
  unfolding error_rate_of
  score_input p r member =
      let metric = p.metrics member.endpoint_id in
      record {
        member = member;
        profile = profile_of p member.endpoint_id;
        active = pos (active_of metric);
        success_latency_ms = success_latency_of metric;
        all_latency_ms = latency_of metric;
        error_rate = or_else (error_rate_of metric) (whole 0);
        input_tokens = r.input_tokens;
        output_tokens = r.output_tokens;
        difficulty = r.difficulty;
        max_pool_capability = r.max_pool_capability;
        agentic = r.affinity_enabled;
      }

  -- A strategy that gives no score gives 1 under session affinity.
  abbrev pub or_one : Bool → Option F → Option F
  or_one affinity (some s) = some s
  or_one affinity none = if affinity then some (whole 1) else none

  unfoldable pub endpoint_score : Provider F → Request F → PoolEndpointMember → Option F
  unfolding score_input
  endpoint_score p r member = or_one r.affinity_enabled (score r.strategy (score_input p r member))

  unfoldable pub signal_of : Provider F → Request F → PoolEndpointMember → EndpointSignal F
  unfolding exclusion endpoint_score error_rate_of
  signal_of p r member =
      let metric = p.metrics member.endpoint_id in
      record {
        score = endpoint_score p r member;
        excluded = is_excluded (exclusion p r member.endpoint_id);
        cooldown_until = cooldown_left r.now (cooldown_of metric);
        recent_error_rate = error_rate_of metric;
      }

  unfoldable pub trace_of : Provider F → Request F → PoolEndpointMember → CandidateTrace F
  unfolding exclusion endpoint_score base_cost
  trace_of p r member = record {
    endpoint_id = member.endpoint_id;
    capability = (profile_of p member.endpoint_id).capability_score;
    expected_cost = base_cost p r member.endpoint_id;
    score = endpoint_score p r member;
    excluded = is_excluded (exclusion p r member.endpoint_id);
    exclusion_reason = exclusion p r member.endpoint_id;
  }
