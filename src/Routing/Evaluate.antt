-- ===== src/Routing/Evaluate.antt =====
-- src/routing/mod.rs: the evaluation of a pool for one request. The trace is kept in the order of
-- the members: its sort needs a hash, and only the log and `explain` read it.
use smart_gate.Base.{
  Bool, List, Option, Text, Text-discrete, [], codes, false, if◌then◌else◌, ite, leb, length, map,
  none, not, some, suc, true, zero, ℕ, ◌&&◌, ◌/◌, ◌∷◌,
}
use smart_gate.Base.Map.{Map, empty, or_else, put}
use smart_gate.Float.{Float, whole}
use smart_gate.Pricing.{EndpointProfile, is_priced}
use smart_gate.Health.{EndpointMetric}
use smart_gate.Routing.Cost.{expected_cost}
use smart_gate.Routing.Strategy.{PoolEndpointMember, Strategy, canonicalize, capability_qualified}
use smart_gate.Routing.Candidate.{
  CandidateTrace, EndpointSignal, Provider, Request, RouteHint, capability_or, is_capability_aware,
  signal_of, trace_of,
}

abbrev pub cache_min_samples : ℕ
cache_min_samples = 8

module _ {F : Type 0} ⦃f : Float F⦄ where
  abbrev pub affinity_boost : F
  affinity_boost = whole 10_000

  abbrev pub cache_collapsed_ratio : F
  cache_collapsed_ratio = f.decimal 1 1

  abbrev pub cache_healthy_ratio : F
  cache_healthy_ratio = f.decimal 5 1

  unfoldable pub max_capability : Provider F → F → List PoolEndpointMember → F
  max_capability p top [] = top
  max_capability p top (m ∷ ms) =
      max_capability p (f.max_of top (capability_or (f.decimal 5 1) (p.profiles m.endpoint_id))) ms

  abbrev pub cost_if_priced : Option (EndpointProfile F) → ℕ → ℕ → List F → List F
  cost_if_priced none input output costs = costs
  cost_if_priced (some q) input output costs =
      if is_priced q.price then expected_cost q input output (whole 0) ∷ costs else costs

  unfoldable pub priced_costs : Provider F → ℕ → ℕ → List PoolEndpointMember → List F
  priced_costs p input output [] = []
  priced_costs p input output (m ∷ ms) =
      cost_if_priced (p.profiles m.endpoint_id) input output (priced_costs p input output ms)

  unfoldable pub insert_cost : F → List F → List F
  insert_cost c [] = c ∷ []
  insert_cost c (d ∷ ds) = let rest = insert_cost c ds in if f.le c d then c ∷ d ∷ ds else d ∷ rest

  -- `sort_by(f64::total_cmp)`, for costs that are numbers.
  unfoldable pub sort_costs : List F → List F
  unfolding insert_cost
  sort_costs [] = []
  sort_costs (c ∷ cs) = insert_cost c (sort_costs cs)

  abbrev pub nth : List F → ℕ → F
  nth [] n = f.largest
  nth (c ∷ cs) zero = c
  nth (c ∷ cs) (suc n) = nth cs n

  unfoldable pub median : List F → F
  unfolding sort_costs
  median costs = nth (sort_costs costs) (length costs / 2)

  unfoldable pub put_signals :
      Provider F
      → Request F
      → List PoolEndpointMember
      → Map Text (EndpointSignal F)
      → Map Text (EndpointSignal F)
  unfolding signal_of
  put_signals p r [] signals = signals
  put_signals p r (m ∷ ms) signals =
      put_signals p r ms (put Text-discrete signals m.endpoint_id (some (signal_of p r m)))

  -- The cache hit ratio of an endpoint that was observed often enough.
  abbrev pub trusted_ratio : Option (EndpointMetric F) → Option F
  trusted_ratio none = none
  trusted_ratio (some m) =
      if leb cache_min_samples m.cache_samples then some m.cache_hit_ratio_ema else none

  -- `fold(f64::NAN, f64::max)`: the NaN of the start is `none`.
  abbrev pub max_ratio : Option F → Option F → Option F
  max_ratio best none = best
  max_ratio none (some r) = some r
  max_ratio (some b) (some r) = some (f.max_of b r)

  unfoldable pub best_other_ratio :
      Provider F → Text → Option F → List PoolEndpointMember → Option F
  best_other_ratio p sticky best [] = best
  best_other_ratio p sticky best (m ∷ ms) =
      best_other_ratio p sticky
        (ite (Text-discrete m.endpoint_id sticky) best
          (max_ratio best (trusted_ratio (p.metrics m.endpoint_id))))
        ms

  abbrev pub collapsed : Option F → Option F → Bool
  collapsed (some ratio) (some best) =
      f.lt ratio cache_collapsed_ratio && f.lt cache_healthy_ratio best
  collapsed none best = false
  collapsed (some ratio) none = false

  unfoldable pub sticky_is_capable : Provider F → Request F → Text → Bool
  sticky_is_capable p r sticky =
      if is_capability_aware r.strategy
      then capability_qualified (capability_or (whole 0) (p.profiles sticky)) r.difficulty
          r.max_pool_capability
      else true

  abbrev pub boosted : EndpointSignal F → EndpointSignal F
  boosted s =
      if s.excluded
      then s
      else record s { score = some (f.add (or_else s.score (whole 0)) affinity_boost) }

  abbrev pub boost :
      Map Text (EndpointSignal F) → Text → Option (EndpointSignal F) → Map Text (EndpointSignal F)
  boost signals sticky none = signals
  boost signals sticky (some s) = put Text-discrete signals sticky (some (boosted s))

  abbrev pub keep_sticky :
      Provider F
      → Request F
      → List PoolEndpointMember
      → Option Text
      → Map Text (EndpointSignal F)
      → Map Text (EndpointSignal F)
  keep_sticky p r members none signals = signals
  keep_sticky p r members (some sticky) signals =
      if sticky_is_capable p r sticky
        && not
            (collapsed (trusted_ratio (p.metrics sticky)) (best_other_ratio p sticky none members))
      then boost signals sticky (signals sticky)
      else signals

  -- The request of a hint; without one, the sizes that costs are ranked by.
  unfoldable pub request_of :
      Provider F → Strategy → List PoolEndpointMember → Option (RouteHint F) → ℕ → Request F
  unfolding max_capability median priced_costs
  request_of p st members hint now =
      let top = if is_capability_aware st then max_capability p (whole 0) members else whole 1 in
      elim hint as (λ _. Request F) [
        | none ↦ record {
          strategy = st;
          input_tokens = 1000;
          output_tokens = 512;
          difficulty = f.decimal 2 1;
          has_tools = false;
          downshift = false;
          affinity_enabled = false;
          sticky_endpoint_id = none;
          max_pool_capability = top;
          median_cost = median (priced_costs p 1000 512 members);
          now = now;
        }
        | some h ↦ record {
          strategy = st;
          input_tokens = h.input_tokens;
          output_tokens = h.output_tokens;
          difficulty = h.difficulty;
          has_tools = h.has_tools;
          downshift = h.downshift;
          affinity_enabled = h.affinity_enabled;
          sticky_endpoint_id = h.sticky_endpoint_id;
          max_pool_capability = top;
          median_cost = median (priced_costs p h.input_tokens h.output_tokens members);
          now = now;
        }
      ]

  unfoldable pub signals_of :
      Provider F → Request F → List PoolEndpointMember → Map Text (EndpointSignal F)
  unfolding put_signals sticky_is_capable best_other_ratio
  signals_of p r members =
      let signals = put_signals p r members empty in
      if r.affinity_enabled then keep_sticky p r members r.sticky_endpoint_id signals else signals

  abbrev pub first_of : Option (RouteHint F) → Option (RouteHint F) → Option (RouteHint F)
  first_of (some h) rest = some h
  first_of none rest = rest

  -- `request_hint` is the caller's, `task` the one of the task, `shared` the last one set.
  unfoldable pub evaluate_pool :
      Provider F
      → Text
      → (request_hint task shared : Option (RouteHint F)) → ℕ
      → Map Text (EndpointSignal F) × List (CandidateTrace F)
  unfolding signals_of request_of trace_of canonicalize
  evaluate_pool p pool_id request_hint task shared now =
      let st = canonicalize (or_else (p.pools pool_id) (codes "round_robin")) in
      let hint = first_of request_hint (first_of task (first_of (p.hints pool_id) shared)) in
      elim (p.pool_members pool_id)
        as (λ _. Map Text (EndpointSignal F) × List (CandidateTrace F)) [
          | none ↦ (empty, [])
          | some members ↦
              let r = request_of p st members hint now in
              (signals_of p r members, map (trace_of p r) members)
        ]
