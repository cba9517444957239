-- ===== src/Routing/Strategy.antt =====
-- src/routing/strategy.rs: the score of an endpoint under each strategy; higher is preferred.
use smart_gate.Base.{
  Bool, List, Option, Text, Text-discrete, [], codes, false, if◌then◌else◌, ite, none, some, suc,
  true, ℕ, ◌∷◌, ◌||◌,
}
use smart_gate.Base.Int.{negsuc, pos, ℤ}
use smart_gate.Float.{Float, clamp, whole}
use smart_gate.Pricing.{
  BillingTier, EndpointProfile, free_tier, is_priced, pay_as_you_go, subscription_rolling,
}
use smart_gate.Routing.Cost.{effective_marginal_cost}

-- The canonical names; any other is left to the data plane.
pub data Strategy : Type 0 where
  priority least_connections load_aware cost_aware capability_aware : Strategy
  score_ordered : Strategy
  other : Text → Strategy

abbrev is_name : Text → List Text → Bool
is_name s [] = false
is_name s (n ∷ ns) = ite (Text-discrete s n) true (is_name s ns)

-- A name, its aliases among the names, and the strategy.
abbrev pick : Text → List Text → Strategy → Strategy → Strategy
pick s names st rest = if is_name s names then st else rest

unfoldable pub canonicalize : Text → Strategy
canonicalize s =
    pick s
      (codes "latency" ∷ codes "latency_based" ∷ codes "stream_aware" ∷ codes "load_aware" ∷ [])
      load_aware
      (pick s (codes "lowest_price" ∷ codes "balanced_cost" ∷ codes "cost_aware" ∷ []) cost_aware (
        pick s (codes "smart" ∷ codes "capability" ∷ codes "capability_aware" ∷ []) capability_aware
          (pick s (codes "least_conn" ∷ codes "least_connections" ∷ []) least_connections (
            pick s (codes "priority" ∷ []) priority
              (pick s (codes "score_ordered" ∷ []) score_ordered (other s))))))

unfoldable pub uses_score_order : Strategy → Bool
uses_score_order (other s) = false
uses_score_order _ = true

pub record PoolEndpointMember : Type 0 where
  pub endpoint_id : Text
  pub priority : ℤ
  pub weight : ℤ

pub record ScoreInput (F : Type 0) : Type 0 where
  pub member : PoolEndpointMember
  pub profile : EndpointProfile F
  pub active : ℤ
  pub success_latency_ms : F
  pub all_latency_ms : F
  pub error_rate : F
  pub input_tokens : ℕ
  pub output_tokens : ℕ
  pub difficulty : F
  pub max_pool_capability : F
  pub agentic : Bool

abbrev is_free : BillingTier → Bool
is_free free_tier = true
is_free subscription_rolling = false
is_free pay_as_you_go = false

module _ {F : Type 0} ⦃f : Float F⦄ where
  abbrev pub unpriced_score : F
  unpriced_score = f.decimal 1 12

  abbrev pub capability_tier_scale : F
  capability_tier_scale = whole 1_000_000_000

  abbrev pub capability_rank_scale : F
  capability_rank_scale = whole 1_000_000

  abbrev pub family_rank_scale : F
  family_rank_scale = whole 1_000

  abbrev pub cost_term_max : F
  cost_term_max = whole 999

  abbrev pub hard_task_difficulty : F
  hard_task_difficulty = f.decimal 55 2

  abbrev pub capability_top_tolerance : F
  capability_top_tolerance = f.decimal 4 2

  -- `i32 as f64`
  unfoldable pub of_int : ℤ → F
  of_int (pos n) = f.of_nat n
  of_int (negsuc n) = f.sub (whole 0) (f.of_nat (suc n))

  unfoldable pub required_capability : F → F
  required_capability difficulty =
      f.add (f.decimal 35 2) (f.mul (f.decimal 55 2) (clamp difficulty (whole 0) (whole 1)))

  unfoldable pub capability_qualified : F → F → F → Bool
  unfolding required_capability
  capability_qualified capability difficulty max_pool_capability =
      if f.le hard_task_difficulty difficulty
      then f.le (f.sub max_pool_capability capability_top_tolerance) capability
      else f.le (required_capability difficulty) capability

  unfoldable pub latency_score : ScoreInput F → F → F
  unfolding of_int
  latency_score i err =
      let latency =
        if f.lt (whole 0) i.success_latency_ms
        then i.success_latency_ms
        else if f.lt (whole 0) i.all_latency_ms
        then i.all_latency_ms
        else whole 0 in
      let lat_score = if f.lt (whole 0) latency then f.div (whole 1000) latency else whole 1 in
      let load_penalty = f.div (whole 1) (f.add (whole 1) (of_int i.active)) in
      f.mul (f.mul lat_score load_penalty)
        (f.max_of (f.sub (whole 1) (f.mul (f.decimal 5 1) err)) (f.decimal 1 1))

  unfoldable pub counts_as_priced : EndpointProfile F → Bool
  unfolding is_priced
  counts_as_priced p = is_priced p.price || is_free p.billing_tier

  unfoldable pub cost_score : ScoreInput F → F → F
  unfolding counts_as_priced
  cost_score i base_cost =
      if counts_as_priced i.profile
      then f.div (whole 1) (f.add base_cost (f.decimal 1 12))
      else unpriced_score

  -- 2 for a capable endpoint, 1 for one that is nearly so, else 0.
  unfoldable pub tier : ScoreInput F → ℕ
  tier i =
      if capability_qualified i.profile.capability_score i.difficulty i.max_pool_capability
      then 2
      else if f.le (f.sub (required_capability i.difficulty) (f.decimal 10 2))
          i.profile.capability_score
      then 1
      else 0

  abbrev pub rank_of : F → F
  rank_of c = f.round (f.mul (clamp c (whole 0) (whole 1)) (whole 100))

  unfoldable pub normalized_cost : ScoreInput F → F → F
  unfolding counts_as_priced
  normalized_cost i base_cost =
      if counts_as_priced i.profile
      then clamp (f.div (whole 1) (f.add base_cost (f.decimal 1 6))) (whole 0) cost_term_max
      else unpriced_score

  -- A hard task: tier, then configured capability, then model family, then cost.
  unfoldable pub hard_score : ScoreInput F → F → F
  hard_score i base_cost =
      f.add
        (f.add
          (f.add (f.mul (whole (tier i)) capability_tier_scale)
            (f.mul (rank_of i.profile.capability_score) capability_rank_scale))
          (f.mul (rank_of i.profile.family_capability_score) family_rank_scale))
        (normalized_cost i base_cost)

  unfoldable pub easy_cost : ScoreInput F → F → F
  unfolding counts_as_priced
  easy_cost i base_cost =
      if counts_as_priced i.profile
      then f.min_of (f.div (whole 1) (f.add base_cost (f.decimal 1 12)))
          (f.sub capability_tier_scale (whole 1_000_000))
      else unpriced_score

  -- An easy task: tier, then cost, with capability to break ties.
  unfoldable pub easy_score : ScoreInput F → F → F
  easy_score i base_cost =
      f.add (f.add (f.mul (whole (tier i)) capability_tier_scale) (easy_cost i base_cost))
        (f.mul (clamp i.profile.capability_score (whole 0) (whole 1)) (whole 10))

  -- The cost that `score` ranks by.
  abbrev pub base_cost_of : ScoreInput F → F
  base_cost_of i =
      effective_marginal_cost i.profile i.input_tokens i.output_tokens
        (clamp i.error_rate (whole 0) (f.decimal 95 2)) i.agentic

  unfoldable pub score : Strategy → ScoreInput F → Option F
  score st i =
      let err = clamp i.error_rate (whole 0) (f.decimal 95 2) in
      let base_cost = base_cost_of i in
      elim st [
        | priority ↦
            some (f.add (f.mul (of_int i.member.priority) (whole 1000)) (of_int i.member.weight))
        | least_connections ↦ some (f.div (whole 1) (f.add (whole 1) (of_int i.active)))
        | load_aware ↦ some (latency_score i err)
        | cost_aware ↦ some (cost_score i base_cost)
        | capability_aware ↦ some (
            if f.le hard_task_difficulty i.difficulty
            then hard_score i base_cost
            else easy_score i base_cost)
        | score_ordered ↦ none
        | other s ↦ none
      ]
