-- ===== src/Routing/Cost.antt =====
-- src/routing/strategy.rs: the expected cost of a request on an endpoint.
use smart_gate.Base.{Bool, Option, if◌then◌else◌, leb, none, some, ℕ, ◌&&◌, ◌-◌}
use smart_gate.Base.Map.{or_else}
use smart_gate.Float.{Float, clamp, whole}
use smart_gate.Pricing.{
  BillingTier, EndpointProfile, QuotaWindowStatus, charge, estimate_cost, free_tier, input_price,
  is_priced, output_price, pay_as_you_go, subscription_rolling,
}

module _ {F : Type 0} ⦃f : Float F⦄ where
  abbrev error_factor : F → F
  error_factor error_rate = f.add (whole 1) (clamp error_rate (whole 0) (f.decimal 95 2))

  unfoldable pub expected_cost : EndpointProfile F → ℕ → ℕ → F → F
  unfolding is_priced estimate_cost
  expected_cost p input output error_rate =
      if is_priced p.price
      then f.mul (estimate_cost p.price input output) (error_factor error_rate)
      else f.div f.largest (whole 8)

  abbrev pub agentic_cache_fraction : F
  agentic_cache_fraction = f.decimal 7 1

  unfoldable pub expected_agentic_cost : EndpointProfile F → ℕ → ℕ → F → F
  unfolding is_priced charge input_price output_price
  expected_agentic_cost p input output error_rate =
      let cached = f.to_u32 (f.mul (f.of_nat input) agentic_cache_fraction) in
      let fresh = input - cached in
      let price = input_price p.price in
      let cache_price = or_else p.price.cache_read_per_1m (f.mul price (f.decimal 1 1)) in
      if is_priced p.price
      then f.mul
          (f.add (f.add (charge fresh price) (charge cached cache_price))
            (charge output (output_price p.price)))
          (error_factor error_rate)
      else f.div f.largest (whole 8)

  -- How soon the window resets, as a factor, while less than half of it is used.
  unfoldable pub urgency : F → Option ℕ → F
  urgency u none = whole 1
  urgency u (some rem) =
      if f.lt u (f.decimal 50 2) && leb rem 3600
      then clamp (f.div (f.of_nat rem) (whole 3600)) (f.decimal 2 1) (whole 1)
      else whole 1

  unfoldable pub window_factors : Option (QuotaWindowStatus F) → F × F
  unfolding urgency
  window_factors none = (whole 0, whole 1)
  window_factors (some q) =
      let u = clamp q.utilization (whole 0) (whole 1) in (u, urgency u q.reset_in_secs)

  unfoldable pub watermark : F → F
  watermark utilization =
      let excess = f.div (f.sub utilization (f.decimal 80 2)) (f.decimal 15 2) in
      if f.le (f.decimal 80 2) utilization
      then f.add (whole 1) (f.mul (f.mul (whole 10) excess) excess)
      else whole 1

  abbrev tier_cost : BillingTier → Option (QuotaWindowStatus F) → F → F → F
  tier_cost free_tier quota base error_rate = f.mul (f.decimal 1 6) (error_factor error_rate)
  tier_cost subscription_rolling quota base error_rate =
      let (utilization, urgent) = window_factors quota in
      f.max_of (f.mul (f.mul (f.mul base (f.decimal 1 2)) (watermark utilization)) urgent)
        (f.decimal 1 9)
  tier_cost pay_as_you_go quota base error_rate = base

  unfoldable pub effective_marginal_cost : EndpointProfile F → ℕ → ℕ → F → Bool → F
  effective_marginal_cost p input output error_rate agentic =
      tier_cost p.billing_tier p.quota_status
        (if agentic
          then expected_agentic_cost p input output error_rate
          else expected_cost p input output error_rate)
        error_rate
