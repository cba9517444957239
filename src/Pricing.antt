-- ===== src/Pricing.antt =====
-- src/pricing/mod.rs: unit prices, billing tiers and endpoint profiles.
pub mod Capability
pub mod Dna
pub mod Separation
mod Samples
use smart_gate.Base.{Bool, Option, false, if◌then◌else◌, min, none, some, true, ℕ, ◌-◌, ◌||◌}
use smart_gate.Base.Map.{or_else}
use smart_gate.Base.Int.{ℤ}
use smart_gate.Float.{Float, whole}

-- `none` on an axis is an unknown price.
pub record UnitPrice (F : Type 0) : Type 0 where
  pub input_per_1m : Option F
  pub output_per_1m : Option F
  pub cache_read_per_1m : Option F

pub data BillingTier : Type 0 where
  pay_as_you_go subscription_rolling free_tier : BillingTier

pub record QuotaWindowStatus (F : Type 0) : Type 0 where
  pub utilization : F
  pub reset_in_secs : Option ℕ

pub record EndpointProfile (F : Type 0) : Type 0 where
  pub price : UnitPrice F
  pub capability_score : F
  pub family_capability_score : F
  pub supports_tools : Option Bool
  pub context_length : Option ℤ
  pub billing_tier : BillingTier
  pub quota_status : Option (QuotaWindowStatus F)

abbrev pub is_some {ℓ} : {A : Type ℓ} → Option A → Bool
is_some none = false
is_some (some a) = true

module _ {F : Type 0} where
  unfoldable pub is_priced : UnitPrice F → Bool
  is_priced p = is_some p.input_per_1m || is_some p.output_per_1m

module _ {F : Type 0} ⦃f : Float F⦄ where
  unfoldable pub known : F → F → UnitPrice F
  known input output = record {
    input_per_1m = some input;
    output_per_1m = some output;
    cache_read_per_1m = none;
  }

  unfoldable pub input_price : UnitPrice F → F
  input_price p = or_else p.input_per_1m (whole 0)

  unfoldable pub output_price : UnitPrice F → F
  output_price p = or_else p.output_per_1m (whole 0)

  -- `tokens as f64 / 1_000_000.0 * price`
  unfoldable pub charge : ℕ → F → F
  charge tokens price = f.mul (f.div (f.of_nat tokens) (whole 1_000_000)) price

  unfoldable pub estimate_cost : UnitPrice F → ℕ → ℕ → F
  unfolding charge input_price output_price
  estimate_cost p input output =
      f.add (charge input (input_price p)) (charge output (output_price p))

  unfoldable pub calculate_cost : UnitPrice F → ℕ → ℕ → Option ℕ → F
  unfolding charge input_price output_price
  calculate_cost p prompt completion cache_hit_tokens =
      let hits = min (or_else cache_hit_tokens 0) prompt in
      let misses = prompt - hits in
      let price = input_price p in
      let cache_price =
        or_else p.cache_read_per_1m
          (if f.lt (whole 0) price then f.mul price (f.decimal 1 1) else whole 0) in
      f.add (f.add (charge misses price) (charge hits cache_price))
        (charge completion (output_price p))

  unfoldable pub default_profile : EndpointProfile F
  default_profile = record {
    price = record { input_per_1m = none; output_per_1m = none; cache_read_per_1m = none };
    capability_score = f.decimal 5 1;
    family_capability_score = f.decimal 5 1;
    supports_tools = none;
    context_length = none;
    billing_tier = pay_as_you_go;
    quota_status = none;
  }
