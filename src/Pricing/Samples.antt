-- ===== src/Pricing/Samples.antt =====
-- A pool of a strong model and a small one that were both configured with 0.8.
use smart_gate.Base.{List, Text, [], arith, codes, false, refl, ℕ, ◌∷◌, ◌≡◌}
use smart_gate.Float.Fixed.{fixed-IsOrdered, fixed}
use smart_gate.Pricing.Capability.{
  any_clash, any_pair, capability_spread_min, clash, configured_of, default_capability_score,
  defaults_of, distance, resolve_pool_capabilities, zip,
}
use smart_gate.Difficulty.Words.{contains_any, to_ascii_lowercase}
use smart_gate.Pricing.Separation.{resolve_pool_capabilities-apart}

abbrev eight_tenths : ℕ
eight_tenths = 800_000_000_000

abbrev pool : List (Text × ℕ)
pool = (codes "gemini-pro", eight_tenths) ∷ (codes "gemini-flash", eight_tenths) ∷ []

abbrev strong : ℕ
strong = 920_000_000_000

abbrev small : ℕ
small = 650_000_000_000

resolve_pool_capabilities-apart_example :
    fixed.lt (distance strong small) (capability_spread_min {F = ℕ}) ≡ false
unfolding resolve_pool_capabilities defaults_of default_capability_score configured_of any_pair
    any_clash clash zip contains_any to_ascii_lowercase
resolve_pool_capabilities-apart_example =
    resolve_pool_capabilities-apart fixed-IsOrdered pool 0 1 strong small strong small (omega arith)
      (omega arith) refl refl refl refl refl
