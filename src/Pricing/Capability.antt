-- ===== src/Pricing/Capability.antt =====
-- The capability of a model by its name, and the scores of a pool.
use smart_gate.Base.{
  Bool, List, Option, Text, [], codes, false, if◌then◌else◌, length, ltb, none, some, ◌&&◌, ◌∷◌,
  ◌||◌,
}
use smart_gate.Float.{Float, clamp, whole}
use smart_gate.Difficulty.Words.{contains_any, to_ascii_lowercase}

abbrev pub strong_models : List Text
strong_models =
    codes "r1"
    ∷ codes "reasoner"
    ∷ codes "o1"
    ∷ codes "o3"
    ∷ codes "claude-3-5-sonnet"
    ∷ codes "claude-3-7-sonnet"
    ∷ codes "opus"
    ∷ codes "gpt-4.5"
    ∷ []

abbrev pub large_models : List Text
large_models =
    codes "pro"
    ∷ codes "gpt-4o"
    ∷ codes "max"
    ∷ codes "70b"
    ∷ codes "72b"
    ∷ codes "405b"
    ∷ codes "deepseek-chat"
    ∷ codes "deepseek-v3"
    ∷ codes "deepseek-coder"
    ∷ []

abbrev pub small_models : List Text
small_models =
    codes "flash"
    ∷ codes "mini"
    ∷ codes "nano"
    ∷ codes "lite"
    ∷ codes "8b"
    ∷ codes "7b"
    ∷ codes "3b"
    ∷ codes "1.5b"
    ∷ codes "0.5b"
    ∷ []

abbrev pub is_true : Option Bool → Bool
is_true none = false
is_true (some b) = b

module _ {F : Type 0} ⦃f : Float F⦄ where
  unfoldable pub default_capability_score : Text → Option Bool → F
  unfolding contains_any to_ascii_lowercase
  default_capability_score model_id supports_reasoning =
      let lower = to_ascii_lowercase model_id in
      if contains_any lower strong_models
      then f.decimal 96 2
      else if contains_any lower large_models
      then f.decimal 92 2
      else if is_true supports_reasoning
      then f.decimal 85 2
      else if contains_any lower small_models
      then f.decimal 65 2
      else f.decimal 70 2

  abbrev pub capability_spread_min : F
  capability_spread_min = f.decimal 5 2

  -- `(a - b).abs()`
  abbrev pub distance : F → F → F
  distance a b = let d = f.sub a b in if f.lt d (whole 0) then f.sub (whole 0) d else d

  unfoldable pub effective_capability_score : Text → F → F
  unfolding default_capability_score
  effective_capability_score model_id configured =
      if f.le configured (whole 0)
        || f.lt (distance configured (f.decimal 50 2)) (f.decimal 1 5)
        || f.lt (distance configured (f.decimal 70 2)) (f.decimal 1 5)
      then default_capability_score model_id none
      else clamp configured (whole 0) (whole 1)

  -- Of two members, the configured score and the one of its family for each: the same by the
  -- configuration, and clearly different by their families.
  unfoldable pub clash : F × F → F × F → Bool
  clash (c, d) (c', d') =
      f.lt (distance c c') capability_spread_min && f.le capability_spread_min (distance d d')

  unfoldable pub any_clash : F × F → List (F × F) → Bool
  unfolding clash
  any_clash x [] = false
  any_clash x (y ∷ ys) = clash x y || any_clash x ys

  unfoldable pub any_pair : List (F × F) → Bool
  unfolding any_clash
  any_pair [] = false
  any_pair (x ∷ xs) = any_clash x xs || any_pair xs

  unfoldable pub configured_of : List (Text × F) → List F
  configured_of [] = []
  configured_of ((model, c) ∷ ms) = c ∷ configured_of ms

  unfoldable pub defaults_of : List (Text × F) → List F
  unfolding default_capability_score
  defaults_of [] = []
  defaults_of ((model, c) ∷ ms) = default_capability_score model none ∷ defaults_of ms

  unfoldable pub zip : List F → List F → List (F × F)
  zip [] ys = []
  zip (x ∷ xs) [] = []
  zip (x ∷ xs) (y ∷ ys) = (x, y) ∷ zip xs ys

  unfoldable pub resolve_pool_capabilities : List (Text × F) → List F
  unfolding any_pair configured_of defaults_of zip
  resolve_pool_capabilities members =
      if ltb (length members) 2
      then configured_of members
      else if any_pair (zip (configured_of members) (defaults_of members))
      then defaults_of members
      else configured_of members
