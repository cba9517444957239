-- ===== src/Pricing/Separation.antt =====
-- The scores of a pool tell models of different strength apart.
use smart_gate.Base.{
  Bool, Bool-cases, List, Option, none, some, some-injective, suc, zero, ℕ, ◌<◌, ◌||◌, Text, [], ap,
  arith, false, inl, inr, length, ltb, not, refl, true, ◌&&◌, ◌∙◌, ◌∷◌, ◌≡◌, ◌≤◌,
}
use smart_gate.Float.{Float, IsOrdered}
use smart_gate.Pricing.Capability.{
  any_clash, any_pair, capability_spread_min, clash, configured_of, defaults_of, distance,
  resolve_pool_capabilities, zip,
}

and_opposite : (a b : Bool) → (b ≡ true → a ≡ false) → (a && b) ≡ false
and_opposite true true h = h refl
and_opposite true false h = refl
and_opposite false b h = refl

or_false : (a b : Bool) → (a || b) ≡ false → (a ≡ false) × (b ≡ false)
or_false false b h = (refl, h)
or_false true b h = absurd cc

and_false : (a b : Bool) → b ≡ true → (a && b) ≡ false → a ≡ false
and_false false b e h = refl
and_false true b e h = absurd cc

-- The element at a position.
abbrev pub nth : {A : Type 0} → ℕ → List A → Option A
nth i [] = none
nth zero (x ∷ xs) = some x
nth (suc i) (x ∷ xs) = nth i xs

module _ {F : Type 0} ⦃f : Float F⦄ (o : IsOrdered F) where
  -- Two members whose scores are those of their families do not clash.
  clash-default : (d e : F) → clash (d, d) (e, e) ≡ false
  unfolding clash
  clash-default d e =
      and_opposite (f.lt (distance d e) capability_spread_min)
        (f.le capability_spread_min (distance d e))
        (λ far.
          let (nm, nd) = o.refl_of_le capability_spread_min (distance d e) far in
          o.lt-eq-not-le (distance d e) capability_spread_min nd nm ∙ ap not far)

  any_clash-default : (d : F) (ds : List F) → any_clash (d, d) (zip ds ds) ≡ false
  unfolding any_clash zip
  any_clash-default d [] = refl
  any_clash-default d (e ∷ ds) = rw (clash-default d e) (any_clash-default d ds)

  any_pair-default : (ds : List F) → any_pair (zip ds ds) ≡ false
  unfolding any_pair zip
  any_pair-default [] = refl
  any_pair-default (d ∷ ds) = rw (any_clash-default d ds) (any_pair-default ds)

  any_clash-nth :
      (x : F × F) (xs ys : List F) (j : ℕ) (c d : F)
      → any_clash x (zip xs ys) ≡ false
      → nth j xs ≡ some c
      → nth j ys ≡ some d
      → clash x (c, d) ≡ false
  unfolding any_clash zip
  any_clash-nth x [] ys j c d h ec ed = absurd cc
  any_clash-nth x (c' ∷ xs) [] j c d h ec ed = absurd cc
  any_clash-nth x (c' ∷ xs) (d' ∷ ys) zero c d h ec ed =
      let e1 : c' ≡ c = some-injective c' c ec in
      let e2 : d' ≡ d = some-injective d' d ed in
      rw (← e1, ← e2) ((or_false (clash x (c', d')) (any_clash x (zip xs ys)) h).0)
  any_clash-nth x (c' ∷ xs) (d' ∷ ys) (suc j) c d h ec ed =
      any_clash-nth x xs ys j c d (or_false (clash x (c', d')) (any_clash x (zip xs ys)) h).1 ec ed

  any_pair-nth :
      (xs ys : List F) (i j : ℕ) (c c' d d' : F)
      → any_pair (zip xs ys) ≡ false
      → i < j
      → nth i xs ≡ some c
      → nth j xs ≡ some c'
      → nth i ys ≡ some d
      → nth j ys ≡ some d'
      → clash (c, d) (c', d') ≡ false
  unfolding any_pair zip
  any_pair-nth [] ys i j c c' d d' h lt ec ec' ed ed' = absurd cc
  any_pair-nth (x ∷ xs) [] i j c c' d d' h lt ec ec' ed ed' = absurd cc
  any_pair-nth (x ∷ xs) (y ∷ ys) zero zero c c' d d' h lt ec ec' ed ed' = absurd (omega arith)
  any_pair-nth (x ∷ xs) (y ∷ ys) zero (suc j) c c' d d' h lt ec ec' ed ed' =
      let e1 : x ≡ c = some-injective x c ec in
      let e2 : y ≡ d = some-injective y d ed in
      rw (← e1, ← e2)
        (any_clash-nth (x, y) xs ys j c' d'
          (or_false (any_clash (x, y) (zip xs ys)) (any_pair (zip xs ys)) h).0 ec' ed')
  any_pair-nth (x ∷ xs) (y ∷ ys) (suc i) zero c c' d d' h lt ec ec' ed ed' = absurd (omega arith)
  any_pair-nth (x ∷ xs) (y ∷ ys) (suc i) (suc j) c c' d d' h lt ec ec' ed ed' =
      any_pair-nth xs ys i j c c' d d'
        (or_false (any_clash (x, y) (zip xs ys)) (any_pair (zip xs ys)) h).1 (omega arith) ec ec' ed
        ed'

  resolve_pool_capabilities-any_pair :
      (members : List (Text × F))
      → 2 ≤ length members
      → any_pair (zip (resolve_pool_capabilities members) (defaults_of members)) ≡ false
  unfolding resolve_pool_capabilities
  resolve_pool_capabilities-any_pair members h =
      let many : ltb (length members) 2 ≡ false = ground arith in
      elim (Bool-cases (any_pair (zip (configured_of members) (defaults_of members)))) [
        | inl ambiguous ↦ rw (many, ambiguous) (any_pair-default (defaults_of members))
        | inr clear ↦ rw (many, clear) clear
      ]

  -- In a pool of two members or more, of two members whose families' scores are the least spread
  -- apart or more, the scores that they are left with are not closer than that, whatever was
  -- configured.
  pub resolve_pool_capabilities-apart :
      (members : List (Text × F)) (i j : ℕ) (c c' d d' : F)
      → 2 ≤ length members
      → i < j
      → nth i (resolve_pool_capabilities members) ≡ some c
      → nth j (resolve_pool_capabilities members) ≡ some c'
      → nth i (defaults_of members) ≡ some d
      → nth j (defaults_of members) ≡ some d'
      → f.le capability_spread_min (distance d d') ≡ true
      → f.lt (distance c c') capability_spread_min ≡ false
  unfolding clash
  resolve_pool_capabilities-apart members i j c c' d d' many lt ec ec' ed ed' far =
      and_false (f.lt (distance c c') capability_spread_min)
        (f.le capability_spread_min (distance d d')) far
        (any_pair-nth (resolve_pool_capabilities members) (defaults_of members) i j c c' d d'
          (resolve_pool_capabilities-any_pair members many) lt ec ec' ed ed')
