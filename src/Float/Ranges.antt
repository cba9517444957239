-- ===== src/Float/Ranges.antt =====
-- Values between two whole numbers, and what arithmetic does to the bounds.
use smart_gate.Base.{arith, true, ℕ, ◌*◌, ◌+◌, ◌<◌, ◌^◌, ◌≡◌, ◌≤◌}
use smart_gate.Float.{Float, IsNumber, IsOrdered, IsRounded, clamp, whole, ◌≺◌, ◌≼◌}

abbrev pub InRange : {F : Type 0} ⦃f : Float F⦄ → ℕ → ℕ → F → Type 0
InRange lo hi x = (whole lo ≼ x) × (x ≼ whole hi)

module _ {F : Type 0} ⦃f : Float F⦄ (o : IsOrdered F) where
  -- A gap between the bounds is a strict order.
  pub lt_of_bounds :
      (x y : F) (lo hi : ℕ)
      → IsRounded F
      → x ≼ whole lo
      → lo < hi
      → hi ≤ 2 ^ 53
      → whole hi ≼ y
      → x ≺ y
  lt_of_bounds x y lo hi r h gap small k =
      let (nx, nl) = o.refl_of_le _ _ h in
      let (nh, ny) = o.refl_of_le _ _ k in
      ground (
        arith,
        o.lt-eq-not-le x y nx ny,
        o.lt-eq-not-le (whole lo) (whole hi) nl nh,
        o.le_trans (whole hi) y x k,
        o.le_trans (whole hi) x (whole lo),
        r.whole_strict lo hi gap small,
      )

  module _ (r : IsRounded F) where
    whole_nonneg : (n : ℕ) → f.le (whole 0) (whole n) ≡ true
    whole_nonneg n = o.decimal_mono 0 n 0 (omega arith)

    nonneg : (a : ℕ) (x : F) → whole a ≼ x → whole 0 ≼ x
    nonneg a x h = o.le_trans _ _ _ (whole_nonneg a) h

    pub InRange-add :
        (x y : F) (a b c d : ℕ)
        → a ≤ b
        → c ≤ d
        → b + d ≤ 2 ^ 53
        → InRange a b x
        → InRange c d y
        → InRange (a + c) (b + d) (f.add x y)
    InRange-add x y a b c d ab cd h p q = (
      rw (← r.add-whole a c (omega arith))
          (r.add_mono (whole a) x (whole c) y (whole_nonneg a) p.0 (whole_nonneg c) q.0),
      rw (← r.add-whole b d h)
          (r.add_mono x (whole b) y (whole d) (nonneg a x p.0) p.1 (nonneg c y q.0) q.1),
    )

    pub InRange-mul :
        (x : F) (n a b : ℕ)
        → 0 < n
        → a ≤ b
        → b * n ≤ 2 ^ 53
        → InRange a b x
        → InRange (a * n) (b * n) (f.mul x (whole n))
    InRange-mul x n a b pn ab h p = (
      rw (← r.mul-whole a n (grind arith)) (r.mul_mono (whole a) x n 0 pn (whole_nonneg a) p.0),
      rw (← r.mul-whole b n h) (r.mul_mono x (whole b) n 0 pn (nonneg a x p.0) p.1),
    )

    pub InRange-round :
        (x : F) (a b : ℕ) → a ≤ b → b ≤ 2 ^ 53 → InRange a b x → InRange a b (f.round x)
    InRange-round x a b ab h p = (
      rw (← r.round-whole a (omega arith)) (r.round_mono (whole a) x p.0),
      rw (← r.round-whole b h) (r.round_mono x (whole b) p.1),
    )

  -- A number is brought between the bounds.
  pub InRange-clamp :
      (x : F) (a b : ℕ) → a ≤ b → IsNumber x → InRange a b (clamp x (whole a) (whole b))
  InRange-clamp x a b h nx =
      let ab = o.decimal_mono a b 0 h in
      let (na, nb) = o.refl_of_le (whole a) (whole b) ab in
      ground (
        arith,
        o.lt-eq-not-le x (whole a) nx na,
        o.lt-eq-not-le (whole b) x nb nx,
        o.lt-eq-not-le (whole b) (whole a) nb na,
        o.le_total x (whole b) nx nb,
      )
