-- ===== src/Routing/Rank.antt =====
-- What outranks what under `capability_aware`: the tier, then the configured capability, before any
-- price.
use smart_gate.Base.{
  Bool-cases, Option, ap, arith, false, inl, inr, le_refl, none, refl, some, true, ℕ, ◌*◌, ◌+◌, ◌<◌,
  ◌∙◌, ◌≡◌, ◌≤◌,
}
use smart_gate.Float.{Float, IsNumber, IsOrdered, IsRounded, whole, ◌≺◌, ◌≼◌}
use smart_gate.Float.Ranges.{
  InRange, InRange-add, InRange-clamp, InRange-mul, InRange-round, lt_of_bounds,
}
use smart_gate.Routing.Strategy.{
  ScoreInput, base_cost_of, capability_aware, capability_qualified, capability_tier_scale,
  easy_cost, easy_score, hard_score, hard_task_difficulty, normalized_cost, rank_of, score, tier,
  unpriced_score,
}

abbrev pub Below : {F : Type 0} ⦃f : Float F⦄ → Option F → Option F → Type 0
Below (some a) (some b) = a ≺ b
Below (some a) none = ⊥
Below none o = ⊥

module _ {F : Type 0} ⦃f : Float F⦄ where
  -- The scores of the endpoint's model are numbers, and its cost has a reciprocal that is one and
  -- is not negative.
  pub record IsSound (i : ScoreInput F) : Type 0 where
    pub capability : IsNumber i.profile.capability_score
    pub family : IsNumber i.profile.family_capability_score
    pub reciprocal : IsNumber (f.div (whole 1) (f.add (base_cost_of i) (f.decimal 1 6)))
    pub inverse : whole 0 ≼ f.div (whole 1) (f.add (base_cost_of i) (f.decimal 1 12))

module _ {F : Type 0} ⦃f : Float F⦄ (o : IsOrdered F) (r : IsRounded F) where
  rank_of-InRange : (c : F) → IsNumber c → InRange 0 100 (rank_of c)
  rank_of-InRange c n = InRange-round o r _ 0 100 (omega arith) (omega arith) (
      InRange-mul o r _ 100 0 1 (omega arith) (omega arith) (omega arith)
        (InRange-clamp o c 0 1 (omega arith) n))

  tiny-InRange : (f.le (whole 0) unpriced_score ≡ true) × (f.le unpriced_score (whole 1) ≡ true)
  tiny-InRange = (r.decimal_nonneg 1 12, r.decimal_le_whole 1 12)

  cast : (x : F) {a b c d : ℕ} → a ≡ c → b ≡ d → InRange a b x → InRange c d x
  cast x p q h = rw (← p, ← q) h

  InRange-min : (x : F) (n : ℕ) → whole 0 ≼ x → InRange 0 n (f.min_of x (whole n))
  InRange-min x n h =
      let zero_le = o.decimal_mono 0 n 0 (omega arith) in
      let le = o.min_of_le x (whole n) (o.refl_of_le _ _ h).1 (o.refl_of_le _ _ zero_le).1 in
      elim (o.min_of_one x (whole n)) [ inl e ↦ (rw e h, le.1) | inr e ↦ (rw e zero_le, le.1) ]

  widen : (x : F) (a b c : ℕ) → b ≤ c → InRange a b x → InRange a c x
  widen x a b c h p = (p.0, o.le_trans _ _ _ p.1 (o.decimal_mono b c 0 h))

  normalized_cost-InRange :
      (i : ScoreInput F) → IsSound i → InRange 0 999 (normalized_cost i (base_cost_of i))
  unfolding normalized_cost
  normalized_cost-InRange i s =
      let big = InRange-clamp o _ 0 999 (omega arith) s.reciprocal in
      let small = widen _ 0 1 999 (omega arith) tiny-InRange in ground (arith, big, small)

  pub tier-le : (i : ScoreInput F) → tier i ≤ 2
  unfolding tier
  tier-le i = ground arith

  tier-InRange :
      (t : ℕ)
      → t ≤ 2
      → InRange (t * 1_000_000_000) (t * 1_000_000_000) (f.mul (whole t) capability_tier_scale)
  tier-InRange t h =
      let n = o.decimal_mono t t 0 (le_refl t) in
      InRange-mul o r (whole t) 1_000_000_000 t t (omega arith) (le_refl t) (omega arith) (n, n)

  -- Tier and rank fix a hard score up to the family and the cost.
  hard_score-InRange :
      (i : ScoreInput F) (lo hi : ℕ)
      → lo ≤ hi
      → hi ≤ 100
      → IsSound i
      → InRange lo hi (rank_of i.profile.capability_score)
      → InRange
          (tier i * 1_000_000_000 + lo * 1_000_000)
          (tier i * 1_000_000_000 + hi * 1_000_000 + 100_999)
          (hard_score i (base_cost_of i))
  unfolding hard_score
  hard_score-InRange i lo hi h k s c =
      let t = tier-le i in
      let a = tier-InRange (tier i) t in
      let b = InRange-mul o r _ 1_000_000 lo hi (omega arith) h (omega arith) c in
      let d =
        InRange-mul o r _ 1_000 0 100 (omega arith) (omega arith) (omega arith)
          (rank_of-InRange i.profile.family_capability_score s.family) in
      let e = normalized_cost-InRange i s in
      let ab = InRange-add o r _ _ _ _ _ _ (le_refl _) (omega arith) (omega arith) a b in
      let abd = InRange-add o r _ _ _ _ _ _ (omega arith) (omega arith) (omega arith) ab d in
      let all = InRange-add o r _ _ _ _ _ _ (omega arith) (omega arith) (omega arith) abd e in
      cast _ (omega arith) (omega arith) all

  easy_cost-InRange :
      (i : ScoreInput F) → IsSound i → InRange 0 999_000_000 (easy_cost i (base_cost_of i))
  unfolding easy_cost
  easy_cost-InRange i s =
      let top : f.sub capability_tier_scale (whole 1_000_000) ≡ whole 999_000_000 =
        r.sub-whole 1_000_000_000 1_000_000 (omega arith) (omega arith) in
      let small = widen _ 0 1 999_000_000 (omega arith) tiny-InRange in
      rw top (ground (arith, small, InRange-min _ 999_000_000 s.inverse))

  easy_score-InRange :
      (i : ScoreInput F)
      → IsSound i
      → InRange
          (tier i * 1_000_000_000)
          (tier i * 1_000_000_000 + 999_000_010)
          (easy_score i (base_cost_of i))
  unfolding easy_score easy_cost
  easy_score-InRange i s =
      let t = tier-le i in
      let a = tier-InRange (tier i) t in
      let b = easy_cost-InRange i s in
      let c =
        InRange-mul o r _ 10 0 1 (omega arith) (omega arith) (omega arith)
          (InRange-clamp o i.profile.capability_score 0 1 (omega arith) s.capability) in
      let ab = InRange-add o r _ _ _ _ _ _ (le_refl _) (omega arith) (omega arith) a b in
      let all = InRange-add o r _ _ _ _ _ _ (omega arith) (omega arith) (omega arith) ab c in
      cast _ (omega arith) (omega arith) all

  -- The tier fixes a score up to less than a tier.
  pub score-InRange :
      (i : ScoreInput F)
      → IsSound i
      → (s : F) × (score capability_aware i ≡ some s)
        × InRange (tier i * 1_000_000_000) (tier i * 1_000_000_000 + 999_000_010) s
  unfolding score
  score-InRange i h = elim (Bool-cases (f.le hard_task_difficulty i.difficulty)) [
    | inl hard ↦
        let range =
          hard_score-InRange i 0 100 (omega arith) (omega arith) h
            (rank_of-InRange i.profile.capability_score h.capability) in
        (
          hard_score i (base_cost_of i),
          rw hard refl,
          widen (hard_score i (base_cost_of i)) (tier i * 1_000_000_000)
              (tier i * 1_000_000_000 + 100_100_999) (tier i * 1_000_000_000 + 999_000_010)
              (omega arith)
              (cast (hard_score i (base_cost_of i)) (omega arith) (omega arith) range),
        )
    | inr easy ↦ (easy_score i (base_cost_of i), rw easy refl, easy_score-InRange i h)
  ]

  module _ (i j : ScoreInput F) (si : IsSound i) (sj : IsSound j) where
    -- Under `capability_aware`, of two endpoints scored for the same difficulty the one in a higher
    -- tier scores strictly higher, whatever the prices, families and error rates.
    tier_outranks :
        i.difficulty ≡ j.difficulty
        → tier j < tier i
        → Below (score capability_aware j) (score capability_aware i)
    unfolding score
    tier_outranks same gap = elim (Bool-cases (f.le hard_task_difficulty j.difficulty)) [
      | inl hard ↦
          rw (ap (f.le hard_task_difficulty) same ∙ hard, hard)
            (lt_of_bounds o (hard_score j (base_cost_of j)) (hard_score i (base_cost_of i))
              (tier j * 1_000_000_000 + 100 * 1_000_000 + 100_999)
              (tier i * 1_000_000_000 + 0 * 1_000_000) r
              (hard_score-InRange j 0 100 (omega arith) (omega arith) sj
                (rank_of-InRange j.profile.capability_score sj.capability)).1
              (omega arith) (omega (arith, tier-le i))
              (hard_score-InRange i 0 100 (omega arith) (omega arith) si
                (rank_of-InRange i.profile.capability_score si.capability)).0)
      | inr easy ↦
          rw (ap (f.le hard_task_difficulty) same ∙ easy, easy)
            (lt_of_bounds o (easy_score j (base_cost_of j)) (easy_score i (base_cost_of i))
              (tier j * 1_000_000_000 + 999_000_010) (tier i * 1_000_000_000) r
              (easy_score-InRange j sj).1 (omega arith) (omega (arith, tier-le i))
              (easy_score-InRange i si).0)
    ]

    -- An endpoint that is qualified for the difficulty outranks every endpoint that is not. The
    -- scores of both are numbers, and so are the reciprocals of their costs, which are not negative.
    pub qualified_outranks :
        i.difficulty ≡ j.difficulty
        → capability_qualified i.profile.capability_score i.difficulty i.max_pool_capability ≡ true
        → capability_qualified j.profile.capability_score j.difficulty j.max_pool_capability ≡ false
        → Below (score capability_aware j) (score capability_aware i)
    qualified_outranks same yes_i no_j = tier_outranks same (unfold tier in ground arith)

    -- On a hard task and within a tier, one hundredth more of configured capability outranks any
    -- difference in family and price.
    capability_outranks :
        (m n : ℕ)
        → f.le hard_task_difficulty i.difficulty ≡ true
        → f.le hard_task_difficulty j.difficulty ≡ true
        → tier i ≡ tier j
        → rank_of i.profile.capability_score ≡ whole m
        → rank_of j.profile.capability_score ≡ whole n
        → n < m
        → m ≤ 100
        → Below (score capability_aware j) (score capability_aware i)
    unfolding score
    capability_outranks m n hi hj same em en gap top =
        let nm = o.decimal_mono m m 0 (le_refl m) in
        let nn = o.decimal_mono n n 0 (le_refl n) in
        rw (hi, hj)
          (lt_of_bounds o (hard_score j (base_cost_of j)) (hard_score i (base_cost_of i))
            (tier j * 1_000_000_000 + n * 1_000_000 + 100_999)
            (tier i * 1_000_000_000 + m * 1_000_000) r
            (hard_score-InRange j n n (le_refl n) (omega arith) sj (rw en (nn, nn))).1 (omega arith)
            (omega (arith, tier-le i))
            (hard_score-InRange i m m (le_refl m) top si (rw em (nm, nm))).0)
