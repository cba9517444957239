-- ===== src/Routing/Affinity.antt =====
-- The preference for the endpoint of a session, against the tiers.
use smart_gate.Base.{Bool-cases, arith, inl, inr, refl, some, ℕ, ◌*◌, ◌+◌, ◌<◌, ◌^◌, ◌≡◌, ◌≤◌, ◌⊎◌}
use smart_gate.Float.{Float, IsOrdered, IsRounded}
use smart_gate.Float.Ranges.{InRange, InRange-add, lt_of_bounds}
use smart_gate.Routing.Strategy.{PoolEndpointMember, capability_aware, score, tier}
use smart_gate.Routing.Rank.{Below, IsSound, score-InRange, tier-le}
use smart_gate.Routing.Candidate.{
  EndpointSignal, Provider, Request, endpoint_score, score_input, signal_of,
}
use smart_gate.Routing.Evaluate.{affinity_boost, boosted}

module _ {F : Type 0} ⦃f : Float F⦄ (o : IsOrdered F) (q : IsRounded F) where
  boosted-InRange :
      (s : F) (lo hi : ℕ)
      → lo ≤ hi
      → hi + 10_000 ≤ 2 ^ 53
      → InRange lo hi s
      → InRange (lo + 10_000) (hi + 10_000) (f.add s affinity_boost)
  boosted-InRange s lo hi h k range =
      InRange-add o q s affinity_boost lo hi 10_000 10_000 h (omega arith) k range
        (let n = o.decimal_mono 10_000 10_000 0 (omega arith) in (n, n))

  score-signal_of :
      (p : Provider F) (r : Request F) (m : PoolEndpointMember) (s : F)
      → r.strategy ≡ capability_aware
      → score capability_aware (score_input p r m) ≡ some s
      → (signal_of p r m).score ≡ some s
  unfolding signal_of endpoint_score
  score-signal_of p r m s st e = rw (st, e) refl

  boosted_score :
      (g : EndpointSignal F) (s : F)
      → g.score ≡ some s
      → ((boosted g).score ≡ some s) ⊎ ((boosted g).score ≡ some (f.add s affinity_boost))
  boosted_score g s e = elim (Bool-cases g.excluded) [
    | inl out ↦ inl (rw out e)
    | inr kept ↦ inr (rw (kept, e) refl)
  ]

  -- Under `capability_aware`, the preference for the endpoint of a session never lifts it to the
  -- score of a member in a higher tier. The scores of both are numbers, and so are the reciprocals
  -- of their costs, which are not negative.
  pub tier_outranks_boost :
      (p : Provider F) (r : Request F) (i j : PoolEndpointMember)
      → IsSound (score_input p r i)
      → IsSound (score_input p r j)
      → r.strategy ≡ capability_aware
      → tier (score_input p r j) < tier (score_input p r i)
      → Below (boosted (signal_of p r j)).score (signal_of p r i).score
  tier_outranks_boost p r i j si sj st gap =
      let (s, es, range_s) = score-InRange o q (score_input p r i) si in
      let (t, et, range_t) = score-InRange o q (score_input p r j) sj in
      let more =
        boosted-InRange t (tier (score_input p r j) * 1_000_000_000)
          (tier (score_input p r j) * 1_000_000_000 + 999_000_010) (omega arith)
          (omega (arith, tier-le o q (score_input p r j))) range_t in
      elim (boosted_score (signal_of p r j) t (score-signal_of p r j t st et)) [
        | inl e ↦
            rw (e, score-signal_of p r i s st es)
              (lt_of_bounds o t s (tier (score_input p r j) * 1_000_000_000 + 999_000_010)
                (tier (score_input p r i) * 1_000_000_000) q range_t.1 (omega arith)
                (omega (arith, tier-le o q (score_input p r i))) range_s.0)
        | inr e ↦
            rw (e, score-signal_of p r i s st es)
              (lt_of_bounds o (f.add t affinity_boost) s
                (tier (score_input p r j) * 1_000_000_000 + 999_000_010 + 10_000)
                (tier (score_input p r i) * 1_000_000_000) q more.1 (omega arith)
                (omega (arith, tier-le o q (score_input p r i))) range_s.0)
      ]
