-- ===== src/Routing/Samples.antt =====
-- A strong, expensive endpoint against a weak, cheap one.
use smart_gate.Routing.Affinity.{tier_outranks_boost}
use smart_gate.Routing.Evaluate.{boosted, signals_of}
use smart_gate.Base.Map.{empty, put}
use smart_gate.Routing.Exclusion.{is_member, Tells, signals_of-Tells, signals_of_protected}
use smart_gate.Routing.Candidate.{Provider, Request, score_input, EndpointSignal, signal_of}
use smart_gate.Base.{
  List, Text-discrete, [], arith, codes, false, inl, inr, none, refl, some, true, ℕ, ◌*◌, ◌∷◌, ◌≡◌,
  ◌⊎◌,
}
use smart_gate.Base.Int.{pos}
use smart_gate.Float.Fixed.{fixed-IsOrdered, fixed-IsRounded, fixed}
use smart_gate.Pricing.{pay_as_you_go}
use smart_gate.Routing.Strategy.{
  PoolEndpointMember, ScoreInput, capability_aware, capability_qualified, required_capability,
  score, tier,
}
use smart_gate.Routing.Rank.{Below, IsSound, qualified_outranks}

-- Thousandths, and prices in cents.
abbrev thousandths : ℕ → ℕ
thousandths n = n * 1_000_000_000

abbrev candidate : ℕ → ℕ → ℕ → ScoreInput ℕ
candidate capability cents difficulty = record {
  member = record { endpoint_id = codes "e"; priority = pos 1; weight = pos 1 };
  profile = record {
    price = record {
      input_per_1m = some (thousandths (10 * cents));
      output_per_1m = some (thousandths (10 * cents));
      cache_read_per_1m = none;
    };
    capability_score = thousandths capability;
    family_capability_score = thousandths capability;
    supports_tools = none;
    context_length = none;
    billing_tier = pay_as_you_go;
    quota_status = none;
  };
  active = pos 0;
  success_latency_ms = 0;
  all_latency_ms = 0;
  error_rate = 0;
  input_tokens = 2000;
  output_tokens = 1000;
  difficulty = thousandths difficulty;
  max_pool_capability = thousandths 950;
  agentic = false;
}

candidate-IsSound : (c p d : ℕ) → IsSound (candidate c p d)
candidate-IsSound c p d = record {
  capability = ground arith;
  family = ground arith;
  reciprocal = ground arith;
  inverse = ground arith;
}

abbrev pro : ℕ → ScoreInput ℕ
pro = candidate 950 1000

abbrev flash : ℕ → ScoreInput ℕ
flash = candidate 650 20

qualified_outranks_example :
    Below (score capability_aware (flash 700)) (score capability_aware (pro 700))
unfolding capability_qualified required_capability
qualified_outranks_example =
    qualified_outranks fixed-IsOrdered fixed-IsRounded (pro 700) (flash 700)
      (candidate-IsSound 950 1000 700) (candidate-IsSound 650 20 700) refl refl refl

-- A pool of the two, and a hard request while the budget asks for cheaper endpoints.
abbrev strong_member : PoolEndpointMember
strong_member = record { endpoint_id = codes "pro"; priority = pos 1; weight = pos 1 }

abbrev cheap_member : PoolEndpointMember
cheap_member = record { endpoint_id = codes "flash"; priority = pos 1; weight = pos 1 }

abbrev pair : List PoolEndpointMember
pair = strong_member ∷ cheap_member ∷ []

abbrev provider : Provider ℕ
provider = record {
  metrics = empty;
  pools = empty;
  pool_members = put Text-discrete empty (codes "pool") (some pair);
  profiles =
      put Text-discrete (put Text-discrete empty (codes "pro") (some (pro 700).profile))
        (codes "flash") (some (flash 700).profile);
  hints = empty;
}

abbrev hard_request : Request ℕ
hard_request = record {
  strategy = capability_aware;
  input_tokens = 2000;
  output_tokens = 1000;
  difficulty = thousandths 700;
  has_tools = true;
  downshift = true;
  affinity_enabled = true;
  sticky_endpoint_id = some (codes "flash");
  max_pool_capability = thousandths 950;
  median_cost = 0;
  now = 5;
}

signals_of-Tells_example :
    Tells provider hard_request
      (codes "flash")
      (signals_of provider hard_request pair (codes "flash"))
unfolding is_member Text-discrete
signals_of-Tells_example = signals_of-Tells provider hard_request pair (codes "flash") refl

signals_of_protected_example :
    (s : EndpointSignal ℕ) × (signals_of provider hard_request pair (codes "pro") ≡ some s)
    × (s.excluded ≡ false)
unfolding is_member Text-discrete put capability_qualified
signals_of_protected_example =
    signals_of_protected provider hard_request pair (codes "pro") refl refl refl refl refl refl

member-IsSound :
    (m : PoolEndpointMember)
    → m ≡ strong_member ⊎ m ≡ cheap_member
    → IsSound (score_input provider hard_request m)
unfolding score_input put Text-discrete
member-IsSound m h = record {
  capability = ground (arith, h);
  family = ground (arith, h);
  reciprocal = ground (arith, h);
  inverse = ground (arith, h);
}

tier_outranks_boost_example :
    Below
      (boosted (signal_of provider hard_request cheap_member)).score
      (signal_of provider hard_request strong_member).score
unfolding tier capability_qualified required_capability score_input put Text-discrete
tier_outranks_boost_example =
    tier_outranks_boost fixed-IsOrdered fixed-IsRounded provider hard_request strong_member
      cheap_member (member-IsSound strong_member (inl refl))
      (member-IsSound cheap_member (inr refl)) refl (omega arith)
