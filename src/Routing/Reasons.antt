-- ===== src/Routing/Reasons.antt =====
-- The reasons to exclude an endpoint, and that the code excludes for these and for nothing else.
use smart_gate.Base.{
  Bool, Bool-cases, Option, Option-cases, Text, arith, false, inl, inr, none, not, refl, some, true,
  ℕ, ◌&&◌, ◌<◌, ◌≡◌, ◌⊎◌,
}
use smart_gate.Float.{Float}
use smart_gate.Health.{EndpointMetric}
use smart_gate.Pricing.{is_priced}
use smart_gate.Routing.Candidate.{
  Provider, Request, base_cost, budget_protected, cooldown_of, cooling, exclusion, is_excluded,
  is_false, profile_of,
}

module _ {F : Type 0} ⦃f : Float F⦄ where
  -- The three reasons to exclude an endpoint. Its metric has a cooldown that is not over:
  abbrev pub IsCooling : Provider F → Request F → Text → Type 0
  IsCooling p r id =
      (m : EndpointMetric F) × (until : ℕ) × (p.metrics id ≡ some m)
      × (m.cooldown_until ≡ some until)
      × (r.now < until)

  -- The request has tools, and the profile says that they are not supported:
  abbrev pub LacksTools : Provider F → Request F → Text → Type 0
  LacksTools p r id = (r.has_tools ≡ true) × ((profile_of p id).supports_tools ≡ some false)

  -- The budget asks for cheaper endpoints, and this one is priced, costs more than 1.05 times the
  -- median, and is not a qualified one on a hard task under `capability_aware`.
  abbrev pub IsDropped : Provider F → Request F → Text → Type 0
  IsDropped p r id =
      (r.downshift ≡ true)
      × (is_priced (profile_of p id).price ≡ true)
      × (f.lt (f.mul r.median_cost (f.decimal 105 2)) (base_cost p r id) ≡ true)
      × (budget_protected p r id ≡ false)

  abbrev pub HasReason : Provider F → Request F → Text → Type 0
  HasReason p r id = IsCooling p r id ⊎ (LacksTools p r id ⊎ IsDropped p r id)

  cooling_reason :
      (p : Provider F) (r : Request F) (id : Text) (o : Option (EndpointMetric F))
      → p.metrics id ≡ o
      → cooling r.now (cooldown_of o) ≡ true
      → IsCooling p r id
  cooling_reason p r id none e h = absurd cc
  cooling_reason p r id (some m) e h = elim (Option-cases m.cooldown_until) [
    | inl g ↦ absurd (let k = rw g at h in cc)
    | inr (until, g) ↦ (m, until, e, g, let k = rw g at h in ground arith)
  ]

  reason_cooling :
      (p : Provider F) (r : Request F) (id : Text)
      → IsCooling p r id
      → cooling r.now (cooldown_of (p.metrics id)) ≡ true
  reason_cooling p r id (m, until, e, g, h) = rw (e, g) (ground arith)

  tools_reason :
      (p : Provider F) (r : Request F) (id : Text) (o : Option Bool)
      → (profile_of p id).supports_tools ≡ o
      → (r.has_tools && is_false o) ≡ true
      → LacksTools p r id
  tools_reason p r id none e h = ground arith
  tools_reason p r id (some true) e h = ground arith
  tools_reason p r id (some false) e h = ground arith

  IsDropped-reason :
      (p : Provider F) (r : Request F) (id : Text)
      → (r.downshift
          && is_priced (profile_of p id).price
          && f.lt (f.mul r.median_cost (f.decimal 105 2)) (base_cost p r id)
          && not (budget_protected p r id))
        ≡ true
      → IsDropped p r id
  IsDropped-reason p r id h = ground arith

  -- Which of the tests of `exclusion` hold, if it gives a reason.
  tests :
      (p : Provider F) (r : Request F) (id : Text)
      → is_excluded (exclusion p r id) ≡ true
      → (cooling r.now (cooldown_of (p.metrics id)) ≡ true)
        ⊎ (((r.has_tools && is_false (profile_of p id).supports_tools) ≡ true)
            ⊎ ((r.downshift
                  && is_priced (profile_of p id).price
                  && f.lt (f.mul r.median_cost (f.decimal 105 2)) (base_cost p r id)
                  && not (budget_protected p r id))
                ≡ true))
  unfolding exclusion
  tests p r id h = elim (Bool-cases (cooling r.now (cooldown_of (p.metrics id)))) [
    | inl e ↦ inl e
    | inr e ↦ elim (Bool-cases (r.has_tools && is_false (profile_of p id).supports_tools)) [
      | inl g ↦ inr (inl g)
      | inr g ↦ inr (inr (ground (arith, h, e, g)))
    ]
  ]

  pub excluded_reason :
      (p : Provider F) (r : Request F) (id : Text)
      → is_excluded (exclusion p r id) ≡ true
      → HasReason p r id
  excluded_reason p r id h = elim (tests p r id h) [
    | inl e ↦ inl (cooling_reason p r id (p.metrics id) refl e)
    | inr o ↦ inr (elim o [
      | inl e ↦ inl (tools_reason p r id (profile_of p id).supports_tools refl e)
      | inr e ↦ inr (IsDropped-reason p r id e)
    ])
  ]

  pub reason_excluded :
      (p : Provider F) (r : Request F) (id : Text)
      → HasReason p r id
      → is_excluded (exclusion p r id) ≡ true
  unfolding exclusion
  reason_excluded p r id (inl c) = let e = reason_cooling p r id c in ground (arith, e)
  reason_excluded p r id (inr (inl (a, b))) = ground (arith, a, b)
  reason_excluded p r id (inr (inr (a, b, c, d))) = ground (arith, a, b, c, d)
