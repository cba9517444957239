-- ===== src/Routing/Exclusion.antt =====
-- What the data plane is told of every member of a pool, and what the soft gates cannot override.
use smart_gate.Base.{
  Bool, List, Option, Text, Text-discrete, [], arith, ◌↔◌, false, if_neg, if◌then◌else◌, inl, inr,
  ite, none, not, refl, some, sym, true, ◌&&◌, ◌∙◌, ◌∷◌, ◌≡◌, ◌⊎◌,
}
use smart_gate.Base.Map.{Map, empty, put, put-ne, put_self}
use smart_gate.Float.{Float}
use smart_gate.Routing.Strategy.{
  PoolEndpointMember, capability_aware, capability_qualified, hard_task_difficulty,
}
use smart_gate.Routing.Candidate.{
  EndpointSignal, Provider, Request, budget_protected, capability_or, cooldown_left, cooldown_of,
  cooling, error_rate_of, exclusion, is_excluded, is_false, profile_of, signal_of,
}
use smart_gate.Routing.Reasons.{HasReason, excluded_reason, reason_excluded}
use smart_gate.Routing.Evaluate.{
  best_other_ratio, boost, boosted, collapsed, keep_sticky, put_signals, signals_of,
  sticky_is_capable, trusted_ratio,
}

unfoldable pub is_member : Text → List PoolEndpointMember → Bool
is_member id [] = false
is_member id (m ∷ ms) = ite (Text-discrete m.endpoint_id id) true (is_member id ms)

member_cases :
    (m : PoolEndpointMember) (ms : List PoolEndpointMember) (id : Text)
    → is_member id (m ∷ ms) ≡ true
    → (is_member id ms ≡ true) ⊎ (m.endpoint_id ≡ id)
unfolding is_member
member_cases m ms id h = elim (Text-discrete m.endpoint_id id) [
  | yes e ↦ inr e
  | no ne ↦ inl (sym (if_neg (Text-discrete m.endpoint_id id) ne true (is_member id ms)) ∙ h)
]

module _ {F : Type 0} ⦃f : Float F⦄ where
  -- A signal as it is computed.
  abbrev Follows : Provider F → Request F → Text → Option (EndpointSignal F) → Type 0
  Follows p r id none = ⊥
  Follows p r id (some s) =
      (s.excluded ≡ is_excluded (exclusion p r id))
      × (s.cooldown_until ≡ cooldown_left r.now (cooldown_of (p.metrics id)))
      × (s.recent_error_rate ≡ error_rate_of (p.metrics id))

  signal_of-Follows :
      (p : Provider F) (r : Request F) (m : PoolEndpointMember)
      → Follows p r m.endpoint_id (some (signal_of p r m))
  unfolding signal_of
  signal_of-Follows p r m = (refl, refl, refl)

  put_one-Follows :
      (p : Provider F) (r : Request F) (m : PoolEndpointMember) (id : Text)
      (acc : Map Text (EndpointSignal F))
      → (m.endpoint_id ≡ id) ⊎ Follows p r id (acc id)
      → Follows p r id (put Text-discrete acc m.endpoint_id (some (signal_of p r m)) id)
  put_one-Follows p r m id acc h = elim (Text-discrete m.endpoint_id id) [
    | yes e ↦
        rw (← e, put_self Text-discrete acc m.endpoint_id (some (signal_of p r m)))
          (signal_of-Follows p r m)
    | no ne ↦
        rw (put-ne Text-discrete acc m.endpoint_id id (some (signal_of p r m)) ne)
          (elim h [ inl e ↦ elim (ne e) [ ] | inr t ↦ t ])
  ]

  put_signals-Follows :
      (p : Provider F) (r : Request F) (ms : List PoolEndpointMember) (id : Text)
      (acc : Map Text (EndpointSignal F))
      → (is_member id ms ≡ true) ⊎ Follows p r id (acc id)
      → Follows p r id (put_signals p r ms acc id)
  unfolding put_signals is_member
  put_signals-Follows p r [] id acc h = elim h [ inl e ↦ absurd (cc) | inr t ↦ t ]
  put_signals-Follows p r (m ∷ ms) id acc h =
      let next = put Text-discrete acc m.endpoint_id (some (signal_of p r m)) in
      put_signals-Follows p r ms id next (elim h [
        | inl e ↦ elim (member_cases m ms id e) [
          | inl later ↦ inl later
          | inr here ↦ inr (put_one-Follows p r m id acc (inl here))
        ]
        | inr t ↦ inr (put_one-Follows p r m id acc (inr t))
      ])

  boosted-Follows :
      (p : Provider F) (r : Request F) (id : Text) (s : EndpointSignal F)
      → Follows p r id (some s)
      → Follows p r id (some (boosted s))
  boosted-Follows p r id s h = (ground (arith, h.0), ground (arith, h.1), ground (arith, h.2))

  boost-Follows :
      (p : Provider F) (r : Request F) (sticky id : Text) (signals : Map Text (EndpointSignal F))
      (found : Option (EndpointSignal F))
      → signals sticky ≡ found
      → Follows p r id (signals id)
      → Follows p r id (boost signals sticky found id)
  boost-Follows p r sticky id signals none e h = h
  boost-Follows p r sticky id signals (some s) e h = elim (Text-discrete sticky id) [
    | yes q ↦
        rw (← q, put_self Text-discrete signals sticky (some (boosted s)))
          (boosted-Follows p r sticky s (rw (← q, e) at h))
    | no ne ↦ rw (put-ne Text-discrete signals sticky id (some (boosted s)) ne) h
  ]

  keep_sticky-Follows :
      (p : Provider F) (r : Request F) (members : List PoolEndpointMember) (o : Option Text)
      (id : Text) (signals : Map Text (EndpointSignal F))
      → Follows p r id (signals id)
      → Follows p r id (keep_sticky p r members o signals id)
  keep_sticky-Follows p r members none id signals h = h
  keep_sticky-Follows p r members (some sticky) id signals h =
      let keeps = boost-Follows p r sticky id signals (signals sticky) refl h in
      elim (sticky_is_capable p r sticky
          && not (
              collapsed (trusted_ratio (p.metrics sticky))
                (best_other_ratio p sticky none members)))
        as (λ b.
          Follows p r id ((if b then boost signals sticky (signals sticky) else signals) id)) [
            | true ↦ keeps
            | false ↦ h
          ]

  signals_of-Follows :
      (p : Provider F) (r : Request F) (members : List PoolEndpointMember) (id : Text)
      → is_member id members ≡ true
      → Follows p r id (signals_of p r members id)
  unfolding signals_of
  signals_of-Follows p r members id h =
      let all = put_signals-Follows p r members id empty (inl h) in
      elim r.affinity_enabled
        as (λ b. Follows p r id (
          (if b
              then keep_sticky p r members r.sticky_endpoint_id (put_signals p r members empty)
              else put_signals p r members empty)
            id)) [
              | true ↦
                  keep_sticky-Follows p r members r.sticky_endpoint_id id
                    (put_signals p r members empty) all
              | false ↦ all
            ]

  -- A signal that excludes the endpoint exactly for a reason, and tells its cooldown and its rate of
  -- errors.
  abbrev pub Tells : Provider F → Request F → Text → Option (EndpointSignal F) → Type 0
  Tells p r id none = ⊥
  Tells p r id (some s) =
      ((s.excluded ≡ true) ↔ HasReason p r id)
      × (s.cooldown_until ≡ cooldown_left r.now (cooldown_of (p.metrics id)))
      × (s.recent_error_rate ≡ error_rate_of (p.metrics id))

  told :
      (p : Provider F) (r : Request F) (id : Text) (o : Option (EndpointSignal F))
      → Follows p r id o
      → Tells p r id o
  told p r id none h = h
  told p r id (some s) h =
      (((λ e. excluded_reason p r id (sym h.0 ∙ e)), λ c. h.0 ∙ reason_excluded p r id c), h.1, h.2)

  -- Every member of the pool has a signal, whether or not a session sticks to it. The signal excludes
  -- the endpoint exactly when it is cooling down, or lacks the tools that the request needs, or is
  -- dropped by the budget; and it tells its cooldown and its rate of errors.
  pub signals_of-Tells :
      (p : Provider F) (r : Request F) (members : List PoolEndpointMember) (id : Text)
      → is_member id members ≡ true
      → Tells p r id (signals_of p r members id)
  signals_of-Tells p r members id h =
      told p r id (signals_of p r members id) (signals_of-Follows p r members id h)

  unprotected :
      (p : Provider F) (r : Request F) (id : Text)
      → budget_protected p r id ≡ true
      → cooling r.now (cooldown_of (p.metrics id)) ≡ false
      → (r.has_tools && is_false (profile_of p id).supports_tools) ≡ false
      → is_excluded (exclusion p r id) ≡ false
  unfolding exclusion
  unprotected p r id a b c = ground arith

  Follows-found :
      (p : Provider F) (r : Request F) (id : Text) (o : Option (EndpointSignal F))
      → Follows p r id o
      → is_excluded (exclusion p r id) ≡ false
      → (s : EndpointSignal F) × (o ≡ some s) × (s.excluded ≡ false)
  Follows-found p r id none h e = absurd h
  Follows-found p r id (some s) h e = (s, refl, h.0 ∙ e)

  -- On a hard task under `capability_aware`, a member that is qualified for it, is not cooling down
  -- and has the tools that the request needs is not excluded, even if the budget asks for cheaper
  -- endpoints.
  pub signals_of_protected :
      (p : Provider F) (r : Request F) (members : List PoolEndpointMember) (id : Text)
      → is_member id members ≡ true
      → r.strategy ≡ capability_aware
      → f.le hard_task_difficulty r.difficulty ≡ true
      → capability_qualified
          (capability_or (f.decimal 5 1) (p.profiles id))
          r.difficulty
          r.max_pool_capability
        ≡ true
      → cooling r.now (cooldown_of (p.metrics id)) ≡ false
      → (r.has_tools && is_false (profile_of p id).supports_tools) ≡ false
      → (s : EndpointSignal F) × (signals_of p r members id ≡ some s) × (s.excluded ≡ false)
  unfolding budget_protected
  signals_of_protected p r members id h st hard able cool tools =
      Follows-found p r id (signals_of p r members id) (signals_of-Follows p r members id h)
        (unprotected p r id (rw (st, hard, able) refl) cool tools)
