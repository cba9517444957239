-- ===== src/Auth/Grants.antt =====
-- A request is only ever served by a model that it may use.
use smart_gate.Base.{
  All, Bool, Bool-cases, List, Option, Text, [], arith, false, if◌then◌else◌, inl, inr, none, some,
  true, ◌&&◌, ◌∷◌, ◌≡◌, ◌⊎◌,
}
use smart_gate.Auth.Models.{
  Database, VirtualModel, authorized, better, by_rank, default_match, default_rank, exact_match,
  exact_rank, has_grant, is_default, key_may_use, or_default, requested,
  resolve_authorized_virtual_model, select, take_first,
}

module _ (p : VirtualModel → Bool) where
  abbrev Passes : VirtualModel → Type 0
  Passes v = p v ≡ true

  select-Passes : (vs : List VirtualModel) → All Passes (select p vs)
  unfolding select
  select-Passes [] = tt
  select-Passes (v ∷ vs) = elim (Bool-cases (p v)) [
    | inl yes_p ↦ rw yes_p (yes_p, select-Passes vs)
    | inr no_p ↦ rw no_p (select-Passes vs)
  ]

  module _ (before : VirtualModel → VirtualModel → Bool) where
    abbrev Good : Option VirtualModel → Type 0
    Good none = Unit
    Good (some v) = Passes v

    either-Good :
        (b : Bool) (v w : VirtualModel) → Passes v → Passes w → Good (if b then some w else some v)
    either-Good true v w x y = y
    either-Good false v w x y = x

    better-Good :
        (v : VirtualModel) (o : Option VirtualModel) → Passes v → Good o → Good (better before v o)
    better-Good v none x h = x
    better-Good v (some w) x h = either-Good (before w v) v w x h

    take_first-Good : (vs : List VirtualModel) → All Passes vs → Good (take_first before vs)
    unfolding take_first
    take_first-Good [] h = tt
    take_first-Good (v ∷ vs) h = better-Good v (take_first before vs) h.0 (take_first-Good vs h.1)

    selected :
        (vs : List VirtualModel) (v : VirtualModel)
        → take_first before (select p vs) ≡ some v
        → p v ≡ true
    selected vs v e = let g = take_first-Good (select p vs) (select-Passes vs) in rw e at g

-- The project has a grant of the model, the model is enabled, and the key may use it.
pub record IsAuthorized (db : Database) (project key : Text) (vm : VirtualModel) : Type 0 where
  pub granted : has_grant db.project_model_grants project vm.id ≡ true
  pub enabled : vm.enabled ≡ true
  pub allowed : key_may_use db key vm.id ≡ true

and_both : {a b : Bool} → (a && b) ≡ true → (a ≡ true) × (b ≡ true)
and_both e = (ground arith, ground arith)

authorized-IsAuthorized :
    (db : Database) (project key : Text) (vm : VirtualModel)
    → authorized db project key vm ≡ true
    → IsAuthorized db project key vm
unfolding authorized
authorized-IsAuthorized db project key vm e =
    let (both, allowed) = and_both e in
    let (granted, enabled) = and_both both in
    record { granted = granted; enabled = enabled; allowed = allowed }

module _ (id_before taken_before : VirtualModel → VirtualModel → Bool)
    (exact_fails default_fails : Bool) (db : Database) (model project key : Text) where
  abbrev pub Served : VirtualModel → Type 0
  Served vm =
      IsAuthorized db project key vm × ((requested db model vm ≡ true) ⊎ (is_default db vm ≡ true))

  abbrev Serves : Option (Option VirtualModel) → Type 0
  Serves none = Unit
  Serves (some none) = Unit
  Serves (some (some vm)) = Served vm

  exact_match-Served :
      (vm : VirtualModel)
      → exact_match id_before taken_before exact_fails default_fails db model project key ≡ some vm
      → Served vm
  unfolding exact_match
  exact_match-Served vm e =
      let (asked, may) = and_both (
        selected (λ v. requested db model v && authorized db project key v)
          (by_rank (exact_rank model) id_before) db.virtual_models vm e) in
      (authorized-IsAuthorized db project key vm may, inl asked)

  default_match-Served :
      (vm : VirtualModel)
      → default_match id_before taken_before exact_fails default_fails db project key ≡ some vm
      → Served vm
  unfolding default_match
  default_match-Served vm e =
      let (named, may) = and_both (
        selected (λ v. is_default db v && authorized db project key v)
          (by_rank default_rank taken_before) db.virtual_models vm e) in
      (authorized-IsAuthorized db project key vm may, inr named)

  or_default-some :
      (x next : Option VirtualModel) (fails : Bool) (vm : VirtualModel)
      → or_default id_before taken_before exact_fails fails x next ≡ some (some vm)
      → (x ≡ some vm) ⊎ (next ≡ some vm)
  or_default-some (some v) next fails vm e = inl (cc)
  or_default-some none next true vm e = absurd cc
  or_default-some none next false vm e = inr (cc)

  answered :
      (fails : Bool) (r : Option (Option VirtualModel)) (vm : VirtualModel)
      → (if fails then none else r) ≡ some (some vm)
      → r ≡ some (some vm)
  answered true r vm e = absurd cc
  answered false r vm e = e

  -- The model that a request is served by is enabled, granted to its project, and open to its key;
  -- and it is the one that the request names, by its id, its name or the name of its pool, or else
  -- one of the three defaults.
  pub resolve_authorized_virtual_model-Served :
      (vm : VirtualModel)
      → resolve_authorized_virtual_model id_before taken_before exact_fails default_fails db model
          project key
        ≡ some (some vm)
      → Served vm
  unfolding resolve_authorized_virtual_model
  resolve_authorized_virtual_model-Served vm e =
      elim (or_default-some
        (exact_match id_before taken_before exact_fails default_fails db model project key)
        (default_match id_before taken_before exact_fails default_fails db project key)
        default_fails vm (answered exact_fails _ vm e)) [
          | inl x ↦ exact_match-Served vm x
          | inr y ↦ default_match-Served vm y
        ]
