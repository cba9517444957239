-- ===== src/Auth/Models.antt =====
-- `resolve_authorized_virtual_model`: its two queries over the tables. The order of ids is the one of
-- the database, a parameter, as is the row taken among equals.
use smart_gate.Base.{
  Bool, List, Option, Text, Text-discrete, [], codes, false, if◌then◌else◌, ite, ltb, none, not,
  some, true, ℕ, ◌&&◌, ◌==◌, ◌∷◌, ◌||◌,
}

pub record VirtualModel : Type 0 where
  pub id : Text
  pub pool_id : Text
  pub name : Text
  pub enabled : Bool

-- Pools by id and name, grants by their two ids.
pub record Database : Type 0 where
  pub virtual_models : List VirtualModel
  pub model_pools : List (Text × Text)
  pub project_model_grants : List (Text × Text)
  pub api_key_model_grants : List (Text × Text)

abbrev pub same : Text → Text → Bool
same a b = ite (Text-discrete a b) true false

-- The names of the pools that a row joins with.
unfoldable pub pool_named : List (Text × Text) → (pool_id : Text) → (Text → Bool) → Bool
pool_named [] pool p = false
pool_named ((id, name) ∷ ps) pool p = (same id pool && p name) || pool_named ps pool p

unfoldable pub has_grant : List (Text × Text) → Text → Text → Bool
has_grant [] owner vm = false
has_grant ((o, v) ∷ gs) owner vm = (same o owner && same v vm) || has_grant gs owner vm

unfoldable pub has_any_grant : List (Text × Text) → Text → Bool
has_any_grant [] owner = false
has_any_grant ((o, v) ∷ gs) owner = same o owner || has_any_grant gs owner

-- A key without grants of its own may use every model of its project.
unfoldable pub key_may_use : Database → (api_key_id vm : Text) → Bool
unfolding has_grant has_any_grant
key_may_use db key vm =
    has_grant db.api_key_model_grants key vm || not (has_any_grant db.api_key_model_grants key)

-- What both queries ask of a row.
unfoldable pub authorized : Database → (project_id api_key_id : Text) → VirtualModel → Bool
unfolding has_grant key_may_use
authorized db project key vm =
    has_grant db.project_model_grants project vm.id && vm.enabled && key_may_use db key vm.id

unfoldable pub requested : Database → Text → VirtualModel → Bool
unfolding pool_named
requested db model vm =
    pool_named db.model_pools vm.pool_id
      (λ pool_name. same vm.id model || same vm.name model || same pool_name model)

unfoldable pub is_default : Database → VirtualModel → Bool
unfolding pool_named
is_default db vm = pool_named db.model_pools vm.pool_id (λ pool_name.
    same vm.name (codes "smartgate/auto")
    || same vm.name (codes "auto")
    || same vm.name (codes "free-chat"))

unfoldable pub select : (VirtualModel → Bool) → List VirtualModel → List VirtualModel
select p [] = []
select p (v ∷ vs) = let rest = select p vs in if p v then v ∷ rest else rest

-- `ORDER BY … LIMIT 1`
module _ (before : VirtualModel → VirtualModel → Bool) where
  abbrev pub better : VirtualModel → Option VirtualModel → Option VirtualModel
  better v none = some v
  better v (some w) = if before w v then some w else some v

  unfoldable pub take_first : List VirtualModel → Option VirtualModel
  take_first [] = none
  take_first (v ∷ vs) = better v (take_first vs)

abbrev pub exact_rank : Text → VirtualModel → ℕ
exact_rank model vm = if same vm.id model then 0 else if same vm.name model then 1 else 2

abbrev pub default_rank : VirtualModel → ℕ
default_rank vm =
    if same vm.name (codes "smartgate/auto")
    then 0
    else if same vm.name (codes "auto")
    then 1
    else 2

abbrev pub by_rank :
    (VirtualModel → ℕ) → (VirtualModel → VirtualModel → Bool) → VirtualModel → VirtualModel → Bool
by_rank rank tie v w = ltb (rank v) (rank w) || (rank v == rank w && tie v w)

-- `none` is an error of the database: either query may fail.
module _ (id_before taken_before : VirtualModel → VirtualModel → Bool)
    (exact_fails default_fails : Bool) where
  unfoldable pub exact_match : Database → (model project_id api_key_id : Text) → Option VirtualModel
  unfolding take_first select requested authorized
  exact_match db model project key =
      take_first (by_rank (exact_rank model) id_before)
        (select (λ vm. requested db model vm && authorized db project key vm) db.virtual_models)

  unfoldable pub default_match : Database → (project_id api_key_id : Text) → Option VirtualModel
  unfolding take_first select is_default authorized
  default_match db project key =
      take_first (by_rank default_rank taken_before)
        (select (λ vm. is_default db vm && authorized db project key vm) db.virtual_models)

  abbrev pub or_default : Option VirtualModel → Option VirtualModel → Option (Option VirtualModel)
  or_default (some vm) next = some (some vm)
  or_default none next = if default_fails then none else some next

  unfoldable pub resolve_authorized_virtual_model :
      Database → (model project_id api_key_id : Text) → Option (Option VirtualModel)
  unfolding exact_match default_match
  resolve_authorized_virtual_model db model project key =
      if exact_fails
      then none
      else or_default (exact_match db model project key) (default_match db project key)
