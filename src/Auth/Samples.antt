-- ===== src/Auth/Samples.antt =====
-- A request for a model that does not exist, in a project that has the default.
use smart_gate.Base.{Bool, Text-discrete, [], codes, false, refl, some, true, ◌∷◌, ◌≡◌}
use smart_gate.Auth.Models.{
  Database, VirtualModel, authorized, default_match, exact_match, has_any_grant, has_grant,
  is_default, key_may_use, pool_named, requested, resolve_authorized_virtual_model, select,
  take_first,
}
use smart_gate.Auth.Grants.{Served, resolve_authorized_virtual_model-Served}

abbrev auto_model : VirtualModel
auto_model = record { id = codes "vm"; pool_id = codes "p"; name = codes "auto"; enabled = true }

abbrev tables : Database
tables = record {
  virtual_models = auto_model ∷ [];
  model_pools = (codes "p", codes "pool") ∷ [];
  project_model_grants = (codes "project", codes "vm") ∷ [];
  api_key_model_grants = [];
}

abbrev never : VirtualModel → VirtualModel → Bool
never v w = false

served :
    resolve_authorized_virtual_model never never false false tables
      (codes "gpt")
      (codes "project")
      (codes "key")
    ≡ some (some auto_model)
unfolding resolve_authorized_virtual_model exact_match default_match take_first select requested
    is_default pool_named authorized has_grant key_may_use has_any_grant Text-discrete
served = refl

resolve_authorized_virtual_model-Served_example :
    Served never never false false tables (codes "gpt") (codes "project") (codes "key") auto_model
resolve_authorized_virtual_model-Served_example =
    resolve_authorized_virtual_model-Served never never false false tables (codes "gpt")
      (codes "project") (codes "key") auto_model served
