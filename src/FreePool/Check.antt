-- ===== src/FreePool/Check.antt =====
-- `check_free_key`: what a key may do, and what it did today. The database is a parameter: whether it
-- answers, and what it counts for the id of a key. The times of a key are left out.
use smart_gate.Base.{
  Bool, List, Option, Text, Text-discrete, [], if◌then◌else◌, ite, none, some, true, ℕ, ◌∷◌,
}
use smart_gate.Base.Int.{ℤ}
use smart_gate.Context.Text.{is_empty, trim}
use smart_gate.FreePool.Claim.{FreeKeyQuota, KeyRow, World}

pub record CheckKeyResponse (F : Type 0) : Type 0 where
  pub valid : Bool
  pub key_prefix : Text
  pub name : Text
  pub enabled : Bool
  pub rpm_limit : Option ℤ
  pub concurrency_limit : Option ℤ
  pub daily_spend_limit : Option F
  pub requests_today : ℕ
  pub tokens_today : ℕ

pub data CheckAnswer (F : Type 0) : Type 0 where
  usable : CheckKeyResponse F → CheckAnswer F
  bad_request : CheckAnswer F
  database_error : CheckAnswer F
  not_found : CheckAnswer F

-- `SELECT … WHERE key_hash = $1`
unfoldable pub find_row : {F : Type 0} → Text → List (KeyRow F) → Option (KeyRow F)
find_row key_hash [] = none
find_row key_hash (row ∷ rows) =
    ite (Text-discrete row.key_hash key_hash) (some row) (find_row key_hash rows)

abbrev pub usage_or : Option (ℕ × ℕ) → ℕ × ℕ
usage_or none = (0, 0)
usage_or (some u) = u

module _ {F : Type 0} (hash_token : Text → Text) (usage : Text → Option (ℕ × ℕ)) where
  abbrev pub shown :
      (key_prefix name : Text) → Bool → FreeKeyQuota F → (id : Text) → CheckKeyResponse F
  shown key_prefix name enabled limits id = record {
    valid = true;
    key_prefix = key_prefix;
    name = name;
    enabled = enabled;
    rpm_limit = some limits.rpm_limit;
    concurrency_limit = some limits.concurrency_limit;
    daily_spend_limit = some limits.daily_spend_limit;
    requests_today = (usage_or (usage id)).0;
    tokens_today = (usage_or (usage id)).1;
  }

  abbrev pub view_of : KeyRow F → CheckKeyResponse F
  view_of row = shown row.key_prefix row.name row.enabled row.limits row.id

  abbrev pub answer_of : Option (KeyRow F) → CheckAnswer F
  answer_of none = not_found
  answer_of (some row) = usable (view_of row)

  unfoldable pub check_token : (answers : Bool) → Text → World F → CheckAnswer F
  unfolding find_row
  check_token answers token w =
      if is_empty token
      then bad_request
      else if answers
      then answer_of (find_row (hash_token token) w.api_keys)
      else database_error

  unfoldable pub check_free_key : (answers : Bool) → Text → World F → CheckAnswer F
  unfolding trim check_token
  check_free_key answers api_key w = check_token answers (trim api_key) w
