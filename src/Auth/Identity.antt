-- ===== src/Auth/Identity.antt =====
-- `AuthContext::from_request_parts`. The tables are lists, and a query may fail; the hash of a token
-- is a parameter.
use smart_gate.Base.{
  Bool, List, Option, Text, Text-discrete, [], codes, false, if◌then◌else◌, ite, none, some, suc,
  true, zero, ℕ, ◌&&◌, ◌∷◌,
}
use smart_gate.Base.Headers.{Headers, header_text}
use smart_gate.Difficulty.Words.{starts_with}

pub record ApiKey : Type 0 where
  pub id : Text
  pub project_id : Text
  pub key_hash : Text
  pub enabled : Bool

pub record AuthContext : Type 0 where
  pub project : Text
  pub api_key : ApiKey

pub data Rejection : Type 0 where
  missing_header : Rejection
  invalid_format : Rejection
  invalid_key : Rejection
  database_error : Rejection
  no_project : Rejection

pub data Identity : Type 0 where
  known_as : AuthContext → Identity
  rejected : Rejection → Identity

-- `WHERE key_hash = $1 AND enabled = TRUE`
unfoldable pub find_key : Text → List ApiKey → Option ApiKey
find_key h [] = none
find_key h (k ∷ ks) =
    let rest = find_key h ks in
    if ite (Text-discrete k.key_hash h) true false && k.enabled then some k else rest

unfoldable pub has_project : Text → List Text → Bool
has_project p [] = false
has_project p (q ∷ qs) = ite (Text-discrete q p) true (has_project p qs)

unfoldable pub without_prefix : ℕ → Text → Text
without_prefix zero t = t
without_prefix (suc n) [] = []
without_prefix (suc n) (c ∷ t) = without_prefix n t

module _ (hash_token : Text → Text) (keys : Option (List ApiKey))
    (projects : Option (List Text)) where
  abbrev pub with_project : Option (List Text) → ApiKey → Identity
  with_project none k = rejected no_project
  with_project (some ps) k =
      if has_project k.project_id ps
      then known_as (record { project = k.project_id; api_key = k })
      else rejected no_project

  abbrev pub with_key : Option ApiKey → Identity
  with_key none = rejected invalid_key
  with_key (some k) = with_project projects k

  abbrev pub with_token : Option (List ApiKey) → Text → Identity
  with_token none token = rejected database_error
  with_token (some ks) token = with_key (find_key (hash_token token) ks)

  abbrev pub with_header : Option Text → Identity
  with_header none = rejected missing_header
  with_header (some h) =
      if starts_with (codes "Bearer ") h
      then with_token keys (without_prefix 7 h)
      else rejected invalid_format

  unfoldable pub from_request_parts : Headers → Identity
  unfolding find_key has_project without_prefix starts_with
  from_request_parts headers = with_header (header_text (headers (codes "authorization")))
