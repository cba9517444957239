-- ===== src/FreePool/Claim.antt =====
-- `claim_free_key`. The database, the random ids and the hash of a key are parameters; a key is
-- ASCII, so that a slice of bytes is one of characters.
use smart_gate.Base.{
  Bool, List, Option, Text, Text-discrete, [], codes, false, if◌then◌else◌, ite, length, none, not,
  some, suc, true, zero, ℕ, ◌++◌, ◌-◌, ◌^◌, ◌∷◌,
}
use smart_gate.Base.Int.{negsuc, pos, ℤ}
use smart_gate.Base.Headers.{Headers}
use smart_gate.Context.Text.{is_empty, take, trim}
use smart_gate.Difficulty.Words.{starts_with}
use smart_gate.FreePool.Window.{Tracker, check_and_record_ip_claim, extract_client_ip}

-- `F` is the type of amounts, an `f64`.
pub record FreeTokenPoolConfig (F : Type 0) : Type 0 where
  pub enabled : Bool
  pub default_rpm_limit : ℤ
  pub default_concurrency_limit : ℤ
  pub default_daily_spend_limit : F
  pub max_keys_per_ip_per_hour : ℤ
  pub project_id : Text

pub record FreeKeyQuota (F : Type 0) : Type 0 where
  pub rpm_limit : ℤ
  pub concurrency_limit : ℤ
  pub daily_spend_limit : F

pub record ClaimKeyResponse (F : Type 0) : Type 0 where
  pub api_key : Text
  pub key_prefix : Text
  pub name : Text
  pub base_url : Text
  pub models : List Text
  pub default_model : Text
  pub quota : FreeKeyQuota F

-- A row of the table `api_keys`, whose column `enabled` is true unless written.
pub record KeyRow (F : Type 0) : Type 0 where
  pub id : Text
  pub project_id : Text
  pub name : Text
  pub key_hash : Text
  pub key_prefix : Text
  pub limits : FreeKeyQuota F
  pub enabled : Bool

pub data Refusal : Type 0 where
  unavailable : Refusal
  disabled : Refusal
  too_many : Refusal
  not_created : Refusal

pub data Answer (F : Type 0) : Type 0 where
  granted : ClaimKeyResponse F → Answer F
  refused : Refusal → Answer F

-- What the outside answers to one request: the row of the settings, two random ids, whether the
-- insertion succeeds, and the models that the project may use.
pub record Outside (F : Type 0) : Type 0 where
  pub config : Option (FreeTokenPoolConfig F)
  pub random_key : Text
  pub random_id : Text
  pub inserts : Bool
  pub models : Option (List Text)

pub record World (F : Type 0) : Type 0 where
  pub tracker : Tracker
  pub api_keys : List (KeyRow F)

-- `as usize` on an `i32`
abbrev pub as_usize : ℤ → ℕ
as_usize (pos n) = n
as_usize (negsuc n) = 2 ^ 64 - 1 - n

-- `&t[n..]` on ASCII
unfoldable pub drop : ℕ → Text → Text
drop zero t = t
drop (suc n) [] = []
drop (suc n) (c ∷ t) = drop n t

unfoldable pub key_prefix_of : Text → Text
unfolding take drop
key_prefix_of raw_key = take 11 raw_key ++ (codes "..." ++ drop (length raw_key - 4) raw_key)

abbrev pub tag_of : Text → Text
tag_of raw_key = take 8 (drop 8 raw_key)

abbrev pub named : Text → Text → Text
named name tag = name ++ (codes " (" ++ (tag ++ codes ")"))

unfoldable pub key_name_of : Option Text → Text → Text
unfolding trim take drop
key_name_of none raw_key = named (codes "Free Key") (tag_of raw_key)
key_name_of (some custom) raw_key =
    if is_empty (trim custom)
    then named (codes "Free Key") (tag_of raw_key)
    else named (trim custom) (tag_of raw_key)

abbrev pub auto : Text
auto = codes "smartgate/auto"

abbrev pub models_or : Option (List Text) → List Text
models_or none = auto ∷ []
models_or (some ms) = ms

unfoldable pub contains_model : List Text → Text → Bool
contains_model [] m = false
contains_model (n ∷ ms) m = ite (Text-discrete n m) true (contains_model ms m)

unfoldable pub find_smartgate : List Text → Text
unfolding starts_with
find_smartgate [] = auto
find_smartgate (m ∷ ms) =
    let rest = find_smartgate ms in if starts_with (codes "smartgate/") m then m else rest

unfoldable pub default_model_of : List Text → Text
unfolding contains_model find_smartgate
default_model_of ms = if contains_model ms auto then auto else find_smartgate ms

module _ {F : Type 0} (hash_token : Text → Text) where
  abbrev pub quota_of : FreeTokenPoolConfig F → FreeKeyQuota F
  quota_of config = record {
    rpm_limit = config.default_rpm_limit;
    concurrency_limit = config.default_concurrency_limit;
    daily_spend_limit = config.default_daily_spend_limit;
  }

  unfoldable pub row_of : FreeTokenPoolConfig F → (id raw_key name : Text) → KeyRow F
  unfolding key_prefix_of
  row_of config id raw_key name = record {
    id = id;
    project_id = config.project_id;
    name = name;
    key_hash = hash_token raw_key;
    key_prefix = key_prefix_of raw_key;
    limits = quota_of config;
    enabled = true;
  }

  unfoldable pub response_of :
      FreeTokenPoolConfig F → (raw_key name : Text) → List Text → ClaimKeyResponse F
  unfolding key_prefix_of default_model_of
  response_of config raw_key name models = record {
    api_key = raw_key;
    key_prefix = key_prefix_of raw_key;
    name = name;
    base_url = codes "/v1";
    models = models;
    default_model = default_model_of models;
    quota = quota_of config;
  }

  -- After the check of the address.
  unfoldable pub issue :
      Outside F → FreeTokenPoolConfig F → Option Text → World F → World F × Answer F
  unfolding key_name_of row_of response_of
  issue o config name w =
      let raw_key = codes "sg-free-" ++ o.random_key in
      let key_name = key_name_of name raw_key in
      if o.inserts
      then (
        record w { api_keys = row_of config o.random_id raw_key key_name ∷ w.api_keys },
        granted (response_of config raw_key key_name (models_or o.models)),
      )
      else (w, refused not_created)

  abbrev pub checked :
      Outside F
      → FreeTokenPoolConfig F
      → Option Text
      → World F
      → Tracker × Bool
      → World F × Answer F
  checked o config name w (m, true) = issue o config name (record w { tracker = m })
  checked o config name w (m, false) = (record w { tracker = m }, refused too_many)

  abbrev pub with_config :
      Option (FreeTokenPoolConfig F)
      → Outside F
      → Headers
      → Option Text
      → (now : ℕ) → World F
      → World F × Answer F
  with_config none o headers name now w = (w, refused unavailable)
  with_config (some config) o headers name now w =
      if not config.enabled
      then (w, refused disabled)
      else checked o config name w (
          check_and_record_ip_claim w.tracker (extract_client_ip headers)
            (as_usize config.max_keys_per_ip_per_hour) now)

  unfoldable pub claim_free_key :
      Outside F → Headers → Option Text → (now : ℕ) → World F → World F × Answer F
  unfolding check_and_record_ip_claim extract_client_ip issue
  claim_free_key o headers name now w = with_config o.config o headers name now w
