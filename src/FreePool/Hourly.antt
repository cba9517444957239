-- ===== src/FreePool/Hourly.antt =====
-- How many keys an address gets in an hour, whatever claims arrive.
use smart_gate.Base.Headers.{Headers}
use smart_gate.Base.{
  Bool, List, Option, Text, [], ap, arith, codes, false, if◌then◌else◌, none, not, refl, some, true,
  ℕ, ◌++◌, ◌∷◌, ◌≡◌, ◌≤◌,
}
use smart_gate.Base.Map.{empty}
use smart_gate.FreePool.Window.{Tracker, extract_client_ip, pop_old}
use smart_gate.FreePool.Claim.{
  Answer, ClaimKeyResponse, FreeTokenPoolConfig, Outside, Refusal, World, as_usize, checked,
  claim_free_key, disabled, granted, issue, key_name_of, models_or, refused, response_of,
  unavailable, with_config,
}
use smart_gate.FreePool.Covers.{Checked, Covers, Grant, IsHourly, check-Checked}

-- Claims one after the other, at times that do not fall; the settings may change in between.
pub record System (F : Type 0) : Type 0 where
  pub world : World F
  pub log : List Grant
  pub clock : ℕ

module _ {F : Type 0} where
  abbrev pub limit_of : Option (FreeTokenPoolConfig F) → ℕ
  limit_of none = 0
  limit_of (some config) = as_usize config.max_keys_per_ip_per_hour

  abbrev pub grants : Outside F → Headers → ℕ → List Grant → Answer F → List Grant
  grants o headers now log (granted r) =
      record { ip = extract_client_ip headers; time = now; limit = limit_of o.config } ∷ log
  grants o headers now log (refused r) = log

  abbrev pub settle : Outside F → Headers → ℕ → List Grant → World F × Answer F → System F
  settle o headers now log (w, a) = record {
    world = w;
    log = grants o headers now log a;
    clock = now;
  }

  abbrev pub init : System F
  init = record { world = record { tracker = empty; api_keys = [] }; log = []; clock = 0 }

module _ {F : Type 0} (hash_token : Text → Text) where
  pub data Reach : System F → Type 0 where
    start : Reach init
    claim :
        (s : System F) (o : Outside F) (headers : Headers) (name : Option Text) (now : ℕ)
        → s.clock ≤ now
        → Reach s
        → Reach (settle o headers now s.log (claim_free_key hash_token o headers name now s.world))

  record IsKept (s : System F) : Type 0 where
    pub hourly : IsHourly s.log
    pub covers : Covers s.world.tracker s.log s.clock

  module _ (s : System F) (o : Outside F) (headers : Headers) (name : Option Text) (now : ℕ)
      (h : s.clock ≤ now) (v : IsKept s) where
    unchanged : (r : Refusal) → IsKept (settle o headers now s.log (s.world, refused r))
    unchanged r = record { hourly = v.hourly; covers = λ j later k. v.covers j later (omega arith) }

    abbrev AllOf : FreeTokenPoolConfig F → Tracker × Bool → Type 0
    AllOf config r =
        Checked s.world.tracker (extract_client_ip headers)
          (as_usize config.max_keys_per_ip_per_hour) now s.clock s.log h v.covers r

    module _ (config : FreeTokenPoolConfig F) (e : o.config ≡ some config) where
      granted-IsKept :
          (w : World F) (r : ClaimKeyResponse F)
          → AllOf config (w.tracker, true)
          → IsKept (settle o headers now s.log (w, granted r))
      granted-IsKept w r c =
          let limit : limit_of o.config ≡ as_usize config.max_keys_per_ip_per_hour =
            ap limit_of e in
          record { hourly = (omega (arith, c.0, limit), v.hourly); covers = c.1 }

      either-IsKept :
          (b : Bool) (x y : World F × Answer F)
          → IsKept (settle o headers now s.log x)
          → IsKept (settle o headers now s.log y)
          → IsKept (settle o headers now s.log (if b then x else y))
      either-IsKept true x y p q = p
      either-IsKept false x y p q = q

      issue-IsKept :
          (m : Tracker)
          → AllOf config (m, true)
          → IsKept (
              settle o headers now s.log
                (issue hash_token o config name (record (s.world) { tracker = m })))
      unfolding issue
      issue-IsKept m c =
          let raw_key = codes "sg-free-" ++ o.random_key in
          either-IsKept (o.inserts) _ _
            (granted-IsKept _
              (response_of hash_token config raw_key (key_name_of name raw_key)
                (models_or o.models))
              c)
            (record { hourly = v.hourly; covers = c.2 })

      checked-IsKept :
          (r : Tracker × Bool)
          → AllOf config r
          → IsKept (settle o headers now s.log (checked hash_token o config name s.world r))
      checked-IsKept (m, true) c = issue-IsKept m c
      checked-IsKept (m, false) c = record { hourly = v.hourly; covers = c }

    claimed-IsKept :
        (config : Option (FreeTokenPoolConfig F))
        → o.config ≡ config
        → IsKept
            (settle o headers now s.log (with_config hash_token config o headers name now s.world))
    claimed-IsKept none e = unchanged unavailable
    claimed-IsKept (some config) e =
        either-IsKept config e (not config.enabled) _ _ (unchanged disabled)
          (checked-IsKept config e _ (check-Checked _ _ _ now _ _ h v.covers))

  Reach-IsKept : {s : System F} → Reach s → IsKept s
  unfolding claim_free_key pop_old
  Reach-IsKept start = record { hourly = tt; covers = λ j later k. omega arith }
  Reach-IsKept (claim s o headers name now h r) =
      claimed-IsKept s o headers name now h (Reach-IsKept r) (o.config) refl

  -- Whatever claims arrive, at times that do not fall, and however the settings change in between:
  -- at each key that is given out, the hour that ends there has at most as many keys for its
  -- address as the limit of that moment.
  pub Reach-IsHourly : {s : System F} → Reach s → IsHourly s.log
  Reach-IsHourly r = (Reach-IsKept r).hourly
