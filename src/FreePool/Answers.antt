-- ===== src/FreePool/Answers.antt =====
-- What the answer to a claim tells of the table of keys.
use smart_gate.Base.{
  Bool, Option, Text, arith, codes, false, if◌then◌else◌, none, not, refl, some, true, ℕ, ◌++◌, ◌∷◌,
  ◌≡◌,
}
use smart_gate.Base.Headers.{Headers}
use smart_gate.FreePool.Window.{Tracker}
use smart_gate.FreePool.Claim.{
  Answer, ClaimKeyResponse, FreeTokenPoolConfig, KeyRow, Outside, World, checked, claim_free_key,
  granted, issue, key_name_of, refused, response_of, row_of, with_config,
}

not-false : {b : Bool} → not b ≡ false → b ≡ true
not-false e = ground arith

module _ {F : Type 0} (hash_token : Text → Text) where
  -- The row that a key was stored in: it holds the hash of the key in the answer, and the quota of
  -- the answer, under the project of the settings.
  pub record IsStored (config : FreeTokenPoolConfig F) (r : ClaimKeyResponse F) (row : KeyRow F)
      : Type 0 where
    pub hash : row.key_hash ≡ hash_token r.api_key
    pub prefix : row.key_prefix ≡ r.key_prefix
    pub limits : row.limits ≡ r.quota
    pub name : row.name ≡ r.name
    pub is_enabled : row.enabled ≡ true
    pub project : row.project_id ≡ config.project_id

  pub record IsGranted (o : Outside F) (r : ClaimKeyResponse F) (w w' : World F) : Type 0 where
    pub settings : FreeTokenPoolConfig F
    pub is_config : o.config ≡ some settings
    pub is_enabled : settings.enabled ≡ true
    pub row : KeyRow F
    pub stored : IsStored settings r row
    pub id : row.id ≡ o.random_id
    pub key : r.api_key ≡ codes "sg-free-" ++ o.random_key
    pub added : w'.api_keys ≡ row ∷ w.api_keys

  abbrev pub Tells : Outside F → World F → World F × Answer F → Type 0
  Tells o w (w', granted r) = IsGranted o r w w'
  Tells o w (w', refused x) = w'.api_keys ≡ w.api_keys

  either-Tells :
      (o : Outside F) (w : World F) (b : Bool) (x y : World F × Answer F)
      → (b ≡ true → Tells o w x)
      → (b ≡ false → Tells o w y)
      → Tells o w (if b then x else y)
  either-Tells o w true x y p q = p refl
  either-Tells o w false x y p q = q refl

  module _ (o : Outside F) (name : Option Text) (w : World F) (config : FreeTokenPoolConfig F)
      (e : o.config ≡ some config) (on : config.enabled ≡ true) where
    issue-Tells :
        (m : Tracker) → Tells o w (issue hash_token o config name (record w { tracker = m }))
    unfolding issue row_of response_of
    issue-Tells m =
        either-Tells o w (o.inserts) _ _
          (λ done. record {
            settings = config;
            is_config = e;
            is_enabled = on;
            row =
                row_of hash_token config o.random_id (codes "sg-free-" ++ o.random_key)
                  (key_name_of name (codes "sg-free-" ++ o.random_key));
            stored = record {
              hash = refl;
              prefix = refl;
              limits = refl;
              name = refl;
              is_enabled = refl;
              project = refl;
            };
            id = refl;
            key = refl;
            added = refl;
          })
          (λ failed. refl)

    checked-Tells : (r : Tracker × Bool) → Tells o w (checked hash_token o config name w r)
    checked-Tells (m, true) = issue-Tells m
    checked-Tells (m, false) = refl

  with_config-Tells :
      (config : Option (FreeTokenPoolConfig F)) (o : Outside F) (headers : Headers)
      (name : Option Text) (now : ℕ) (w : World F)
      → o.config ≡ config
      → Tells o w (with_config hash_token config o headers name now w)
  with_config-Tells none o headers name now w e = refl
  with_config-Tells (some config) o headers name now w e =
      either-Tells o w (not config.enabled) _ _ (λ off. refl)
        (λ on. checked-Tells o name w config e (not-false on) _)

  -- A claim that is granted adds one row, with the hash of the key that is given out and the quota
  -- that the answer names, while claims are enabled; any other claim leaves the table as it was.
  pub claim_free_key-Tells :
      (o : Outside F) (headers : Headers) (name : Option Text) (now : ℕ) (w : World F)
      → Tells o w (claim_free_key hash_token o headers name now w)
  unfolding claim_free_key
  claim_free_key-Tells o headers name now w = with_config-Tells (o.config) o headers name now w refl
