-- ===== src/Accounts/Login.antt =====
-- src/saas/auth.rs: the login. The limit on its attempts is the process's own; the cookie of the answer
-- and the time of the last login are left out.
use smart_gate.Base.{
  Bool, List, Option, Text, codes, if◌then◌else◌, none, some, ℕ, ◌&&◌, ◌*◌, ◌∷◌, [],
}
use smart_gate.Base.Map.{Map}
use smart_gate.Warm.Sessions.{Result, ok}
use smart_gate.Accounts.Checks.{
  Failure, failure, is_legacy, is_same, normalize_email, rate_limit_exceeded, verify_password,
}
use smart_gate.Accounts.Database.{
  Accounts, Query, SaasUser, lift, query, user_by_email, update, ◌>>=◌, ◌>>◌,
}
use smart_gate.Accounts.Register.{create_session}

abbrev pub nanos_per_second : ℕ
nanos_per_second = 1_000_000_000

-- The accounts, and the times of the attempts to log in of each address.
pub record Console : Type 0 where
  pub accounts : Accounts
  pub logins : Map Text (List ℕ)

abbrev on_accounts : {A : Type 0} → Query A → Console → Result Failure A × Console
on_accounts q s = let (r, a) = q s.accounts in (r, record s { accounts = a })

module _ (hash_token hash_password : Text → Text) (verify_argon2 : Text → Text → Bool)
    (session_time : ℕ) (fails : ℕ → Option Text) where
  abbrev set_password : Text → Text → List SaasUser → List SaasUser
  set_password id hash [] = []
  set_password id hash (u ∷ us) =
      (if is_same u.id id then record u { password_hash = hash } else u) ∷ set_password id hash us

  -- A hash of the old kind is replaced.
  abbrev upgrade : SaasUser → (password : Text) → Query Unit
  upgrade user password =
      if is_legacy hash_token user.password_hash
      then query (fails 1)
          (update λ a. record a { users = set_password user.id (hash_password password) a.users })
      else lift (ok tt)

  abbrev pub admit : (password : Text) → Option SaasUser → Query SaasUser
  admit password none = lift (failure 401 (codes "Invalid email or password"))
  admit password (some user) =
      if is_same user.status (codes "active")
        && verify_password hash_token verify_argon2 password user.password_hash
      then lift (ok user)
      else lift (failure 401 (codes "Invalid email or password"))

  abbrev pub logged_in : (token email password : Text) (now : ℕ) → Query Text
  logged_in token email password now =
      query (fails 0) (λ a. (ok (user_by_email email a.users), a)) >>= λ found.
      admit password found >>= λ user.
      upgrade user password
      >> query (fails 2) (lift (ok tt))
      >> create_session hash_token hash_password session_time fails token user.id now

  unfoldable pub login :
      (token email password : Text) (now later session_now : ℕ)
      → Console
      → Result Failure Text × Console
  unfolding normalize_email rate_limit_exceeded verify_password create_session query
  login token email password now later session_now s =
      let address = normalize_email email in
      let (logins, exceeded) =
        rate_limit_exceeded s.logins address 5 (300 * nanos_per_second) now later in
      let s' = record s { logins = logins } in
      if exceeded
      then (failure 429 (codes "Too many login attempts. Please try again in a few minutes."), s')
      else on_accounts (logged_in token address password session_now) s'
