-- ===== src/Accounts/Register.antt =====
-- src/saas/auth.rs: registration with a code that was sent by mail. The names of the workspace and the
-- cookie of the answer are left out.
use smart_gate.Base.{
  Bool, Option, Text, codes, false, if◌then◌else◌, leb, none, some, true, ℕ, ◌+◌, ◌∷◌, ◌||◌,
}
use smart_gate.Warm.Sessions.{Result, ok}
use smart_gate.Accounts.Checks.{
  Failure, failure, is_same, normalize_email, validate_credentials, validate_verification_code,
  verification_code_hash, verification_error,
}
use smart_gate.Accounts.Database.{
  Query, Verification, lift, query, set_verification, transaction, user_by_email, update, ◌>>=◌,
  ◌>>◌,
}

abbrev pub max_attempts : ℕ
max_attempts = 5

pub record RegisterRequest : Type 0 where
  pub email : Text
  pub password : Text
  pub verification_code : Text

-- Fresh ids and a fresh token.
pub record Fresh : Type 0 where
  pub user_id : Text
  pub org_id : Text
  pub project_id : Text
  pub token : Text

-- `now` is read for the expiry, `started` is the start of the transaction, `later` the last read.
pub record Times : Type 0 where
  pub now : ℕ
  pub started : ℕ
  pub later : ℕ

abbrev is_given : Option ℕ → Bool
is_given none = false
is_given (some t) = true

abbrev pub is_spent : Verification → ℕ → Bool
is_spent v now = is_given v.used_at || leb v.expires_at now || leb max_attempts v.attempts

module _ (hash_token hash_password : Text → Text) (session_time : ℕ) (fails : ℕ → Option Text) where
  unfoldable pub create_session : (token user_id : Text) (now : ℕ) → Query Text
  unfolding query
  create_session token user_id now =
      query (fails 9) (
        update (λ a. record a {
          sessions =
              record {
                user_id = user_id;
                token_hash = hash_token token;
                expires_at = now + session_time;
              }
              ∷ a.sessions;
        }))
      >> lift (ok token)

  module _ (ids : Fresh) (times : Times) (email : Text) (input : RegisterRequest) where
    abbrev insert_user : Query Unit
    insert_user a = elim (user_by_email email a.users) [
      | some u ↦ (failure 409 (codes "Email is already registered"), a)
      | none ↦ (
        ok tt,
        record a {
          users =
              record {
                id = ids.user_id;
                email = email;
                password_hash = hash_password input.password;
                status = codes "active";
              }
              ∷ a.users;
        },
      )
    ]

    -- The code is right: it is used, and the account and its workspace are made.
    abbrev pub enroll : Verification → Query Unit
    enroll v =
        query (fails 3)
          (update (set_verification email (record v { used_at = some times.started })))
        >> query (fails 4) insert_user
        >> query (fails 5) (update λ a. record a { orgs = ids.org_id ∷ a.orgs })
        >> query (fails 6)
            (update λ a. record a { projects = (ids.project_id, ids.org_id) ∷ a.projects })
        >> query (fails 7)
            (update λ a. record a { memberships = (ids.org_id, ids.user_id) ∷ a.memberships })
        >> query (fails 8) (lift (ok tt))

    abbrev invalid : Result Failure Unit
    invalid = verification_error (codes "The verification code is invalid or expired")

    -- The code is wrong: the attempt is counted.
    abbrev pub count_attempt : Verification → Query Unit
    count_attempt v =
        query (fails 2) (update (set_verification email (record v { attempts = v.attempts + 1 })))
        >> lift invalid

    abbrev pub verify : Option Verification → Query Unit
    verify none = lift (verification_error (codes "Request a verification code first"))
    verify (some v) =
        if is_spent v times.now
        then lift invalid
        else if is_same v.code_hash
            (verification_code_hash hash_token email input.verification_code)
        then enroll v
        else count_attempt v

    unfoldable pub registration : Query Unit
    unfolding query verification_code_hash
    registration = query (fails 1) (λ a. (ok (a.verifications email), a)) >>= verify

  unfoldable pub register : Fresh → Times → RegisterRequest → Query Text
  unfolding transaction registration create_session validate_credentials validate_verification_code
      normalize_email
  register ids times input =
      let email = normalize_email input.email in
      lift (validate_credentials email input.password)
      >> lift (validate_verification_code input.verification_code)
      >> query (fails 0) (transaction (registration ids times email input))
      >> create_session ids.token ids.user_id times.later
