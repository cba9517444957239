-- ===== src/Accounts/Database.antt =====
-- src/saas/auth.rs: the tables that the handlers of accounts read and write, and their queries.
use smart_gate.Base.{
  List, Option, Text, Text-discrete, [], codes, if◌then◌else◌, none, some, ℕ, ◌++◌, ◌∷◌,
}
use smart_gate.Base.Map.{Map, put}
use smart_gate.Warm.Sessions.{Result, err, ok}
use smart_gate.Accounts.Checks.{Failure, failure, is_same}

pub record Verification : Type 0 where
  pub code_hash : Text
  pub attempts : ℕ
  pub sent_at : ℕ
  pub expires_at : ℕ
  pub used_at : Option ℕ

pub record SaasUser : Type 0 where
  pub id : Text
  pub email : Text
  pub password_hash : Text
  pub status : Text

pub record SaasSession : Type 0 where
  pub user_id : Text
  pub token_hash : Text
  pub expires_at : ℕ

-- The rows of `orgs`, `projects` and `org_memberships` by their ids.
pub record Accounts : Type 0 where
  pub verifications : Map Text Verification
  pub users : List SaasUser
  pub orgs : List Text
  pub projects : List (Text × Text)
  pub memberships : List (Text × Text)
  pub sessions : List SaasSession

abbrev pub Query : Type 0 → Type 0
Query A = Accounts → Result Failure A × Accounts

module _ {A B : Type 0} where
  infixl 5 ◌>>=◌ ◌>>◌
  -- `?`
  abbrev pub ◌>>=◌ : Query A → (A → Query B) → Query B
  ◌>>=◌ m k a = let (r, a') = m a in elim r [ ok x ↦ k x a' | err e ↦ (err e, a') ]

  abbrev pub ◌>>◌ : Query A → Query B → Query B
  m >> k = m >>= λ x. k

module _ {A : Type 0} where
  abbrev pub lift : Result Failure A → Query A
  lift r a = (r, a)

  -- A transaction that is dropped before its commit is rolled back.
  unfoldable pub transaction : Query A → Query A
  transaction body a = let (r, a') = body a in elim r [ ok x ↦ (ok x, a') | err e ↦ (err e, a) ]

  -- The query fails with a printed error, or runs.
  unfoldable pub query : Option Text → Query A → Query A
  query (some printed) q a = (failure 500 (codes "Database error: " ++ printed), a)
  query none q a = q a

abbrev pub update : (Accounts → Accounts) → Query Unit
update f a = (ok tt, f a)

abbrev pub user_by_email : Text → List SaasUser → Option SaasUser
user_by_email email [] = none
user_by_email email (u ∷ us) = if is_same u.email email then some u else user_by_email email us

abbrev pub set_verification : Text → Verification → Accounts → Accounts
set_verification email v a = record a {
  verifications = put Text-discrete a.verifications email (some v);
}
