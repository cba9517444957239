-- ===== src/Accounts/Attempts.antt =====
-- A registration that is refused: what it leaves.
use smart_gate.Base.{Option, Text, ap, arith, none, refl, some, sym, ℕ, ◌∙◌, ◌≡◌}
use smart_gate.Warm.Sessions.{Result, err, ok}
use smart_gate.Accounts.Checks.{
  Failure, normalize_email, validate_credentials, validate_verification_code,
}
use smart_gate.Accounts.Database.{Accounts, Query, lift, query, transaction, update, ◌>>◌}
use smart_gate.Accounts.Register.{
  Fresh, RegisterRequest, Times, create_session, register, registration,
}

module _ {A : Type 0} where
  -- What fails leaves the accounts as they were.
  abbrev IsClean : Query A → Type 0
  IsClean m = (a : Accounts) (f : Failure) → (m a).0 ≡ err f → (m a).1 ≡ a

  rolled_back :
      (r : Result Failure A × Accounts) (a : Accounts) (f : Failure)
      → (elim (r.0) as (λ _. Result Failure A × Accounts) [
        | ok x ↦ (ok x, r.1)
        | err e ↦ (err e, a)
      ]).0
        ≡ err f
      → (elim (r.0) as (λ _. Result Failure A × Accounts) [
        | ok x ↦ (ok x, r.1)
        | err e ↦ (err e, a)
      ]).1
        ≡ a
  rolled_back (ok x, a') a f h = absurd cc
  rolled_back (err e, a') a f h = refl

  transaction-IsClean : (body : Query A) → IsClean (transaction body)
  unfolding transaction
  transaction-IsClean body a f h = rolled_back (body a) a f h

  query-IsClean : (o : Option Text) (m : Query A) → IsClean m → IsClean (query o m)
  unfolding query
  query-IsClean (some printed) m c a f h = refl
  query-IsClean none m c a f h = c a f h

module _ {A B : Type 0} where
  -- What follows a step, by the outcome of the step.
  abbrev pub next : (A → Query B) → Result Failure A × Accounts → Result Failure B × Accounts
  next k r = elim (r.0) as (λ _. Result Failure B × Accounts) [
    | ok x ↦ k x r.1
    | err e ↦ (err e, r.1)
  ]

  next-IsClean :
      (r : Result Failure A × Accounts) (k : A → Query B) (a : Accounts) (f : Failure)
      → r.1 ≡ a
      → ((x : A) → IsClean (k x))
      → (next k r).0 ≡ err f
      → (next k r).1 ≡ a
  next-IsClean (ok x, a') k a f e c h = c x a' f h ∙ e
  next-IsClean (err g, a') k a f e c h = e

  -- A last step that only fails with another status.
  next-other :
      (r : Result Failure A × Accounts) (k : A → Query B) (a : Accounts) (f : Failure)
      → ((g : Failure) → r.0 ≡ err g → r.1 ≡ a)
      → ((x : A) (u : Accounts) (g : Failure) → (k x u).0 ≡ err g → g.status ≡ 500)
      → f.status ≡ 400
      → (next k r).0 ≡ err f
      → (next k r).1 ≡ a
  next-other (ok x, a') k a f c d e h = absurd (let w = d x a' f h in omega arith)
  next-other (err g, a') k a f c d e h = c g refl

  -- Where the whole went through, so did the step.
  pub next-ok :
      (r : Result Failure A × Accounts) (k : A → Query B) (b : B)
      → (next k r).0 ≡ ok b
      → (x : A) × (r.0 ≡ ok x) × ((k x r.1).0 ≡ ok b)
  next-ok (ok x, a') k b h = (x, refl, h)
  next-ok (err g, a') k b h = absurd cc

abbrev status_of : {A : Type 0} → Result Failure A → ℕ
status_of (ok x) = 200
status_of (err e) = e.status

pub lifts_still : (v w : Result Failure Unit) (a : Accounts) → ((lift v >> lift w) a).1 ≡ a
lifts_still (ok u) w a = refl
lifts_still (err e) w a = refl

saved_or_failed :
    (o : Option Text) (m : Accounts → Accounts) (t : Text) (a : Accounts) (f : Failure)
    → ((query o (update m) >> lift (ok t)) a).0 ≡ err f
    → f.status ≡ 500
unfolding query
saved_or_failed (some printed) m t a f h = ap status_of (sym h)
saved_or_failed none m t a f h = absurd cc

module _ (hash_token hash_password : Text → Text) (session_time : ℕ) (fails : ℕ → Option Text)
    (ids : Fresh) (times : Times) (input : RegisterRequest) where
  session_or_failed :
      (u : Accounts) (g : Failure)
      → (create_session hash_token hash_password session_time fails ids.token ids.user_id
          times.later u).0
        ≡ err g
      → g.status ≡ 500
  unfolding create_session
  session_or_failed u g h = saved_or_failed (fails 9) _ ids.token u g h

  abbrev pub registers : Query Unit
  registers = query (fails 0) (
      transaction (
        registration hash_token hash_password session_time fails ids times
          (normalize_email input.email) input))

  abbrev pub checks : Query Unit
  checks =
      lift (validate_credentials (normalize_email input.email) input.password)
      >> lift (validate_verification_code input.verification_code)

  enters-IsClean : IsClean (checks >> registers)
  enters-IsClean a f =
      next-IsClean (checks a) (λ u. registers) a f (lifts_still _ _ a)
        λ u. query-IsClean (fails 0) _ (transaction-IsClean _)

  -- A registration that is refused as invalid, also one with a wrong code, leaves the accounts as
  -- they were: nothing counts the attempt.
  pub register-unchanged :
      (a : Accounts) (f : Failure)
      → (register hash_token hash_password session_time fails ids times input a).0 ≡ err f
      → f.status ≡ 400
      → (register hash_token hash_password session_time fails ids times input a).1 ≡ a
  unfolding register
  register-unchanged a f h e =
      next-other ((checks >> registers) a)
        (λ u.
          create_session hash_token hash_password session_time fails ids.token ids.user_id
            times.later)
        a f (enters-IsClean a) (λ u. session_or_failed) e h
