-- ===== src/Accounts/Verified.antt =====
-- A registration that makes an account: the code that it was made with.
use smart_gate.Base.{
  Bool-cases, Option, Option-cases, Text, ap, arith, false, inl, inr, none, refl, some, sym, true,
  ℕ, ◌+◌, ◌<◌, ◌∙◌, ◌≡◌, ◌⊎◌,
}
use smart_gate.Warm.Sessions.{Result, err, ok}
use smart_gate.Accounts.Checks.{Failure, is_same, normalize_email, verification_code_hash}
use smart_gate.Accounts.Database.{
  Accounts, Query, Verification, lift, query, set_verification, transaction, update, ◌>>◌,
}
use smart_gate.Accounts.Register.{
  Fresh, RegisterRequest, Times, create_session, is_spent, register, registration, verify,
}
use smart_gate.Accounts.Attempts.{checks, lifts_still, next, next-ok, registers}

module _ {A : Type 0} where
  query-ok :
      (o : Option Text) (m : Query A) (a : Accounts) (x : A)
      → (query o m a).0 ≡ ok x
      → (m a).0 ≡ ok x
  unfolding query
  query-ok (some printed) m a x h = absurd cc
  query-ok none m a x h = h

module _ {A : Type 0} (V : Type 0) (a : Accounts) where
  -- The users are as they were, or there is `V`.
  abbrev Grows : Result Failure A × Accounts → Type 0
  Grows r = (r.1.users ≡ a.users) ⊎ V

module _ {V : Type 0} where
  queried :
      (o : Option Text) (m : Query Unit) (a : Accounts) → Grows V a (m a) → Grows V a (query o m a)
  unfolding query
  queried (some printed) m a h = inl refl
  queried none m a h = h

  committed_or_kept :
      (r : Result Failure Unit × Accounts) (a : Accounts)
      → (r.0 ≡ ok tt → V)
      → Grows V a (elim (r.0) as (λ _. Result Failure Unit × Accounts) [
        | ok x ↦ (ok x, r.1)
        | err e ↦ (err e, a)
      ])
  committed_or_kept (ok x, a') a h = inr (h refl)
  committed_or_kept (err e, a') a h = inl refl

module _ (V : Type 0) (a : Accounts) where
  next-Grows :
      (r : Result Failure Unit × Accounts) (m : Query Unit)
      → r.1 ≡ a
      → Grows V a (m a)
      → Grows V a (next (λ u. m) r)
  next-Grows (ok x, a') m e h = rw e h
  next-Grows (err f, a') m e h = inl (ap (λ b. b.users) e)

  next-keeps :
      (r : Result Failure Unit × Accounts) (k : Unit → Query Text)
      → Grows V a r
      → ((x : Unit) (u : Accounts) → (k x u).1.users ≡ u.users)
      → Grows V a (next k r)
  next-keeps (ok x, a') k (inl e) h = inl (h x a' ∙ e)
  next-keeps (ok x, a') k (inr v) h = inr v
  next-keeps (err f, a') k g h = g

saved_keeps :
    (o : Option Text) (m : Accounts → Accounts) (t : Text) (a : Accounts)
    → ((u : Accounts) → (m u).users ≡ u.users)
    → ((query o (update m) >> lift (ok t)) a).1.users ≡ a.users
unfolding query
saved_keeps (some printed) m t a h = refl
saved_keeps none m t a h = h a

same_eq : {s t : Text} → is_same s t ≡ true → s ≡ t
same_eq {s} {t} h = ground (arith, h)

count_refused :
    {P : Type 0} (o : Option Text) (m : Accounts → Accounts) (f : Failure) (a : Accounts)
    → ((query o (update m) >> lift (err f)) a).0 ≡ ok tt
    → P
unfolding query
count_refused (some printed) m f a h = absurd cc
count_refused none m f a h = absurd cc

abbrev value_or : {A : Type 0} → A → Result Failure A → A
value_or d (ok x) = x
value_or d (err e) = d

module _ (hash_token hash_password : Text → Text) (session_time : ℕ) (fails : ℕ → Option Text)
    (ids : Fresh) (times : Times) (input : RegisterRequest) where
  abbrev email : Text
  email = normalize_email input.email

  -- The row has a code that is not used, not expired and not spent by attempts, and whose hash is
  -- that of the code of the request.
  abbrev pub IsVerified : Option Verification → Type 0
  IsVerified w =
      (v : Verification) × (w ≡ some v)
      × (v.used_at ≡ none)
      × (times.now < v.expires_at)
      × (v.attempts < 5)
      × (v.code_hash ≡ verification_code_hash hash_token email input.verification_code)

  unspent :
      (v : Verification)
      → is_spent v times.now ≡ false
      → (v.used_at ≡ none) × (times.now < v.expires_at) × (v.attempts < 5)
  unspent v h = elim (Option-cases v.used_at) [
    | inl e ↦ let k = rw e at h in (e, ground (arith, k), ground (arith, k))
    | inr (t, e) ↦ absurd (let k = rw e at h in cc)
  ]

  verify-IsVerified :
      (w : Option Verification) (a : Accounts)
      → (verify hash_token hash_password session_time fails ids times email input w a).0 ≡ ok tt
      → IsVerified w
  verify-IsVerified none a h = absurd cc
  verify-IsVerified (some v) a h = elim (Bool-cases (is_spent v times.now)) [
    | inl e ↦ absurd (let k = rw e at h in cc)
    | inr e ↦
        elim (Bool-cases
          (is_same v.code_hash (verification_code_hash hash_token email input.verification_code))) [
            | inl g ↦ let (a, b, c) = unspent v e in (v, refl, a, b, c, same_eq g)
            | inr g ↦
                count_refused (fails 2)
                  (set_verification email (record v { attempts = v.attempts + 1 })) _ a
                  (let k = rw (e, g) at h in k)
          ]
  ]

  registration-IsVerified :
      (a : Accounts)
      → (registration hash_token hash_password session_time fails ids times email input a).0 ≡ ok tt
      → IsVerified (a.verifications email)
  unfolding registration
  registration-IsVerified a h =
      let (w, ew, e) =
        next-ok (query (fails 1) (λ a. (ok (a.verifications email), a)) a)
          (verify hash_token hash_password session_time fails ids times email input) tt h in
      let same = ap (value_or w) (query-ok (fails 1) _ a w ew) in
      rw (sym same) at (verify-IsVerified w _ e)

  entered :
      (a : Accounts)
      → Grows
          (IsVerified (a.verifications email))
          a
          (registers hash_token hash_password session_time fails ids times input a)
  unfolding transaction
  entered a = queried (fails 0) _ a (
      committed_or_kept
        (registration hash_token hash_password session_time fails ids times email input a) a
        (registration-IsVerified a))

  session_keeps :
      (u : Accounts)
      → (create_session hash_token hash_password session_time fails ids.token ids.user_id
          times.later u).1.users
        ≡ u.users
  unfolding create_session
  session_keeps u = saved_keeps (fails 9) _ ids.token u (λ v. refl)

  -- Whatever a registration answers, also where it fails after its commit: the users are as they
  -- were, or there is a code that was sent to the address, that is neither used nor expired nor
  -- spent by five attempts, and whose hash is that of the code of the request.
  pub register-IsVerified :
      (a : Accounts)
      → ((register hash_token hash_password session_time fails ids times input a).1.users ≡ a.users)
        ⊎ IsVerified (a.verifications email)
  unfolding register
  register-IsVerified a =
      let gate = checks hash_token hash_password session_time fails ids times input in
      let reg = registers hash_token hash_password session_time fails ids times input in
      next-keeps _ a ((gate >> reg) a)
        (λ u.
          create_session hash_token hash_password session_time fails ids.token ids.user_id
            times.later)
        (next-Grows _ a (gate a) reg (lifts_still _ _ a) (entered a)) (λ u. session_keeps)
