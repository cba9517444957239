-- ===== src/Warm/Delta.antt =====
-- What a client that sends deltas may rely on.
use smart_gate.Warm.Keys.{SessionKey}
use smart_gate.Base.{
  All, Bool, Bool-cases, List, Option, Text, [], ap, arith, false, if◌then◌else◌, inl, inr, length,
  none, refl, some, true, ℕ, ◌++◌, ◌∷◌, ◌≡◌, ◌⊎◌,
}
use smart_gate.Base.Int.{negsuc, pos, ℤ}
use smart_gate.Context.Json.{Value}
use smart_gate.Warm.Sessions.{Result, SessionError, SessionPrefix, SessionStore, err, ok}
use smart_gate.Warm.Errors.{WarmError, epoch_mismatch}
use smart_gate.Warm.Store.{Act, WarmContext, World, first_error, pure, reject, ◌>>=◌, ◌>>◌}
use smart_gate.Warm.Operations.{binding_for, clashes, get_key, number_or, validate_virtual_model}
use smart_gate.Warm.Reads.{
  assemble_delta, delta_checks, delta_error, delta_found, delta_prefix, print_matches, same_epoch,
  tail_at,
}

Result-cases : {E A : Type 0} (r : Result E A) → ((a : A) × (r ≡ ok a)) ⊎ ((e : E) × (r ≡ err e))
Result-cases (ok a) = inl (a, refl)
Result-cases (err e) = inr (e, refl)

first_error-none : (es : List (Option WarmError)) → first_error es ≡ none → All (λ e. e ≡ none) es
first_error-none [] h = tt
first_error-none (none ∷ es) h = (refl, first_error-none es h)
first_error-none (some e ∷ es) h = absurd cc

module _ {S : SessionStore} where
  pub reject-ok :
      {A : Type 0} (o : Option WarmError) (k : Act S A) (w : World S) (a : A)
      → ((reject o >> k) w).0 ≡ ok a
      → (o ≡ none) × ((reject o >> k) w ≡ k w) × ((k w).0 ≡ ok a)
  reject-ok none k w a h = (refl, refl, h)
  reject-ok (some e) k w a h = absurd cc

  pub bind-ok :
      {A B : Type 0} (m : Act S A) (f : A → Act S B) (w : World S) (b : B)
      → ((m >>= f) w).0 ≡ ok b
      → (a : A) × (m w ≡ (ok a, (m w).1)) × ((m >>= f) w ≡ f a (m w).1)
  bind-ok m f w b h = elim (Result-cases (m w).0) [
    | inl (a, e) ↦ (a, ap (λ r. (r, (m w).1)) e, rw (◌>>=◌, e) refl)
    | inr (x, e) ↦ absurd (let k : err x ≡ ok b = rw (◌>>=◌, e) at h in cc)
  ]

module _ (S : SessionStore) (hash : List Value → Text) where
  -- The delta names the stored prefix: its epoch, its length and, if given, its hash.
  pub record Names (p : SessionPrefix) (context : WarmContext) : Type 0 where
    pub epoch : context.epoch ≡ some (pos p.epoch)
    pub tail_start : context.tail_start ≡ some (number_or (length p.messages) p.message_count)
    pub prefix_hash : print_matches S hash p.fingerprint context.prefix_hash ≡ none

  passed : (b : Bool) (e : WarmError) → (if b then none else some e) ≡ none → b ≡ true
  passed true e h = refl
  passed false e h = cc

  same_epoch-eq : (e : Option ℤ) (n : ℕ) → same_epoch e n ≡ true → e ≡ some (pos n)
  same_epoch-eq none n h = cc
  same_epoch-eq (some (negsuc m)) n h = cc
  same_epoch-eq (some (pos m)) n h = ap (λ k. some (pos k)) (ground arith)

  tail_at-eq : (n : ℕ) (o : Option ℕ) → tail_at n o ≡ none → o ≡ some n
  tail_at-eq n none h = cc
  tail_at-eq n (some m) h = ap some (ground arith)

  delta_error-Names :
      (p : SessionPrefix) (context : WarmContext) (tail : List Value)
      → delta_error S hash p context tail ≡ none
      → Names p context
  unfolding delta_error
  delta_error-Names p context tail h =
      let (e1, (e2, (e3, (e4, e5)))) = first_error-none (delta_checks S hash p context tail) h in
      record {
        epoch =
            same_epoch-eq context.epoch p.epoch
              (passed (same_epoch context.epoch p.epoch) epoch_mismatch e2);
        tail_start =
            tail_at-eq (number_or (length p.messages) p.message_count) context.tail_start e4;
        prefix_hash = e3;
      }

  delta_found-ok :
      (key : SessionKey) (r : Result SessionError (Option SessionPrefix)) (w : World S)
      (p : SessionPrefix)
      → (delta_found S hash key r w).0 ≡ ok p
      → (r ≡ ok (some p)) × ((delta_found S hash key r w).1 ≡ w)
  delta_found-ok key (ok none) w p h = absurd cc
  delta_found-ok key (ok (some q)) w p h = (cc, refl)
  delta_found-ok key (err e) w p h = absurd (ground arith)

  abbrev pub after_prefix :
      SessionKey → WarmContext → List Value → Option Text → SessionPrefix → Act S (List Value)
  after_prefix key context tail model p w =
      (validate_virtual_model key model
          >> (reject (delta_error S hash p context tail) >> pure (p.messages ++ tail)))
        w

  validate-ok :
      (key : SessionKey) (model : Option Text) (w : World S) (u : Unit)
      → (validate_virtual_model key model w).0 ≡ ok u
      → (clashes (binding_for key w) model ≡ false) × ((validate_virtual_model key model w).1 ≡ w)
  unfolding validate_virtual_model
  validate-ok key model w u h = elim (Bool-cases (clashes (binding_for key w) model)) [
    | inl c ↦ absurd (ground (arith, c, h))
    | inr c ↦ (c, rw c refl)
  ]

  after_prefix-ok :
      (key : SessionKey) (context : WarmContext) (tail out : List Value) (model : Option Text)
      (p : SessionPrefix) (w : World S)
      → (after_prefix key context tail model p w).0 ≡ ok out
      → (clashes (binding_for key w) model ≡ false)
        × (delta_error S hash p context tail ≡ none)
        × (out ≡ p.messages ++ tail)
  after_prefix-ok key context tail out model p w h =
      let last : Act S (List Value) = pure (p.messages ++ tail) in
      let rest : Act S (List Value) = reject (delta_error S hash p context tail) >> last in
      let (u, valid, same) = bind-ok (validate_virtual_model key model) (λ x. rest) w out h in
      let (agrees, at_w) = validate-ok key model w u (ap (λ r. r.0) valid) in
      let (passes, skipped, done) =
        reject-ok (delta_error S hash p context tail) last (validate_virtual_model key model w).1
          out (rw same at h) in
      (agrees, passes, let k : ok (p.messages ++ tail) ≡ ok out = done in cc)

  -- A delta is only ever put together with the stored prefix that it names, under the model that the
  -- session is bound to: the answer is that prefix followed by the tail.
  pub assemble_delta-Names :
      (key : SessionKey) (context : WarmContext) (tail out : List Value) (model : Option Text)
      (w : World S)
      → (assemble_delta S hash key context tail model w).0 ≡ ok out
      → (p : SessionPrefix) × ((get_key S hash key w).0 ≡ ok (some p))
        × Names p context
        × (clashes (binding_for key w) model ≡ false)
        × (out ≡ p.messages ++ tail)
  unfolding assemble_delta validate_virtual_model
  assemble_delta-Names key context tail out model w h =
      let (p, found, same_found) =
        bind-ok (delta_prefix S hash key) (after_prefix key context tail model) w out h in
      let (at_p, at_w) =
        delta_found-ok key (get_key S hash key w).0 (get_key S hash key w).1 p
          (ap (λ r. r.0) found) in
      let (agrees, passes, same) =
        after_prefix-ok key context tail out model p (delta_prefix S hash key w).1
          (rw same_found at h) in
      (p, at_p, delta_error-Names p context tail passes, rw at_w at agrees, same)
