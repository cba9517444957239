-- ===== src/Warm/Counts.antt =====
-- What a publication does to the counts of the warm store.
use smart_gate.Base.{Bool-cases, List, Option, Text, inl, inr, none, refl, some, ℕ, ◌+◌, ◌∙◌, ◌≡◌}
use smart_gate.Context.Json.{Value}
use smart_gate.Warm.Keys.{SessionKey}
use smart_gate.Warm.Errors.{WarmError}
use smart_gate.Warm.Sessions.{Result, SessionError, SessionPrefix, SessionStore, err, ok}
use smart_gate.Warm.Store.{
  Act, PrefixSnapshot, PublishInput, WarmMetrics, World, first_error, lift, pure, reject,
  to_gateway_epoch, ◌>>=◌, ◌>>◌,
}
use smart_gate.Warm.Operations.{
  and_then, bind_model, binding_for, check_binding, check_size, commit, count, existing_found,
  existing_prefix, get_key, is_expired, or_option, prefix_of, publish, publish_checks, publish_key,
  remove_binding, stored_found, stored_prefix, to_snapshot,
}

abbrev pub succeeded : WarmMetrics → WarmMetrics
succeeded m = record m { publish_successes = m.publish_successes + 1 }

module _ {S : SessionStore} where
  -- What an action that ends a publication does to the counts.
  abbrev pub Ends : {A : Type 0} → World S → Result WarmError A × World S → Type 0
  Ends w (ok a, w') = w'.metrics ≡ succeeded w.metrics
  Ends w (err e, w') = w'.metrics ≡ w.metrics

  abbrev Silent : {A : Type 0} → Act S A → Type 0
  Silent m = (w : World S) → (m w).1.metrics ≡ w.metrics

  Ends-from :
      {A : Type 0} (w w' : World S) (r : Result WarmError A × World S)
      → w'.metrics ≡ w.metrics
      → Ends w' r
      → Ends w r
  Ends-from w w' (ok a, w'') e h = rw (← e) h
  Ends-from w w' (err x, w'') e h = h ∙ e

  -- A silent action may stand before one that ends.
  Ends-after :
      {A B : Type 0} (w : World S) (r : Result WarmError A × World S) (k : A → Act S B)
      → r.1.metrics ≡ w.metrics
      → ((a : A) (w' : World S) → Ends w' (k a w'))
      → Ends {A = B} w (elim (r.0) [ ok a ↦ k a r.1 | err e ↦ (err e, r.1) ])
  Ends-after w (ok a, w') k e h = Ends-from w w' (k a w') e (h a w')
  Ends-after w (err x, w') k e h = e

  Ends-bind :
      {A B : Type 0} (m : Act S A) (k : A → Act S B) (w : World S)
      → (m w).1.metrics ≡ w.metrics
      → ((a : A) (w' : World S) → Ends w' (k a w'))
      → Ends w ((m >>= k) w)
  Ends-bind m k w e h = Ends-after w (m w) k e h

  reject-Silent : (o : Option WarmError) → Silent (reject o)
  reject-Silent none w = refl
  reject-Silent (some e) w = refl

  remove_binding-Silent :
      (key : SessionKey) (w : World S) → (remove_binding key w).metrics ≡ w.metrics
  unfolding remove_binding
  remove_binding-Silent key w = refl

  bind_model-Silent :
      (key : SessionKey) (o : Option Text) (w : World S) → (bind_model key o w).metrics ≡ w.metrics
  unfolding bind_model
  bind_model-Silent key none w = refl
  bind_model-Silent key (some m) w = refl

module _ (S : SessionStore) (hash : List Value → Text) where
  existing_found-Silent :
      (key : SessionKey) (r : Result SessionError (Option SessionPrefix))
      → Silent (existing_found S hash key r)
  existing_found-Silent key (ok p) w = refl
  existing_found-Silent key (err e) w = elim (Bool-cases (is_expired e)) [
    | inl gone ↦ rw gone (remove_binding-Silent key w)
    | inr kept ↦ rw kept refl
  ]

  stored_found-Silent :
      (o : Option SessionPrefix) (r : Result SessionError (Option SessionPrefix))
      → Silent (stored_found S hash o r)
  stored_found-Silent o (err e) w = refl
  stored_found-Silent o (ok (some p)) w = refl
  stored_found-Silent (some p) (ok none) w = refl
  stored_found-Silent none (ok none) w = refl

  -- The end of a publication that succeeds.
  abbrev counted : PrefixSnapshot → Act S PrefixSnapshot
  counted p =
      and_then (count (λ m. record m { publish_successes = m.publish_successes + 1 })) >> pure p

  counted-Ends : (p : PrefixSnapshot) (w : World S) → Ends w (counted p w)
  counted-Ends p w = refl

  commit-Ends :
      (key : SessionKey) (input : PublishInput) (binding : Option Text)
      (existing : Option SessionPrefix) (epoch : ℕ) (w : World S)
      → Ends w (commit S hash key input binding existing epoch w)
  unfolding commit
  commit-Ends key input binding existing epoch w =
      Ends-bind (publish_key S hash key (prefix_of S hash input epoch)) _ w refl λ u w1.
        Ends-bind (and_then (bind_model key (or_option input.virtual_model_id binding))) _ w1
          (bind_model-Silent key (or_option input.virtual_model_id binding) w1)
          λ v w2.
            Ends-bind (stored_prefix S hash key existing)
              (λ p. counted (to_snapshot S hash p (or_option input.virtual_model_id binding))) w2
              (stored_found-Silent existing (get_key S hash key w2).0 (get_key S hash key w2).1)
              λ p w3.
                counted-Ends (to_snapshot S hash p (or_option input.virtual_model_id binding)) w3

  pub publish-Ends :
      (key : SessionKey) (input : PublishInput) (w : World S)
      → Ends
          (count (λ m. record m { publish_attempts = m.publish_attempts + 1 }) w)
          (publish S hash key input w)
  unfolding publish
  publish-Ends key input w =
      Ends-bind (reject (first_error (publish_checks S hash input))) _ _ (reject-Silent _ _) λ u w1.
        Ends-bind (λ v. (ok (binding_for key v), v)) _ w1 refl
          λ binding w2.
            Ends-bind (reject (check_binding S hash binding input.virtual_model_id)) _ w2
              (reject-Silent _ w2)
              λ v w3.
                Ends-bind (existing_prefix S hash key) _ w3
                  (existing_found-Silent key (get_key S hash key w3).0 (get_key S hash key w3).1)
                  λ existing w4.
                    Ends-bind (lift (to_gateway_epoch input.epoch)) _ w4 refl λ epoch w5.
                      Ends-bind (reject (check_size S hash input.messages)) _ w5
                        (reject-Silent _ w5) λ x w6. commit-Ends key input binding existing epoch w6
