-- ===== src/Warm/RoundTrip.antt =====
-- A published prefix, and the delta that follows it.
use smart_gate.Warm.Errors.{WarmError}
use smart_gate.Warm.Reads.{assemble_delta, delta_error, delta_found, delta_prefix}
use smart_gate.Warm.Delta.{after_prefix, bind-ok, reject-ok}
use smart_gate.Base.{
  List, Option, Text, ap, arith, false, none, refl, some, sym, ℕ, ◌++◌, ◌+◌, ◌<◌, ◌^◌, ◌∙◌, ◌≡◌,
}
use smart_gate.Base.Map.{put}
use smart_gate.Base.Int.{negsuc, pos, ℤ}
use smart_gate.Context.Json.{Value}
use smart_gate.Warm.Keys.{SessionKey}
use smart_gate.Warm.Sessions.{IsLawful, Result, SessionError, SessionPrefix, SessionStore, err, ok}
use smart_gate.Warm.Store.{
  Act, PrefixSnapshot, PublishInput, WarmContext, World, first_error, lift, on_error, pure, reject,
  to_gateway_epoch, ◌>>=◌, ◌>>◌,
}
use smart_gate.Warm.Operations.{
  and_then, bind_model, binding_for, check_binding, check_size, clashes, commit, count,
  existing_prefix, get_key, key_of, or_option, prefix_of, publish, publish_checks, publish_key,
  stored_found, stored_prefix, to_snapshot, validate_virtual_model,
}

module _ (S : SessionStore) (hash : List Value → Text) where
  -- What a publication comes to once its checks have passed.
  record IsCommitted (key : SessionKey) (input : PublishInput) (w : World S) : Type 0 where
    binding : Option Text
    existing : Option SessionPrefix
    epoch : ℕ
    before : World S
    same_number : to_gateway_epoch input.epoch ≡ ok epoch
    same : publish S hash key input w ≡ commit S hash key input binding existing epoch before

  abbrev sized :
      SessionKey → PublishInput → Option Text → Option SessionPrefix → ℕ → Act S PrefixSnapshot
  sized key input eb ex n =
      reject (check_size S hash input.messages) >> commit S hash key input eb ex n

  abbrev numbered :
      SessionKey → PublishInput → Option Text → Option SessionPrefix → Act S PrefixSnapshot
  numbered key input eb ex = lift (to_gateway_epoch input.epoch) >>= sized key input eb ex

  abbrev found : SessionKey → PublishInput → Option Text → Act S PrefixSnapshot
  found key input eb = existing_prefix S hash key >>= numbered key input eb

  abbrev bound : SessionKey → PublishInput → Option Text → Act S PrefixSnapshot
  bound key input eb = reject (check_binding S hash eb input.virtual_model_id) >> found key input eb

  publish-IsCommitted :
      (key : SessionKey) (input : PublishInput) (w : World S) (snap : PrefixSnapshot)
      → (publish S hash key input w).0 ≡ ok snap
      → IsCommitted key input w
  unfolding publish
  publish-IsCommitted key input w snap h =
      let w0 : World S = count (λ m. record m { publish_attempts = m.publish_attempts + 1 }) w in
      let eb : Option Text = binding_for key w0 in
      let checked : Act S PrefixSnapshot = λ v. bound key input (binding_for key v) v in
      let (e1, s1, h1) = reject-ok (first_error (publish_checks S hash input)) checked w0 snap h in
      let (e2, s2, h2) =
        reject-ok (check_binding S hash eb input.virtual_model_id) (found key input eb) w0 snap
          h1 in
      let (ex, e3, s3) = bind-ok (existing_prefix S hash key) (numbered key input eb) w0 snap h2 in
      let w1 : World S = (existing_prefix S hash key w0).1 in
      let (n, e4, s4) =
        bind-ok (lift (to_gateway_epoch input.epoch)) (sized key input eb ex) w1 snap
          (rw s3 at h2) in
      let (e5, s5, h5) =
        reject-ok (check_size S hash input.messages) (commit S hash key input eb ex n) w1 snap
          (rw (s3 ∙ s4) at h2) in
      record {
        binding = eb;
        existing = ex;
        epoch = n;
        before = w1;
        same_number = ap (λ r. r.0) e4;
        same = s1 ∙ (s2 ∙ (s3 ∙ (s4 ∙ s5)));
      }

  stored_found-world :
      (ex : Option SessionPrefix) (r : Result SessionError (Option SessionPrefix)) (w : World S)
      → (stored_found S hash ex r w).1 ≡ w
  stored_found-world ex (err e) w = refl
  stored_found-world ex (ok (some p)) w = refl
  stored_found-world (some p) (ok none) w = refl
  stored_found-world none (ok none) w = refl

  bind_model-sessions :
      (key : SessionKey) (o : Option Text) (w : World S)
      → (bind_model key o w).sessions ≡ w.sessions
  unfolding bind_model
  bind_model-sessions key none w = refl
  bind_model-sessions key (some m) w = refl

  bind_model-clashes :
      (key : SessionKey) (incoming bound : Option Text) (w : World S)
      → clashes (binding_for key (bind_model key (or_option incoming bound) w)) incoming ≡ false
  unfolding bind_model binding_for put
  bind_model-clashes key none bound w = ground arith
  bind_model-clashes key (some m) bound w = ground arith

  -- What a reader finds after the write.
  record IsReadable (key : SessionKey) (input : PublishInput) (n : ℕ) (w : World S) : Type 0 where
    stored : (get_key S hash key w).0 ≡ ok (some (prefix_of S hash input n))
    unclashing : clashes (binding_for key w) input.virtual_model_id ≡ false

  on_error-ok : (r : Result SessionError Unit) (u : Unit) → on_error r ≡ ok u → r ≡ ok tt
  on_error-ok (ok tt) u h = refl
  on_error-ok (err e) u h = absurd cc

  bind_model-same :
      (key : SessionKey) (o : Option Text) (w v : World S)
      → v.virtual_models ≡ w.virtual_models
      → binding_for key v ≡ binding_for key w
  unfolding binding_for
  bind_model-same key o w v h = rw h refl

  commit-IsReadable :
      (L : IsLawful S) (key : SessionKey) (input : PublishInput) (eb : Option Text)
      (ex : Option SessionPrefix) (n : ℕ) (w : World S) (snap : PrefixSnapshot)
      → (commit S hash key input eb ex n w).0 ≡ ok snap
      → IsReadable key input n (commit S hash key input eb ex n w).1
  unfolding commit
  commit-IsReadable L key input eb ex n w snap h =
      let p = prefix_of S hash input n in
      let k = key_of S hash key in
      let model : Option Text = or_option input.virtual_model_id eb in
      let finish : SessionPrefix → Act S PrefixSnapshot = λ stored.
        and_then (count (λ m. record m { publish_successes = m.publish_successes + 1 }))
        >> pure (to_snapshot S hash stored model) in
      let read : Act S PrefixSnapshot = stored_prefix S hash key ex >>= finish in
      let bind_it : Unit → Act S PrefixSnapshot = λ u. and_then (bind_model key model) >> read in
      let (u, e1, s1) = bind-ok (publish_key S hash key p) bind_it w snap h in
      let written = on_error-ok (S.publish_key w.sessions k p).0 u (ap (λ r. r.0) e1) in
      let w2 : World S = bind_model key model (publish_key S hash key p w).1 in
      let (q, e2, s2) = bind-ok (stored_prefix S hash key ex) finish w2 snap (rw s1 at h) in
      let after = (get_key S hash key w2).1 in
      let last : (commit S hash key input eb ex n w).1
          ≡ count (λ m. record m { publish_successes = m.publish_successes + 1 }) after =
        ap (λ r. r.1) (s1 ∙ s2)
        ∙ ap (λ v. count (λ m. record m { publish_successes = m.publish_successes + 1 }) v)
            (stored_found-world ex (get_key S hash key w2).0 after) in
      rw last (record {
        stored =
            L.get-get w2.sessions k
            ∙ (ap (λ t. (S.get_key t k).0)
                  (bind_model-sessions key model (publish_key S hash key p w).1)
                ∙ L.get-publish w.sessions k p written);
        unclashing =
            unfold binding_for in
            bind_model-clashes key input.virtual_model_id eb (publish_key S hash key p w).1;
      })

  bind-eq :
      {A B : Type 0} (m : Act S A) (f : A → Act S B) (w : World S) (a : A) (v : World S)
      → m w ≡ (ok a, v)
      → (m >>= f) w ≡ f a v
  bind-eq {B = B} m f w a v h =
      ap
        (λ x. elim (x.0) as (λ _. Result WarmError B × World S) [
          | ok b ↦ f b x.1
          | err e ↦ (err e, x.1)
        ])
        h

  reject-none :
      {A : Type 0} (o : Option WarmError) (k : Act S A) (w : World S)
      → o ≡ none
      → (reject o >> k) w ≡ k w
  reject-none none k w h = refl
  reject-none (some e) k w h = absurd cc

  validate-passes :
      (key : SessionKey) (model : Option Text) (w : World S)
      → clashes (binding_for key w) model ≡ false
      → validate_virtual_model key model w ≡ (ok tt, w)
  unfolding validate_virtual_model
  validate-passes key model w h = rw h refl

  readable-assembles :
      (key : SessionKey) (input : PublishInput) (context : WarmContext) (tail : List Value) (n : ℕ)
      (w : World S)
      → IsReadable key input n w
      → delta_error S hash (prefix_of S hash input n) context tail ≡ none
      → (assemble_delta S hash key context tail input.virtual_model_id w).0
        ≡ ok (input.messages ++ tail)
  unfolding assemble_delta
  readable-assembles key input context tail n w r passes =
      let p = prefix_of S hash input n in
      let w1 : World S = (get_key S hash key w).1 in
      let model = input.virtual_model_id in
      let last : Act S (List Value) = pure (input.messages ++ tail) in
      let rest : Act S (List Value) = reject (delta_error S hash p context tail) >> last in
      let found : delta_prefix S hash key w ≡ (ok p, w1) =
        ap (λ x. delta_found S hash key x w1) r.stored in
      let valid : validate_virtual_model key model w1 ≡ (ok tt, w1) =
        validate-passes key model w1 r.unclashing in
      ap (λ x. x.0)
        (bind-eq (delta_prefix S hash key) (λ q. after_prefix S hash key context tail model q) w p
            w1 found
          ∙ (bind-eq (validate_virtual_model key model) (λ u. rest) w1 tt w1 valid
              ∙ reject-none (delta_error S hash p context tail) last w1 passes))

  delta_error-none :
      (input : PublishInput) (context : WarmContext) (tail : List Value) (n : ℕ)
      → n < 2 ^ 63
      → context.epoch ≡ some (pos n)
      → context.prefix_hash ≡ none
      → context.tail_start ≡ some input.message_count
      → S.validate_tail tail ≡ none
      → S.validate_assembled (input.messages ++ tail) ≡ none
      → delta_error S hash (prefix_of S hash input n) context tail ≡ none
  unfolding delta_error
  delta_error-none input context tail n small e h t vt va = rw (e, h, t, vt, va) (ground arith)

  number_of : (e : ℤ) (m n : ℕ) → to_gateway_epoch e ≡ ok n → e ≡ pos m → n ≡ m
  number_of (pos k) m n h e = cc
  number_of (negsuc k) m n h e = absurd cc

  -- Over a store without lifetimes: after a publication that succeeded, a delta that names it by its
  -- epoch and its number of messages, under the same model and within the size limits, is answered by
  -- the published messages followed by the tail.
  pub assemble_delta-publish :
      IsLawful S
      → (key : SessionKey) (input : PublishInput) (context : WarmContext) (tail : List Value)
        (w : World S) (snap : PrefixSnapshot) (n : ℕ)
      → (publish S hash key input w).0 ≡ ok snap
      → input.epoch ≡ pos n
      → n < 2 ^ 63
      → context.epoch ≡ some input.epoch
      → context.prefix_hash ≡ none
      → context.tail_start ≡ some input.message_count
      → S.validate_tail tail ≡ none
      → S.validate_assembled (input.messages ++ tail) ≡ none
      → (assemble_delta S hash key context tail input.virtual_model_id
          (publish S hash key input w).1).0
        ≡ ok (input.messages ++ tail)
  assemble_delta-publish L key input context tail w snap n h at_n small e hash_none t vt va =
      let c = publish-IsCommitted key input w snap h in
      let same_n = number_of input.epoch n c.epoch c.same_number at_n in
      let readable =
        commit-IsReadable L key input c.binding c.existing c.epoch c.before snap (rw c.same at h) in
      rw c.same (
        readable-assembles key input context tail c.epoch
          (commit S hash key input c.binding c.existing c.epoch c.before).1 readable
          (delta_error-none input context tail c.epoch (omega arith)
            (e ∙ ap some (at_n ∙ ap pos (sym same_n))) hash_none t vt va))
