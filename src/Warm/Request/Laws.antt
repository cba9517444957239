-- ===== src/Warm/Request/Laws.antt =====
-- What a parsed context holds.
use smart_gate.Base.Int.{ℤ}
use smart_gate.Base.Headers.{Headers}
use smart_gate.Context.Json.{Fields, Value, get}
use smart_gate.Base.{
  Bool, Option, Text, Text-discrete, codes, false, if◌then◌else◌, inl, inr, ite, none, refl, some,
  true, ℕ, ◌∙◌, ◌≡◌, ◌≢◌, ◌⊎◌, ◌||◌,
}
use smart_gate.Warm.Sessions.{Result, err, ok}
use smart_gate.Warm.Errors.{WarmError}
use smart_gate.Warm.Store.{Delivery, WarmContext, delta, full, same_text}
use smart_gate.Warm.Request.{
  agreed, any_of, as_usize, body_object, context_of, context_with, delivery_of, header_value,
  in_body, is_there, needs_session, parse_context_with_headers, resolve_integer, resolve_string,
  string_field, ◌>>=◌,
}

through :
    {A B : Type 0} {P : Type 0} (r : Result WarmError A) (f : A → Result WarmError B) (b : B)
    → (r >>= f) ≡ ok b
    → ((a : A) → r ≡ ok a → f a ≡ ok b → P)
    → P
through (ok a) f b h k = k a refl h
through (err e) f b h k = absurd cc

module _ (body : Option Fields) (headers : Option Headers) where
  abbrev Kept : Option Text → Delivery → WarmContext → Type 0
  Kept s d c = (c.session_id ≡ s) × (c.delivery ≡ d)

  abbrev made :
      Option Text → Delivery → Option ℤ → Option ℕ → Option Text → Option Text → WarmContext
  made s d e t p r = record {
    session_id = s;
    epoch = e;
    delivery = d;
    prefix_hash = p;
    tail_start = t;
    request_id = r;
  }

  abbrev to_request :
      Option Text
      → Delivery
      → Option ℤ
      → Option ℕ
      → Option Text
      → Result WarmError (Option WarmContext)
  to_request s d e t p = do
    r ← resolve_string body headers (codes "request_id") (codes "x-zene-request-id")
    ok (some (made s d e t p r))

  abbrev to_hash :
      Option Text → Delivery → Option ℤ → Option ℕ → Result WarmError (Option WarmContext)
  to_hash s d e t = do
    p ← resolve_string body headers (codes "prefix_hash") (codes "x-zene-prefix-hash")
    to_request s d e t p

  abbrev to_tail : Option Text → Delivery → Option ℤ → Result WarmError (Option WarmContext)
  to_tail s d e = do
    z ← resolve_integer body headers (codes "tail_start") (codes "x-zene-tail-start")
    t ← as_usize z
    to_hash s d e t

  context_with-Kept :
      (s : Option Text) (d : Delivery) (c : WarmContext)
      → context_with s d body headers ≡ ok (some c)
      → Kept s d c
  unfolding context_with
  context_with-Kept s d c h =
      through (resolve_integer body headers (codes "context_epoch") (codes "x-zene-context-epoch"))
        (to_tail s d) (some c) h
        λ e _ h1.
          through (resolve_integer body headers (codes "tail_start") (codes "x-zene-tail-start"))
            (λ z. as_usize z >>= to_hash s d e) (some c) h1
            λ z _ h2. through (as_usize z) (to_hash s d e) (some c) h2 λ t _ h3.
              through
                (resolve_string body headers (codes "prefix_hash") (codes "x-zene-prefix-hash"))
                (to_request s d e t) (some c) h3
                λ p _ h4.
                  through
                    (resolve_string body headers (codes "request_id") (codes "x-zene-request-id"))
                    (λ r. ok (some (made s d e t p r))) (some c) h4
                    λ r _ h5. (
                      let k : ok (some (made s d e t p r)) ≡ ok (some c) = h5 in cc,
                      let k : ok (some (made s d e t p r)) ≡ ok (some c) = h5 in cc,
                    )

  decided :
      (c h : Text) (r : Option Text) (x : WarmError) (d : Dec (c ≡ h))
      → (if ite d true false then ok (some h) else err x) ≡ ok r
      → (r ≡ some h) × (c ≡ h)
  decided c h r x (yes same) e = (cc, same)
  decided c h r x (no other) e = absurd cc

  agreed-header :
      (body_name header_name : Text) (o r : Option Text) (h : Text)
      → agreed same_text body_name header_name o (some h) ≡ ok r
      → (r ≡ some h) × ((b : Text) → o ≡ some b → b ≡ h)
  agreed-header body_name header_name none r h e = (cc, λ b q. absurd cc)
  agreed-header body_name header_name (some c) r h e =
      let k = decided c h r _ (Text-discrete c h) e in (k.0, λ b q. let w = k.1 in cc)

  needs_session-delta :
      (d : Delivery) (s : Option Text) (u : Unit) → needs_session d s ≡ ok u → d ≡ delta → s ≢ none
  needs_session-delta full s u h e = absurd cc
  needs_session-delta delta (some s) u h e = λ q. cc
  needs_session-delta delta none u h e = absurd cc

  delta_session :
      {d e : Delivery} {s r : Option Text}
      → d ≡ delta
      → d ≡ e
      → r ≡ s
      → (e ≡ delta → s ≢ none)
      → r ≢ none
  delta_session a b q k z = k (cc) (cc)

  -- What is known of the session of a context.
  abbrev Settled : WarmContext → Type 0
  Settled c =
      ((h : Text)
        → header_value headers (codes "x-zene-session-id") ≡ some h
        → c.session_id ≡ some h)
      × ((d : c.delivery ≡ delta) → c.session_id ≢ none)

  abbrev to_checked : Option Text → Delivery → Result WarmError (Option WarmContext)
  to_checked s d = do checked ← needs_session d s; context_with s d body headers

  abbrev to_delivery : Option Text → Option Text → Result WarmError (Option WarmContext)
  to_delivery s n = do d ← delivery_of n; to_checked s d

  abbrev to_named : Option Text → Result WarmError (Option WarmContext)
  to_named s = do
    n ← resolve_string body headers (codes "delivery") (codes "x-zene-context-delivery")
    to_delivery s n

  resolve_string-header :
      (body_name header_name : Text) (r : Option Text) (h : Text)
      → resolve_string body headers body_name header_name ≡ ok r
      → header_value headers header_name ≡ some h
      → r ≡ some h
  unfolding resolve_string
  resolve_string-header body_name header_name r h e q =
      through (in_body string_field body body_name)
        (λ o. agreed same_text body_name header_name o (header_value headers header_name)) r e
        λ o _ e1. (agreed-header body_name header_name o r h (rw q at e1)).0

  context_of-Settled : (c : WarmContext) → context_of body headers ≡ ok (some c) → Settled c
  unfolding context_of
  context_of-Settled c e =
      through (resolve_string body headers (codes "session_id") (codes "x-zene-session-id"))
        to_named (some c) e
        λ s es e1.
          through (resolve_string body headers (codes "delivery") (codes "x-zene-context-delivery"))
            (to_delivery s) (some c) e1
            λ n _ e2. through (delivery_of n) (to_checked s) (some c) e2 λ d _ e3.
              through (needs_session d s) (λ _. context_with s d body headers) (some c) e3
                λ u eu e4.
                  let kept = context_with-Kept s d c e4 in
                  (
                    λ h q.
                        kept.0
                        ∙ resolve_string-header (codes "session_id") (codes "x-zene-session-id") s h
                            es q,
                    λ is_delta. delta_session is_delta kept.1 kept.0 (needs_session-delta d s u eu),
                  )

taken :
    (b : Bool) (r : Result WarmError (Option WarmContext)) (c : WarmContext)
    → (if b then r else ok none) ≡ ok (some c)
    → r ≡ ok (some c)
taken true r c e = e
taken false r c e = absurd cc

delivery_session :
    (d : Delivery) (s : Option Text) → (d ≡ delta → s ≢ none) → (d ≡ full) ⊎ (s ≢ none)
delivery_session full s h = inl refl
delivery_session delta s h = inr (h refl)

header_session : (o s : Option Text) → ((h : Text) → o ≡ some h → s ≡ some h) → (o ≡ none) ⊎ (s ≡ o)
header_session none s h = inl refl
header_session (some x) s h = inr (h x refl)

read_context-Settled :
    (payload : Value) (headers : Option Headers) (c : WarmContext)
    → parse_context_with_headers payload headers ≡ ok (some c)
    → (body : Option Fields) × Settled body headers c
unfolding parse_context_with_headers
read_context-Settled payload headers c e =
    through (body_object (get (codes "_zene_context") payload))
      (λ body. if is_there body || any_of headers then context_of body headers else ok none)
      (some c) e
      λ body _ e1. (
        body,
        context_of-Settled body headers c
            (taken (is_there body || any_of headers) (context_of body headers) c e1),
      )

-- A context that is read from a request has the session id of the header wherever the header has
-- a text, also if the body names a session; and it is for full delivery or has a session id.
pub parse_context_with_headers-session :
    (payload : Value) (headers : Option Headers) (c : WarmContext)
    → parse_context_with_headers payload headers ≡ ok (some c)
    → ((header_value headers (codes "x-zene-session-id") ≡ none)
        ⊎ (c.session_id ≡ header_value headers (codes "x-zene-session-id")))
      × ((c.delivery ≡ full) ⊎ (c.session_id ≢ none))
parse_context_with_headers-session payload headers c e =
    let (body, s) = read_context-Settled payload headers c e in
    (
      header_session (header_value headers (codes "x-zene-session-id")) (c.session_id) s.0,
      delivery_session (c.delivery) (c.session_id) s.1,
    )
