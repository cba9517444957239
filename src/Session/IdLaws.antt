-- ===== src/Session/IdLaws.antt =====
-- What a session id that a request names looks like.
use smart_gate.Base.Headers.{Headers, header_text}
use smart_gate.Context.Json.{Value, as_str, get}
use smart_gate.Base.{
  All, Bool, Bool-cases, Option, Option-cases, Text, [], ap, arith, codes, false, inl, inr, ltb,
  none, refl, some, sym, true, ℕ, ◌&&◌, ◌∙◌, ◌∷◌, ◌≡◌, ◌≢◌, ◌≤◌,
}
use smart_gate.Context.Text.{is_whitespace, len, trim}
use smart_gate.Context.Trim.{IsDark, trim-IsDark}
use smart_gate.Session.Ids.{
  all_id_chars, and_then, context_field, extract_session_id, is_id_char, max_session_id_len,
  or_option, session_header, validate_session_id, validate_trimmed,
}

-- Of 1 to 128 bytes, all of them letters, digits or one of `.`, `_`, `:`, `-`.
pub record IsSessionId (id : Text) : Type 0 where
  pub given : id ≢ []
  pub short : len id ≤ 128
  pub allowed : all_id_chars id ≡ true

is_id_char-IsDark : (c : ℕ) → is_id_char c ≡ true → IsDark c
unfolding is_id_char is_whitespace
is_id_char-IsDark c h = ground arith

and-left : (a b : Bool) → (a && b) ≡ true → a ≡ true
and-left true b h = refl
and-left false b h = absurd cc

and-right : (a b : Bool) → (a && b) ≡ true → b ≡ true
and-right true b h = h
and-right false b h = absurd cc

all_id_chars-IsDark : (t : Text) → all_id_chars t ≡ true → All IsDark t
unfolding all_id_chars
all_id_chars-IsDark [] h = tt
all_id_chars-IsDark (c ∷ t) h = (
  is_id_char-IsDark c (and-left (is_id_char c) (all_id_chars t) h),
  all_id_chars-IsDark t (and-right (is_id_char c) (all_id_chars t) h),
)

-- What `validate_session_id` gives is a session id, and it gives an id back unchanged.
Settled : Text → Type 0
Settled id = IsSessionId id × (validate_session_id id ≡ some id)

refused : {id : Text} → (let o : Option Text = none in o ≡ some id) → ⊥
refused h = absurd cc

accepted :
    (s id : Text)
    → s ≢ []
    → len s ≤ 128
    → all_id_chars s ≡ true
    → some s ≡ some id
    → IsSessionId id × (s ≡ id)
accepted s id given short allowed e =
    let same : s ≡ id = cc in
    (
      record {
        given = λ q. given (same ∙ q);
        short = rw (sym same) short;
        allowed = ap all_id_chars (sym same) ∙ allowed;
      },
      same,
    )

validate_trimmed-IsSessionId :
    (s id : Text) → validate_trimmed s ≡ some id → IsSessionId id × (s ≡ id)
unfolding validate_trimmed
validate_trimmed-IsSessionId [] id h = absurd cc
validate_trimmed-IsSessionId (c ∷ t) id h =
    elim (Bool-cases (ltb max_session_id_len (len (c ∷ t)))) [
      | inl long ↦ absurd (refused (rw long at h))
      | inr short ↦ elim (Bool-cases (all_id_chars (c ∷ t))) [
        | inl allowed ↦
            accepted (c ∷ t) id (λ e. absurd cc) (let k = short in ground arith) allowed
              (rw (short, allowed) at h)
        | inr other ↦ absurd (refused (rw (short, other) at h))
      ]
    ]

validate_session_id-Settled : (raw id : Text) → validate_session_id raw ≡ some id → Settled id
unfolding validate_session_id Settled
validate_session_id-Settled raw id h =
    let k = validate_trimmed-IsSessionId (trim raw) id h in
    let same = trim-IsDark id (all_id_chars-IsDark id (k.0.allowed)) in
    (k.0, ap validate_trimmed same ∙ (ap validate_trimmed (sym k.1) ∙ h))

or_option-some : (o : Option Text) (id : Text) → o ≡ some id → or_option o none ≡ some id
or_option-some none id h = h
or_option-some (some a) id h = h

first-Settled :
    (raw : Option Text) (next : Option Text) (id : Text)
    → or_option (and_then raw validate_session_id) next ≡ some id
    → (next ≡ some id → Settled id)
    → Settled id
first-Settled none next id h k = k h
first-Settled (some raw) next id h k = elim (Option-cases (validate_session_id raw)) [
  | inl refusal ↦ k (rw refusal at h)
  | inr (found, e) ↦
      validate_session_id-Settled raw id (let w : some found ≡ some id = rw e at h in e ∙ w)
]

-- A session id that is taken from a request, from whichever of its sources, has 1 to 128 bytes, all
-- of them ASCII letters, digits or one of `.`, `_`, `:`, `-`, and is accepted again unchanged.
pub extract_session_id-IsSessionId :
    (headers : Headers) (payload : Value) (id : Text)
    → extract_session_id headers payload ≡ some id
    → IsSessionId id × (validate_session_id id ≡ some id)
unfolding extract_session_id Settled
extract_session_id-IsSessionId headers payload id h =
    let user = and_then (get (codes "user") payload) as_str in
    let named = and_then (context_field (codes "session_id") payload) as_str in
    first-Settled (header_text (headers session_header))
      (or_option (and_then named validate_session_id) (and_then user validate_session_id)) id h
      (λ h1. first-Settled named (and_then user validate_session_id) id h1 (λ h2.
        first-Settled user none id (or_option-some (and_then user validate_session_id) id h2)
          (λ z. absurd cc)))
