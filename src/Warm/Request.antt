-- ===== src/Warm/Request.antt =====
-- The warm context of a request: from its body and its headers.
pub mod Laws
mod Samples
use smart_gate.Base.{
  Bool, List, Option, Text, [], codes, false, if◌then◌else◌, none, some, suc, true, zero, ℕ, ◌++◌,
  ◌-◌, ◌==◌, ◌^◌, ◌∷◌, ◌||◌,
}
use smart_gate.Base.Int.{negsuc, pos, ℤ}
use smart_gate.Context.Json.{Fields, Value, as_str, get, get_field, null, number, obj, uint}
use smart_gate.Base.Headers.{Headers, header_text}
use smart_gate.Base.Digits.{in_range, read_digits, unsigned}
use smart_gate.Warm.Sessions.{Result, err, ok}
use smart_gate.Warm.Errors.{WarmError, invalid_context}
use smart_gate.Warm.Store.{Delivery, WarmContext, delta, full, same_text}

infixl 5 ◌>>=◌
abbrev pub ◌>>=◌ :
    {A B : Type 0} → Result WarmError A → (A → Result WarmError B) → Result WarmError B
ok a >>= f = f a
err e >>= f = err e

abbrev as_pos : Option ℕ → Option ℤ
as_pos none = none
as_pos (some n) = some (pos n)

abbrev as_neg : Option ℕ → Option ℤ
as_neg none = none
as_neg (some zero) = some (pos 0)
as_neg (some (suc n)) = some (negsuc n)

-- `str::parse::<i64>`
unfoldable pub parse_i64 : Text → Option ℤ
unfolding read_digits
parse_i64 [] = none
parse_i64 (c ∷ t) =
    if c == 45
    then as_neg (in_range (2 ^ 63) (unsigned t))
    else if c == 43
    then as_pos (in_range (2 ^ 63 - 1) (unsigned t))
    else as_pos (in_range (2 ^ 63 - 1) (unsigned (c ∷ t)))

abbrev as_i64 : Value → Option ℤ
as_i64 v = elim v as (λ _. Option ℤ) [
  | uint n ↦ as_pos (in_range (2 ^ 63 - 1) (some n))
  | number t ↦ parse_i64 t
  | _ ↦ none
]

abbrev pub required : {A : Type 0} → WarmError → Option A → Result WarmError (Option A)
required e none = err e
required e (some a) = ok (some a)

abbrev pub string_of : Option Value → Text → Result WarmError (Option Text)
string_of none name = ok none
string_of (some null) name = ok none
string_of (some v) name = required (invalid_context (name ++ codes " must be a string")) (as_str v)

abbrev pub integer_of : Option Value → Text → Result WarmError (Option ℤ)
integer_of none name = ok none
integer_of (some null) name = ok none
integer_of (some v) name =
    required (invalid_context (name ++ codes " must be an integer")) (as_i64 v)

unfoldable pub string_field : Fields → Text → Result WarmError (Option Text)
string_field object name = string_of (get_field name object) name

unfoldable pub integer_field : Fields → Text → Result WarmError (Option ℤ)
integer_field object name = integer_of (get_field name object) name

unfoldable pub header_value : Option Headers → Text → Option Text
header_value none name = none
header_value (some h) name = header_text (h name)

-- A value that both give must be the same in both.
module _ {A : Type 0} (same : A → A → Bool) where
  abbrev pub agreed : Text → Text → Option A → Option A → Result WarmError (Option A)
  agreed body_name header_name (some b) (some h) =
      if same b h
      then ok (some h)
      else err (
          invalid_context (
            codes "header "
            ++ (header_name ++ (codes " conflicts with _zene_context." ++ body_name))))
  agreed body_name header_name none h = ok h
  agreed body_name header_name (some b) none = ok (some b)

abbrev pub in_body :
    {A : Type 0}
    → (Fields → Text → Result WarmError (Option A))
    → Option Fields
    → Text
    → Result WarmError (Option A)
in_body field_of none name = ok none
in_body field_of (some object) name = field_of object name

unfoldable pub resolve_string :
    Option Fields → Option Headers → Text → Text → Result WarmError (Option Text)
unfolding string_field header_value
resolve_string body headers body_name header_name = do
  body_value ← in_body string_field body body_name
  agreed same_text body_name header_name body_value (header_value headers header_name)

abbrev same_int : ℤ → ℤ → Bool
same_int (pos a) (pos b) = a == b
same_int (negsuc a) (negsuc b) = a == b
same_int (pos a) (negsuc b) = false
same_int (negsuc a) (pos b) = false

abbrev header_integer : Text → Option Text → Result WarmError (Option ℤ)
header_integer name none = ok none
header_integer name (some v) =
    required (invalid_context (codes "header " ++ (name ++ codes " must be an integer")))
      (parse_i64 v)

unfoldable pub resolve_integer :
    Option Fields → Option Headers → Text → Text → Result WarmError (Option ℤ)
unfolding integer_field header_value parse_i64
resolve_integer body headers body_name header_name = do
  body_value ← in_body integer_field body body_name
  from_header ← header_integer header_name (header_value headers header_name)
  agreed same_int body_name header_name body_value from_header

abbrev pub header_names : List Text
header_names =
    codes "x-zene-session-id"
    ∷ codes "x-zene-context-epoch"
    ∷ codes "x-zene-context-delivery"
    ∷ codes "x-zene-prefix-hash"
    ∷ codes "x-zene-tail-start"
    ∷ codes "x-zene-request-id"
    ∷ []

abbrev pub is_there : {A : Type 0} → Option A → Bool
is_there none = false
is_there (some a) = true

unfoldable pub any_header : Headers → List Text → Bool
any_header h [] = false
any_header h (n ∷ ns) = is_there (h n) || any_header h ns

abbrev pub body_object : Option Value → Result WarmError (Option Fields)
body_object none = ok none
body_object (some v) = elim v as (λ _. Result WarmError (Option Fields)) [
  | obj fs ↦ ok (some fs)
  | _ ↦ err (invalid_context (codes "_zene_context must be an object"))
]

abbrev pub any_of : Option Headers → Bool
any_of none = false
any_of (some h) = any_header h header_names

unfoldable pub delivery_of : Option Text → Result WarmError Delivery
delivery_of none = ok full
delivery_of (some v) =
    if same_text v (codes "full")
    then ok full
    else if same_text v (codes "delta")
    then ok delta
    else err (invalid_context (codes "unsupported delivery: " ++ v))

abbrev pub needs_session : Delivery → Option Text → Result WarmError Unit
needs_session full s = ok tt
needs_session delta (some s) = ok tt
needs_session delta none = err (invalid_context (codes "delta delivery requires session_id"))

abbrev pub as_usize : Option ℤ → Result WarmError (Option ℕ)
as_usize none = ok none
as_usize (some (pos n)) = ok (some n)
as_usize (some (negsuc n)) =
    err (invalid_context (codes "tail_start must be a non-negative integer"))

unfoldable pub context_with :
    Option Text → Delivery → Option Fields → Option Headers → Result WarmError (Option WarmContext)
unfolding resolve_string resolve_integer
context_with session_id delivery body headers = do
  epoch ← resolve_integer body headers (codes "context_epoch") (codes "x-zene-context-epoch")
  tail ← resolve_integer body headers (codes "tail_start") (codes "x-zene-tail-start")
  tail_start ← as_usize tail
  prefix_hash ← resolve_string body headers (codes "prefix_hash") (codes "x-zene-prefix-hash")
  request_id ← resolve_string body headers (codes "request_id") (codes "x-zene-request-id")
  ok (
      some (record {
        session_id = session_id;
        epoch = epoch;
        delivery = delivery;
        prefix_hash = prefix_hash;
        tail_start = tail_start;
        request_id = request_id;
      }))

unfoldable pub context_of : Option Fields → Option Headers → Result WarmError (Option WarmContext)
unfolding resolve_string delivery_of context_with
context_of body headers = do
  session_id ← resolve_string body headers (codes "session_id") (codes "x-zene-session-id")
  named ← resolve_string body headers (codes "delivery") (codes "x-zene-context-delivery")
  delivery ← delivery_of named
  checked ← needs_session delivery session_id
  context_with session_id delivery body headers

unfoldable pub parse_context_with_headers :
    Value → Option Headers → Result WarmError (Option WarmContext)
unfolding context_of any_header
parse_context_with_headers payload headers = do
  body ← body_object (get (codes "_zene_context") payload)
  if is_there body || any_of headers then context_of body headers else ok none
