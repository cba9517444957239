-- ===== src/Session/Ids.antt =====
-- src/policy/session.rs: the id, the epoch and the delivery that a request names.
use smart_gate.Base.{
  Bool, Option, Text, [], codes, if◌then◌else◌, leb, ltb, none, some, true, ℕ, ◌&&◌, ◌-◌, ◌==◌, ◌^◌,
  ◌∷◌, ◌||◌,
}
use smart_gate.Base.Headers.{Headers, header_text}
use smart_gate.Base.Digits.{parse_unsigned}
use smart_gate.Context.Json.{Value, as_str, get, str, uint}
use smart_gate.Context.Text.{is_empty, len, trim}

abbrev pub max_session_id_len : ℕ
max_session_id_len = 128

-- ASCII letters and digits, and `.`, `_`, `:`, `-`.
unfoldable pub is_id_char : ℕ → Bool
is_id_char c =
    (leb 48 c && leb c 57)
    || (leb 65 c && leb c 90)
    || (leb 97 c && leb c 122)
    || c == 46
    || c == 95
    || c == 58
    || c == 45

unfoldable pub all_id_chars : Text → Bool
unfolding is_id_char
all_id_chars [] = true
all_id_chars (c ∷ t) = is_id_char c && all_id_chars t

unfoldable pub validate_trimmed : Text → Option Text
unfolding len all_id_chars
validate_trimmed s =
    if is_empty s || ltb max_session_id_len (len s)
    then none
    else if all_id_chars s
    then some s
    else none

unfoldable pub validate_session_id : Text → Option Text
unfolding trim validate_trimmed
validate_session_id raw = validate_trimmed (trim raw)

-- The first of two that is given.
abbrev pub or_option : {A : Type 0} → Option A → Option A → Option A
or_option (some a) o = some a
or_option none o = o

abbrev pub and_then : {A B : Type 0} → Option A → (A → Option B) → Option B
and_then none f = none
and_then (some a) f = f a

-- `payload.get("_smartgate_context").and_then(|c| c.get(name))`
abbrev pub context_field : Text → Value → Option Value
context_field name payload = and_then (get (codes "_smartgate_context") payload) (get name)

abbrev pub session_header : Text
session_header = codes "x-smartgate-session-id"

unfoldable pub extract_session_id : Headers → Value → Option Text
unfolding validate_session_id get as_str
extract_session_id headers payload =
    or_option (and_then (header_text (headers session_header)) validate_session_id) (
      or_option
        (and_then (and_then (context_field (codes "session_id") payload) as_str)
          validate_session_id)
        (and_then (and_then (get (codes "user") payload) as_str) validate_session_id))

abbrev pub u32_max : ℕ
u32_max = 2 ^ 32 - 1

abbrev pub epoch_text : Text → Option ℕ
epoch_text t = parse_unsigned u32_max (trim t)

-- A number that is no `u64` has no `as_u64`.
abbrev pub parse_epoch_value : Value → Option ℕ
parse_epoch_value v = elim v as (λ _. Option ℕ) [
  | uint n ↦ if leb n u32_max then some n else none
  | str t ↦ epoch_text t
  | _ ↦ none
]

unfoldable pub parse_epoch : Text → Option ℕ
unfolding trim parse_unsigned
parse_epoch raw = parse_epoch_value (str (trim raw))

abbrev pub epoch_header : Text
epoch_header = codes "x-smartgate-context-epoch"

abbrev or_zero : Option ℕ → ℕ
or_zero none = 0
or_zero (some n) = n

unfoldable pub extract_context_epoch : Headers → Value → ℕ
unfolding parse_epoch get trim parse_unsigned
extract_context_epoch headers payload = or_zero (
    or_option (and_then (header_text (headers epoch_header)) parse_epoch)
      (and_then (context_field (codes "epoch") payload) parse_epoch_value))

abbrev pub delivery_header : Text
delivery_header = codes "x-smartgate-context-delivery"

unfoldable pub extract_context_delivery : Headers → Value → Option Text
unfolding get as_str
extract_context_delivery headers payload =
    or_option (header_text (headers delivery_header))
      (and_then (context_field (codes "delivery") payload) as_str)
