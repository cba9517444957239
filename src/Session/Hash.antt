-- ===== src/Session/Hash.antt =====
-- src/policy/session.rs: the hash of a prefix, as 64 bits and as hexadecimal digits. The outer
-- `none` of a result is a panic.
use smart_gate.Base.{
  List, Option, Text, [], codes, if◌then◌else◌, leb, ltb, none, some, suc, zero, ℕ, ◌%◌, ◌&&◌, ◌*◌,
  ◌+◌, ◌-◌, ◌/◌, ◌==◌, ◌^◌, ◌∷◌,
}
use smart_gate.Base.Headers.{Headers, header_text}
use smart_gate.Context.Json.{Items, Value, as_array, as_str, cons, get, nil}
use smart_gate.Context.Text.{len, trim, utf8_width}
use smart_gate.Session.Ids.{and_then, context_field}

abbrev pub u64_mod : ℕ
u64_mod = 2 ^ 64

unfoldable pub hex_value : ℕ → Option ℕ
hex_value c =
    if leb 48 c && leb c 57
    then some (c - 48)
    else if leb 97 c && leb c 102
    then some (c - 87)
    else if leb 65 c && leb c 70
    then some (c - 55)
    else none

-- One digit more, `none` if it is no digit or the number leaves 64 bits.
unfoldable pub with_digit : ℕ → Option ℕ → Option ℕ
with_digit v none = none
with_digit v (some d) = if ltb (v * 16 + d) u64_mod then some (v * 16 + d) else none

unfoldable pub read_hex : ℕ → Text → Option ℕ
unfolding hex_value with_digit
read_hex v [] = some v
read_hex v (c ∷ t) = elim (with_digit v (hex_value c)) as (λ _. Option ℕ) [
  | none ↦ none
  | some w ↦ read_hex w t
]

abbrev pub nonempty_hex : Text → Option ℕ
nonempty_hex [] = none
nonempty_hex (c ∷ t) = read_hex 0 (c ∷ t)

-- `u64::from_str_radix(s, 16)`
unfoldable pub from_str_radix16 : Text → Option ℕ
unfolding read_hex
from_str_radix16 [] = none
from_str_radix16 (c ∷ t) = if c == 43 then nonempty_hex t else read_hex 0 (c ∷ t)

-- `trim_start_matches("0x")`
unfoldable pub trim_0x : Text → Text
trim_0x [] = []
trim_0x (c ∷ []) = c ∷ []
trim_0x (c ∷ d ∷ t) = let rest = trim_0x t in if c == 48 && d == 120 then rest else c ∷ d ∷ t

-- `&s[n..]`, which panics inside a character.
unfoldable pub from_byte : ℕ → Text → Option Text
unfolding utf8_width
from_byte n [] = if n == 0 then some [] else none
from_byte n (c ∷ t) =
    let rest = from_byte (n - utf8_width c) t in
    if n == 0 then some (c ∷ t) else if leb (utf8_width c) n then rest else none

abbrev pub read_slice : Option Text → Option (Option ℕ)
read_slice none = none
read_slice (some s) = some (from_str_radix16 s)

unfoldable pub parse_hex_digits : Text → Option (Option ℕ)
unfolding len from_byte from_str_radix16
parse_hex_digits s =
    if ltb 16 (len s) then read_slice (from_byte (len s - 16) s) else some (from_str_radix16 s)

unfoldable pub parse_prefix_hash_hex : Text → Option (Option ℕ)
unfolding trim trim_0x parse_hex_digits
parse_prefix_hash_hex raw = parse_hex_digits (trim_0x (trim raw))

-- `^` on two numbers of so many bits.
unfoldable pub xor : ℕ → ℕ → ℕ → ℕ
xor zero a b = 0
xor (suc bits) a b = (a % 2 + b % 2) % 2 + 2 * xor bits (a / 2) (b / 2)

abbrev pub fnv_offset : ℕ
fnv_offset = 0xcbf29ce484222325

abbrev pub fnv_prime : ℕ
fnv_prime = 0x100000001b3

unfoldable pub fnv1a_from : ℕ → List ℕ → ℕ
unfolding xor
fnv1a_from hash [] = hash
fnv1a_from hash (byte ∷ bytes) = fnv1a_from (xor 64 hash byte * fnv_prime % u64_mod) bytes

unfoldable pub fnv1a64 : List ℕ → ℕ
unfolding fnv1a_from
fnv1a64 bytes = fnv1a_from fnv_offset bytes

-- All messages but the last.
unfoldable pub without_last : Value → Items → Items
without_last v nil = nil
without_last v (cons w vs) = cons v (without_last w vs)

abbrev pub prefix_of : Items → Option Items
prefix_of nil = none
prefix_of (cons v nil) = some (cons v nil)
prefix_of (cons v (cons w vs)) = some (without_last v (cons w vs))

abbrev pub hash_of : Option (List ℕ) → Option ℕ
hash_of none = none
hash_of (some bytes) = some (fnv1a64 bytes)

-- `to_bytes` is the JSON of a list as bytes of UTF-8.
module _ (to_bytes : Items → Option (List ℕ)) where
  unfoldable pub computed_prefix_hash : Value → Option ℕ
  unfolding get as_array without_last fnv1a64
  computed_prefix_hash payload =
      hash_of (
        and_then (and_then (and_then (get (codes "messages") payload) as_array) prefix_of) to_bytes)

  abbrev pub prefix_hash_header : Text
  prefix_hash_header = codes "x-smartgate-prefix-hash"

  abbrev pub parse_given : Option Text → Option (Option ℕ)
  parse_given none = some none
  parse_given (some raw) = parse_prefix_hash_hex raw

  -- The next source, where this one has no hash.
  abbrev pub or_next : Option (Option ℕ) → Option (Option ℕ) → Option (Option ℕ)
  or_next none next = none
  or_next (some (some h)) next = some (some h)
  or_next (some none) next = next

  unfoldable pub resolve_prefix_hash : Headers → Value → Option (Option ℕ)
  unfolding parse_prefix_hash_hex get as_str computed_prefix_hash
  resolve_prefix_hash headers payload =
      or_next (parse_given (header_text (headers prefix_hash_header))) (
        or_next (parse_given (and_then (context_field (codes "prefix_hash") payload) as_str))
          (some (computed_prefix_hash payload)))

abbrev pub hex_digit : ℕ → ℕ
hex_digit d = if ltb d 10 then 48 + d else 87 + d

-- So many digits, padded with zeros.
unfoldable pub hex_digits : ℕ → ℕ → Text → Text
hex_digits zero n acc = acc
hex_digits (suc width) n acc = hex_digits width (n / 16) (hex_digit (n % 16) ∷ acc)

unfoldable pub format_prefix_hash : ℕ → Text
unfolding hex_digits
format_prefix_hash hash = hex_digits 16 hash []
