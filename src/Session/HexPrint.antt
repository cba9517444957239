-- ===== src/Session/HexPrint.antt =====
-- The print of a prefix hash is read back.
use native.Mathlib.Numerals.{unary_clauses}
use smart_gate.Base.{
  All, Option, Text, [], ap, arith, false, length, ltb, none, refl, some, suc, zero, ℕ, ◌%◌, ◌*◌,
  ◌+◌, ◌/◌, ◌<◌, ◌==◌, ◌^◌, ◌∙◌, ◌∷◌, ◌≡◌, ◌≢◌,
}
use smart_gate.Context.Text.{is_whitespace, len, utf8_width}
use smart_gate.Context.Trim.{IsDark, trim-IsDark}
use smart_gate.Session.Hash.{
  format_prefix_hash, from_str_radix16, hex_digit, hex_digits, hex_value, parse_hex_digits,
  parse_prefix_hash_hex, read_hex, trim_0x, with_digit,
}

-- A character of one byte that no trim takes off.
record IsPlain (c : ℕ) : Type 0 where
  pub dark : is_whitespace c ≡ false
  pub narrow : utf8_width c ≡ 1
  pub no_x : (c == 120) ≡ false
  pub no_plus : (c == 43) ≡ false

hex_digit-IsPlain : (d : ℕ) → d < 16 → IsPlain (hex_digit d)
unfolding is_whitespace utf8_width
hex_digit-IsPlain d h = record {
  dark = ground arith;
  narrow = ground arith;
  no_x = ground arith;
  no_plus = ground arith;
}

hex_value-hex_digit : (d : ℕ) → d < 16 → hex_value (hex_digit d) ≡ some d
unfolding hex_value
hex_value-hex_digit d h = ground arith

with_digit-small : (v d n : ℕ) → v * 16 + d ≡ n → n < 2 ^ 64 → with_digit v (some d) ≡ some n
unfolding with_digit
with_digit-small v d n e h = ground arith

read_hex-step :
    (v d n : ℕ) (t : Text)
    → d < 16
    → v * 16 + d ≡ n
    → n < 2 ^ 64
    → read_hex v (hex_digit d ∷ t) ≡ read_hex n t
unfolding read_hex
read_hex-step v d n t small e h =
    ap (λ o. elim o as (λ _. Option ℕ) [ none ↦ none | some w ↦ read_hex w t ])
      (ap (with_digit v) (hex_value-hex_digit d small) ∙ with_digit-small v d n e h)

read_hex-hex_digits :
    (width n : ℕ) (acc : Text)
    → n < 16 ^ width
    → n < 2 ^ 64
    → read_hex 0 (hex_digits width n acc) ≡ read_hex n acc
unfolding hex_digits read_hex
read_hex-hex_digits zero n acc h k = ground arith
read_hex-hex_digits (suc width) n acc h k =
    let digit : n % 16 < 16 = omega arith in
    let same : n / 16 * 16 + n % 16 ≡ n = omega arith in
    let before =
      read_hex-hex_digits width (n / 16) (hex_digit (n % 16) ∷ acc)
        (let w : n < 16 ^ width * 16 = simp unary_clauses at h in omega arith) (omega arith) in
    before ∙ read_hex-step (n / 16) (n % 16) n acc digit same k

hex_digits-IsPlain :
    (width n : ℕ) (acc : Text) → All IsPlain acc → All IsPlain (hex_digits width n acc)
unfolding hex_digits
hex_digits-IsPlain zero n acc h = h
hex_digits-IsPlain (suc width) n acc h =
    hex_digits-IsPlain width (n / 16) (hex_digit (n % 16) ∷ acc)
      (hex_digit-IsPlain (n % 16) (omega arith), h)

length-hex_digits :
    (width n : ℕ) (acc : Text) → length (hex_digits width n acc) ≡ width + length acc
unfolding hex_digits
length-hex_digits zero n acc = omega arith
length-hex_digits (suc width) n acc =
    length-hex_digits width (n / 16) (hex_digit (n % 16) ∷ acc) ∙ omega arith

len-IsPlain : (t : Text) → All IsPlain t → len t ≡ length t
unfolding len
len-IsPlain [] h = refl
len-IsPlain (c ∷ t) h = let k = len-IsPlain t h.1 in let w = h.0.narrow in omega arith

All-IsDark : (t : Text) → All IsPlain t → All IsDark t
All-IsDark [] h = tt
All-IsDark (c ∷ t) h = (h.0.dark, All-IsDark t h.1)

trim_0x-IsPlain : (t : Text) → All IsPlain t → trim_0x t ≡ t
unfolding trim_0x
trim_0x-IsPlain [] h = refl
trim_0x-IsPlain (c ∷ []) h = refl
trim_0x-IsPlain (c ∷ d ∷ t) h = let k = h.1.0.no_x in ground arith

from_str_radix16-IsPlain : (t : Text) → All IsPlain t → t ≢ [] → from_str_radix16 t ≡ read_hex 0 t
unfolding from_str_radix16
from_str_radix16-IsPlain [] h e = absurd (e refl)
from_str_radix16-IsPlain (c ∷ t) h e = rw h.0.no_plus refl

format-IsPlain : (h : ℕ) → All IsPlain (format_prefix_hash h)
unfolding format_prefix_hash
format-IsPlain h = hex_digits-IsPlain 16 h [] tt

length-format : (h : ℕ) → length (format_prefix_hash h) ≡ 16
unfolding format_prefix_hash
length-format h = length-hex_digits 16 h []

read_hex-format : (h : ℕ) → h < 2 ^ 64 → read_hex 0 (format_prefix_hash h) ≡ some h
unfolding format_prefix_hash read_hex
read_hex-format h small = read_hex-hex_digits 16 h [] small small

parse_hex_digits-IsPlain :
    (t : Text) → All IsPlain t → length t ≡ 16 → parse_hex_digits t ≡ some (read_hex 0 t)
unfolding parse_hex_digits
parse_hex_digits-IsPlain t h e =
    let short : ltb 16 (len t) ≡ false = (let k = len-IsPlain t h in ground arith) in
    rw short (
      ap some
        (from_str_radix16-IsPlain t h (λ none. absurd (let z = ap length none in omega arith))))

-- The print of a hash of 64 bits is read back as that hash.
pub parse_prefix_hash_hex-format :
    (h : ℕ) → h < 2 ^ 64 → parse_prefix_hash_hex (format_prefix_hash h) ≡ some (some h)
unfolding parse_prefix_hash_hex
parse_prefix_hash_hex-format h small =
    ap (λ t. parse_hex_digits (trim_0x t))
      (trim-IsDark (format_prefix_hash h) (All-IsDark _ (format-IsPlain h)))
    ∙ (ap parse_hex_digits (trim_0x-IsPlain (format_prefix_hash h) (format-IsPlain h))
        ∙ (parse_hex_digits-IsPlain (format_prefix_hash h) (format-IsPlain h) (length-format h)
            ∙ ap some (read_hex-format h small)))

-- So too by `from_str_radix`.
pub from_str_radix16-format :
    (h : ℕ) → h < 2 ^ 64 → from_str_radix16 (format_prefix_hash h) ≡ some h
from_str_radix16-format h small =
    from_str_radix16-IsPlain (format_prefix_hash h) (format-IsPlain h)
      (λ e. absurd (let k = length-format h in let z = ap length e in omega arith))
    ∙ read_hex-format h small
