-- ===== src/Base/Digits.antt =====
-- Reading unsigned numbers, as `str::parse` and `from_str_radix` do.
use smart_gate.Base.{
  Option, Text, [], if◌then◌else◌, leb, none, some, ℕ, ◌&&◌, ◌*◌, ◌+◌, ◌-◌, ◌==◌, ◌∷◌,
}

-- Decimal digits, `none` at anything else.
unfoldable pub read_digits : ℕ → Text → Option ℕ
read_digits v [] = some v
read_digits v (c ∷ t) =
    let rest = read_digits (v * 10 + (c - 48)) t in if leb 48 c && leb c 57 then rest else none

abbrev pub in_range : ℕ → Option ℕ → Option ℕ
in_range top none = none
in_range top (some n) = if leb n top then some n else none

abbrev pub unsigned : Text → Option ℕ
unsigned [] = none
unsigned (c ∷ t) = read_digits 0 (c ∷ t)

-- `parse` into an unsigned type with the given greatest value: one `+` may stand in front.
unfoldable pub parse_unsigned : ℕ → Text → Option ℕ
unfolding read_digits
parse_unsigned top [] = none
parse_unsigned top (c ∷ t) = in_range top (if c == 43 then unsigned t else unsigned (c ∷ t))
