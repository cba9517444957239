-- ===== src/Usage/Numbers.antt =====
-- The conversions between integers of src/usage/mod.rs.
use smart_gate.Base.{
  Option, Text, [], if◌then◌else◌, ltb, map_option, none, some, suc, zero, ℕ, ◌%◌, ◌-◌, ◌==◌, ◌^◌,
  ◌∷◌,
}
use smart_gate.Base.Int.{negsuc, pos, ℤ}
use smart_gate.Base.Digits.{in_range, read_digits, unsigned}

-- `as i32`, of an unsigned integer.
unfoldable pub as_i32 : ℕ → ℤ
as_i32 n = let low = n % 2 ^ 32 in if ltb low (2 ^ 31) then pos low else negsuc (2 ^ 32 - 1 - low)

-- `as u32`, of an `i32`.
unfoldable pub as_u32 : ℤ → ℕ
as_u32 (pos n) = n
as_u32 (negsuc n) = 2 ^ 32 - 1 - n

-- `as i64` of a `u64`, where a negative number counts as zero.
unfoldable pub as_i64_or_zero : ℕ → ℕ
as_i64_or_zero n = if ltb n (2 ^ 63) then n else 0

abbrev negated : Option ℕ → Option ℤ
negated none = none
negated (some zero) = some (pos 0)
negated (some (suc n)) = some (negsuc n)

-- `str::parse::<i32>`
unfoldable pub parse_i32 : Text → Option ℤ
unfolding read_digits
parse_i32 [] = none
parse_i32 (c ∷ t) =
    if c == 45
    then negated (in_range (2 ^ 31) (unsigned t))
    else map_option pos (in_range (2 ^ 31 - 1) (if c == 43 then unsigned t else unsigned (c ∷ t)))
