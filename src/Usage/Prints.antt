-- ===== src/Usage/Prints.antt =====
-- The integers of the metadata are read back from their prints.
use smart_gate.Base.{All, Text, [], arith, refl, some, suc, ℕ, ◌<◌, ◌^◌, ◌∷◌, ◌≡◌, ◌≢◌}
use smart_gate.Base.Int.{negsuc, pos, ℤ}
use smart_gate.Base.Digits.{unsigned}
use smart_gate.Context.Text.{to_decimal}
use smart_gate.Warm.Decimal.{IsDigit, to_decimal-IsDigit, to_decimal_nonempty, unsigned-to_decimal}
use smart_gate.Usage.Numbers.{parse_i32}

-- An `i32`.
abbrev pub FitsI32 : ℤ → Type 0
FitsI32 (pos n) = n < 2 ^ 31
FitsI32 (negsuc n) = n < 2 ^ 31

parse_i32-IsDigit :
    (t : Text)
    → t ≢ []
    → All IsDigit t
    → (n : ℕ) → n < 2 ^ 31
    → unsigned t ≡ some n
    → parse_i32 t ≡ some (pos n)
unfolding parse_i32
parse_i32-IsDigit [] e h n small k = absurd (e refl)
parse_i32-IsDigit (c ∷ t) e h n small k = ground (arith, h.0, k)

pub parse_i32-to_decimal : (n : ℕ) → n < 2 ^ 31 → parse_i32 (to_decimal n) ≡ some (pos n)
parse_i32-to_decimal n small =
    parse_i32-IsDigit (to_decimal n) (to_decimal_nonempty n) (to_decimal-IsDigit n) n small
      (unsigned-to_decimal n (omega arith))

pub parse_i32-minus : (n : ℕ) → n < 2 ^ 31 → parse_i32 (45 ∷ to_decimal (suc n)) ≡ some (negsuc n)
unfolding parse_i32
parse_i32-minus n small = let k = unsigned-to_decimal (suc n) (omega arith) in ground (arith, k)
