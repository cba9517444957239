-- ===== src/Warm/Decimal.antt =====
-- Decimal prints of lengths are told apart, and hold no colon.
use native.Mathlib.Numerals.{unary_clauses}
use smart_gate.Base.{
  All, Bool-cases, Text, [], ap, arith, inl, inr, length, ltb, ltb→lt, refl, some, suc, sym, zero,
  ℕ, ◌%◌, ◌*◌, ◌+◌, ◌-◌, ◌/◌, ◌<◌, ◌^◌, ◌∙◌, ◌∷◌, ◌≡◌, ◌≢◌, ◌≤◌,
}
use smart_gate.Base.Digits.{read_digits, unsigned}
use smart_gate.Context.Text.{digits_of, to_decimal}

-- Read digits from the left, onto a value.
read : ℕ → Text → ℕ
read v [] = v
read v (c ∷ t) = read (v * 10 + (c - 48)) t

abbrev pub IsDigit : ℕ → Type 0
IsDigit c = (48 ≤ c) × (c ≤ 57)

read-digits_of :
    (fuel n : ℕ) (acc : Text) → n < 10 ^ fuel → read 0 (digits_of fuel n acc) ≡ read n acc
unfolding digits_of read
read-digits_of zero n acc h = ground arith
read-digits_of (suc fuel) n acc h =
    let more =
      read-digits_of fuel (n / 10) ((48 + n % 10) ∷ acc)
        (let k : n < 10 ^ fuel * 10 = simp unary_clauses at h in omega arith) in
    let last : n / 10 * 10 + (48 + n % 10 - 48) ≡ n = omega arith in
    elim (Bool-cases (ltb n 10)) [
      | inl small ↦ rw small (ap (λ v. read v acc) (let below = ltb→lt n 10 small in omega arith))
      | inr large ↦ rw large (more ∙ ap (λ v. read v acc) last)
    ]

digits_of-IsDigit : (fuel n : ℕ) (acc : Text) → All IsDigit acc → All IsDigit (digits_of fuel n acc)
unfolding digits_of
digits_of-IsDigit zero n acc h = h
digits_of-IsDigit (suc fuel) n acc h =
    let more =
      digits_of-IsDigit fuel (n / 10) ((48 + n % 10) ∷ acc) ((omega arith, omega arith), h) in
    ground (arith, more, h)

pub to_decimal-IsDigit : (n : ℕ) → All IsDigit (to_decimal n)
unfolding to_decimal
to_decimal-IsDigit n = digits_of-IsDigit 20 n [] tt

-- The print of a `usize` tells it.
pub to_decimal-injective : (m n : ℕ) → m < 2 ^ 64 → n < 2 ^ 64 → to_decimal m ≡ to_decimal n → m ≡ n
unfolding to_decimal read
to_decimal-injective m n hm hn e =
    sym (read-digits_of 20 m [] (omega arith))
    ∙ (ap (read 0) e ∙ read-digits_of 20 n [] (omega arith))

read_digits-read : (v : ℕ) (t : Text) → All IsDigit t → read_digits v t ≡ some (read v t)
unfolding read_digits read
read_digits-read v [] h = refl
read_digits-read v (c ∷ t) h = ground (arith, h, read_digits-read (v * 10 + (c - 48)) t h.1)

read-to_decimal : (n : ℕ) → n < 2 ^ 64 → read 0 (to_decimal n) ≡ n
unfolding to_decimal read
read-to_decimal n h = read-digits_of 20 n [] (omega arith)

unsigned-read : (t : Text) → t ≢ [] → All IsDigit t → unsigned t ≡ some (read 0 t)
unsigned-read [] e h = absurd (e refl)
unsigned-read (c ∷ t) e h = read_digits-read 0 (c ∷ t) h

length-digits_of : (fuel n : ℕ) (acc : Text) → length acc ≤ length (digits_of fuel n acc)
unfolding digits_of
length-digits_of zero n acc = omega arith
length-digits_of (suc fuel) n acc =
    let more = length-digits_of fuel (n / 10) ((48 + n % 10) ∷ acc) in ground (arith, more)

some_digit : (fuel n : ℕ) (acc : Text) → 0 < length (digits_of (suc fuel) n acc)
unfolding digits_of
some_digit fuel n acc =
    let more = length-digits_of fuel (n / 10) ((48 + n % 10) ∷ acc) in ground (arith, more)

pub to_decimal_nonempty : (n : ℕ) → to_decimal n ≢ []
unfolding to_decimal
to_decimal_nonempty n e = let z = ap length e in let k = some_digit 19 n [] in absurd (omega arith)

-- The print of a `usize` is read back.
pub unsigned-to_decimal : (n : ℕ) → n < 2 ^ 64 → unsigned (to_decimal n) ≡ some n
unsigned-to_decimal n h =
    unsigned-read (to_decimal n) (to_decimal_nonempty n) (to_decimal-IsDigit n)
    ∙ ap some (read-to_decimal n h)
