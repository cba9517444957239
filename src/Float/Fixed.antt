-- ===== src/Float/Fixed.antt =====
-- The laws can be met: numbers with twelve decimal places, rounded down.
use smart_gate.Base.{arith, le_refl, leb, ltb, max, min, true, ℕ, ◌*◌, ◌+◌, ◌-◌, ◌/◌, ◌^◌, ◌≡◌, ◌≤◌}
use smart_gate.Float.{Float, IsOrdered, IsRounded}
use native.Mathlib.Nat.{mul-le-mul, div-le_self}

abbrev pub unit : ℕ
unit = 1_000_000_000_000

instance abbrev pub fixed : Float ℕ
fixed = record {
  decimal = λ n k. n * (unit / 10 ^ k);
  of_nat = λ n. n * unit;
  add = λ a b. a + b;
  sub = λ a b. a - b;
  mul = λ a b. a * b / unit;
  div = λ a b. a * unit / b;
  lt = ltb;
  le = leb;
  min_of = min;
  max_of = max;
  round = λ a. (a + unit / 2) / unit * unit;
  largest = 10 ^ 60;
  to_u32 = λ a. min (a / unit) (2 ^ 32 - 1);
}

ge_of : {a b : ℕ} → a ≤ b → leb a b ≡ true
ge_of h = ground arith

of_ge : {a b : ℕ} → leb a b ≡ true → a ≤ b
of_ge h = ground arith

div_mono : {a b : ℕ} → a ≤ b → a / unit ≤ b / unit
div_mono h = omega arith

pub fixed-IsOrdered : IsOrdered ℕ
fixed-IsOrdered = record {
  refl_of_le = λ a b h. ground arith;
  le_trans = λ a b c h k. ground arith;
  le_total = λ a b h k. ground arith;
  lt-eq-not-le = λ a b h k. ground arith;
  lt-number = λ a b h. ground arith;
  min_of_one = λ a b. ground arith;
  min_of_le = λ a b h k. ground arith;
  decimal_mono = λ m n k h. ge_of (mul-le-mul h (le_refl _));
}

pub fixed-IsRounded : IsRounded ℕ
fixed-IsRounded = record {
  add_mono = λ a b c d za h zc k. ground arith;
  mul_mono = λ a b n k p z h. ge_of (div_mono (mul-le-mul (of_ge h) (le_refl _)));
  add-whole = λ m n h. omega arith;
  mul-whole = λ m n h. omega arith;
  whole_strict = λ m n h k. ground arith;
  sub-whole = λ m n h k. omega arith;
  decimal_le_whole = λ n k. ge_of (mul-le-mul (le_refl n) (div-le_self unit (10 ^ k)));
  decimal_nonneg = λ n k. ground arith;
  round_mono = λ a b h. ge_of (omega (arith, of_ge {a = a} {b = b} h));
  round-whole = λ n h. omega arith;
}
