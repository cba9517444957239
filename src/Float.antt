-- ===== src/Float.antt =====
-- `f64`, as a type with the operations that the program uses, and laws of IEEE arithmetic. A
-- literal is a decimal fraction: `decimal 8 1` is `0.8`. `==` is not among the operations.
pub mod Fixed
pub mod Ranges
use smart_gate.Base.{Bool, if◌then◌else◌, not, true, ℕ, ◌*◌, ◌+◌, ◌-◌, ◌<◌, ◌^◌, ◌≡◌, ◌≤◌, ◌⊎◌}

pub record Float (F : Type 0) : Type 0 where
  pub decimal : ℕ → ℕ → F
  pub of_nat : ℕ → F
  pub add : F → F → F
  pub sub : F → F → F
  pub mul : F → F → F
  pub div : F → F → F
  pub lt : F → F → Bool
  pub le : F → F → Bool
  pub min_of : F → F → F
  pub max_of : F → F → F
  pub round : F → F
  pub largest : F
  pub to_u32 : F → ℕ

infix 50 ◌≼◌ ◌≺◌
abbrev pub ◌≼◌ : {F : Type 0} ⦃f : Float F⦄ → F → F → Type 0
◌≼◌ ⦃f⦄ a b = f.le a b ≡ true

abbrev pub ◌≺◌ : {F : Type 0} ⦃f : Float F⦄ → F → F → Type 0
◌≺◌ ⦃f⦄ a b = f.lt a b ≡ true

-- A whole number as a literal.
abbrev pub whole : {F : Type 0} ⦃f : Float F⦄ → ℕ → F
whole ⦃f⦄ n = f.decimal n 0

-- Any value but NaN: the one that is not `<=` itself.
abbrev pub IsNumber : {F : Type 0} ⦃f : Float F⦄ → F → Type 0
IsNumber x = x ≼ x

-- `f64::clamp`: NaN passes through.
abbrev pub clamp : {F : Type 0} ⦃f : Float F⦄ → F → F → F → F
clamp ⦃f⦄ x lo hi = let up = if f.lt x lo then lo else x in if f.lt hi up then hi else up

-- Comparison away from NaN is a total order; `min` is one of two numbers, and exceeds neither.
pub record IsOrdered (F : Type 0) ⦃f : Float F⦄ : Type 0 where
  pub refl_of_le : (a b : F) → a ≼ b → IsNumber a × IsNumber b
  pub le_trans : (a b c : F) → a ≼ b → b ≼ c → a ≼ c
  pub le_total : (a b : F) → IsNumber a → IsNumber b → (a ≼ b) ⊎ (b ≼ a)
  pub lt-eq-not-le : (a b : F) → IsNumber a → IsNumber b → f.lt a b ≡ not (f.le b a)
  pub lt-number : (a b : F) → a ≺ b → IsNumber a × IsNumber b
  pub min_of_one : (a b : F) → (f.min_of a b ≡ a) ⊎ (f.min_of a b ≡ b)
  pub min_of_le : (a b : F) → IsNumber a → IsNumber b → (f.min_of a b ≼ a) × (f.min_of a b ≼ b)
  pub decimal_mono : (m n k : ℕ) → m ≤ n → f.decimal m k ≼ f.decimal n k

-- Rounded arithmetic is monotone on numbers that are not negative, and exact on whole numbers up
-- to 2^53, which are told apart.
pub record IsRounded (F : Type 0) ⦃f : Float F⦄ : Type 0 where
  pub add_mono : (a b c d : F) → whole 0 ≼ a → a ≼ b → whole 0 ≼ c → c ≼ d → f.add a c ≼ f.add b d
  pub mul_mono :
      (a b : F) (n k : ℕ)
      → 0 < n
      → whole 0 ≼ a
      → a ≼ b
      → f.mul a (f.decimal n k) ≼ f.mul b (f.decimal n k)
  pub add-whole : (m n : ℕ) → m + n ≤ 2 ^ 53 → f.add (whole m) (whole n) ≡ whole (m + n)
  pub mul-whole : (m n : ℕ) → m * n ≤ 2 ^ 53 → f.mul (whole m) (whole n) ≡ whole (m * n)
  pub whole_strict : (m n : ℕ) → m < n → n ≤ 2 ^ 53 → f.lt (f.decimal m 0) (f.decimal n 0) ≡ true
  pub sub-whole : (m n : ℕ) → n ≤ m → m ≤ 2 ^ 53 → f.sub (whole m) (whole n) ≡ whole (m - n)
  pub decimal_le_whole : (n k : ℕ) → f.decimal n k ≼ whole n
  pub decimal_nonneg : (n k : ℕ) → whole 0 ≼ f.decimal n k
  pub round_mono : (a b : F) → a ≼ b → f.round a ≼ f.round b
  pub round-whole : (n : ℕ) → n ≤ 2 ^ 53 → f.round (whole n) ≡ whole n
