-- ===== src/Context/Text.antt =====
-- The text operations of src/policy/context.rs, over code points: lengths are in bytes of UTF-8.
use smart_gate.Base.{
  Bool, List, Option, Text, [], false, if◌then◌else◌, leb, ltb, none, reverse, some, suc, true,
  zero, ℕ, ◌%◌, ◌&&◌, ◌+◌, ◌/◌, ◌==◌, ◌∷◌, ◌||◌,
}

unfoldable pub utf8_width : ℕ → ℕ
utf8_width c = if ltb c 0x80 then 1 else if ltb c 0x800 then 2 else if ltb c 0x10000 then 3 else 4

unfoldable pub len : Text → ℕ
unfolding utf8_width
len [] = 0
len (c ∷ t) = utf8_width c + len t

unfoldable pub take : ℕ → Text → Text
take zero t = []
take (suc n) [] = []
take (suc n) (c ∷ t) = c ∷ take n t

-- Unicode `White_Space`.
unfoldable pub is_whitespace : ℕ → Bool
is_whitespace c =
    (leb 9 c && leb c 13)
    || c == 32
    || c == 0x85
    || c == 0xa0
    || c == 0x1680
    || (leb 0x2000 c && leb c 0x200a)
    || c == 0x2028
    || c == 0x2029
    || c == 0x202f
    || c == 0x205f
    || c == 0x3000

unfoldable pub trim_start : Text → Text
unfolding is_whitespace
trim_start [] = []
trim_start (c ∷ t) = if is_whitespace c then trim_start t else c ∷ t

unfoldable pub trim : Text → Text
unfolding trim_start
trim t = reverse (trim_start (reverse (trim_start t)))

abbrev push_char : ℕ → List Text → List Text
push_char c [] = (c ∷ []) ∷ []
push_char c (l ∷ ls) = (c ∷ l) ∷ ls

-- `lines`, but for the `\r` at the end of one, which `trim` takes off.
unfoldable pub lines : Text → List Text
lines [] = []
lines (c ∷ t) = if c == 10 then [] ∷ lines t else push_char c (lines t)

abbrev pub is_empty : Text → Bool
is_empty [] = true
is_empty (c ∷ t) = false

unfoldable pub first_line : List Text → Option Text
unfolding trim
first_line [] = none
first_line (l ∷ ls) = if is_empty (trim l) then first_line ls else some (trim l)

unfoldable pub digits_of : ℕ → ℕ → Text → Text
digits_of zero n acc = acc
digits_of (suc fuel) n acc =
    let more = digits_of fuel (n / 10) ((48 + n % 10) ∷ acc) in
    if ltb n 10 then (48 + n % 10) ∷ acc else more

-- `{n}`: a `usize` has at most 20 digits.
unfoldable pub to_decimal : ℕ → Text
unfolding digits_of
to_decimal n = digits_of 20 n []

abbrev drop_empty : List Text → List Text
drop_empty [] = []
drop_empty (w ∷ ws) = if is_empty w then drop_empty ws else w ∷ drop_empty ws

-- The parts between white space, with the empty ones.
unfoldable pub split_spaces : Text → List Text
unfolding is_whitespace
split_spaces [] = [] ∷ []
split_spaces (c ∷ t) =
    let rest = split_spaces t in if is_whitespace c then [] ∷ rest else push_char c rest

unfoldable pub split_whitespace : Text → List Text
unfolding split_spaces
split_whitespace t = drop_empty (split_spaces t)
