-- ===== src/Context/Trim.antt =====
-- A text without white space is its own trim.
use smart_gate.Base.{
  All, Text, [], ap, false, refl, reverse, reverse-cons, reverse-reverse, ℕ, ◌++◌, ◌∙◌, ◌∷◌, ◌≡◌,
}
use smart_gate.Context.Text.{is_whitespace, trim, trim_start}

abbrev pub IsDark : ℕ → Type 0
IsDark c = is_whitespace c ≡ false

trim_start-IsDark : (t : Text) → All IsDark t → trim_start t ≡ t
unfolding trim_start
trim_start-IsDark [] h = refl
trim_start-IsDark (c ∷ t) h = rw h.0 refl

All-append : (s t : Text) → All IsDark s → All IsDark t → All IsDark (s ++ t)
All-append [] t h k = k
All-append (c ∷ s) t h k = (h.0, All-append s t h.1 k)

All-reverse : (t : Text) → All IsDark t → All IsDark (reverse t)
All-reverse [] h = tt
All-reverse (c ∷ t) h =
    let k = All-append (reverse t) (c ∷ []) (All-reverse t h.1) (h.0, tt) in rw (reverse-cons c t) k

pub trim-IsDark : (t : Text) → All IsDark t → trim t ≡ t
unfolding trim
trim-IsDark t h =
    ap (λ s. reverse (trim_start (reverse s))) (trim_start-IsDark t h)
    ∙ (ap reverse (trim_start-IsDark (reverse t) (All-reverse t h)) ∙ reverse-reverse t)
