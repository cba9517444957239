-- ===== src/Difficulty/Loop.antt =====
-- The rounds of an agent's loop: what decides their difficulty.
use smart_gate.Float.{Float}
use smart_gate.Difficulty.Estimate.{
  difficulty_of, estimate_tokens_from_text, heuristic_difficulty, request_has_tools, turn_cues,
}
use smart_gate.Base.{
  Bool, Bool-cases, List, Option, Option-cases, Text, [], ap, arith, false, inl, inr, none, refl,
  reverse, reverse-append, reverse-cons, some, suc, true, ℕ, ◌++◌, ◌∷◌, ◌≡◌,
}
use smart_gate.Context.Json.{Items, Value, cons, nil}
use smart_gate.Context.Laws.{append}
use smart_gate.Difficulty.Focus.{
  content_of, continues_after_last_user, extract_openai_prompt_text, find, focus_of, is_user,
  messages_of, position, task_focus, to_list,
}

to_list-append : (xs ys : Items) → to_list (append xs ys) ≡ to_list xs ++ to_list ys
unfolding to_list append
to_list-append nil ys = refl
to_list-append (cons x xs) ys = ap (λ zs. x ∷ zs) (to_list-append xs ys)

find-append : (xs ys : List Value) (u : Value) → find xs ≡ some u → find (xs ++ ys) ≡ some u
unfolding find
find-append [] ys u h = cc
find-append (x ∷ xs) ys u h = ground (arith, h, find-append xs ys u)

-- Behind anything, a user message still has a position.
position-append :
    (xs ys : List Value) (n : ℕ) → position ys ≡ some n → (k : ℕ) × (position (xs ++ ys) ≡ some k)
unfolding position
position-append [] ys n h = (n, h)
position-append (x ∷ xs) ys n h =
    let (k, e) = position-append xs ys n h in
    elim (Bool-cases (is_user x)) [
      | inl user ↦ (0, rw user refl)
      | inr other ↦ (suc k, rw (other, e) refl)
    ]

position_head : (x : Value) (ys : List Value) → is_user x ≡ true → position (x ∷ ys) ≡ some 0
unfolding position
position_head x ys h = rw h refl

position_before :
    (xs ys : List Value) (n : ℕ) → position xs ≡ some n → (k : ℕ) × (position (xs ++ ys) ≡ some k)
unfolding position
position_before [] ys n h = absurd (cc)
position_before (x ∷ xs) ys n h = elim (Bool-cases (is_user x)) [
  | inl user ↦ (0, rw user refl)
  | inr other ↦ elim (Option-cases (position xs)) [
    | inl e ↦ absurd (let k : none ≡ some n = rw (other, e) at h in cc)
    | inr (i, e) ↦ let (k, found) = position_before xs ys i e in (suc k, rw (other, found) refl)
  ]
]

position-reverse :
    (xs : List Value) (u : Value) → find xs ≡ some u → (n : ℕ) × (position (reverse xs) ≡ some n)
unfolding find
position-reverse [] u h = absurd (cc)
position-reverse (x ∷ xs) u h = elim (Bool-cases (is_user x)) [
  | inl user ↦
      rw (reverse-cons x xs) (position-append (reverse xs) (x ∷ []) 0 (position_head x [] user))
  | inr other ↦
      let (n, e) = position-reverse xs u (rw other at h) in
      rw (reverse-cons x xs) (position_before (reverse xs) (x ∷ []) n e)
]

-- A conversation with a user message whose last message is not the user's is in a loop.
loop_goes_on :
    (xs : List Value) (m u : Value)
    → find xs ≡ some u
    → is_user m ≡ false
    → continues_after_last_user (xs ++ m ∷ []) ≡ true
unfolding continues_after_last_user position
loop_goes_on xs m u h other =
    let (n, e) = position-reverse xs u h in rw (reverse-append xs (m ∷ []), other, e) (ground arith)

-- In a request that ends in a message of another role than the user's, the text that decides the
-- difficulty is the first message of the user, whatever came after it.
module _ (to_string : Value → Option Text) where
  task_focus_loop :
      (body : Value) (history : Items) (m u : Value)
      → messages_of body ≡ some (append history (cons m nil))
      → find (to_list history) ≡ some u
      → is_user m ≡ false
      → task_focus to_string body ≡ (content_of (some u), true)
  unfolding task_focus focus_of to_list
  task_focus_loop body history m u at_body first other =
      let goes_on = loop_goes_on (to_list history) m u first other in
      let found = find-append (to_list history) (m ∷ []) u first in
      rw (at_body, to_list-append history (cons m nil), goes_on, found) refl

module _ {F : Type 0} ⦃f : Float F⦄ (to_string : Value → Option Text) where
  difficulty_of_loop :
      (count : ℕ) (tools : Bool) (text : Text) (xs ys : Items)
      → difficulty_of ⦃f = f⦄ count tools (text, true) (some xs)
        ≡ difficulty_of count tools (text, true) (some ys)
  unfolding difficulty_of turn_cues
  difficulty_of_loop count tools text xs ys = refl

  difficulty_of_agree :
      (c d : ℕ) (t v : Bool) (text : Text) (fa fb : Text × Bool) (a b : Option Items)
      (xs ys : Items)
      → c ≡ d
      → t ≡ v
      → fa ≡ (text, true)
      → fb ≡ (text, true)
      → a ≡ some xs
      → b ≡ some ys
      → difficulty_of ⦃f = f⦄ c t fa a ≡ difficulty_of d v fb b
  difficulty_of_agree c d t v text fa fb a b xs ys ec et ea eb la lb =
      cc (difficulty_of_loop d v text xs ys)

  -- Of two requests that end in a message of another role than the user's, begin with the same message
  -- of the user, and agree on having tools and on the estimated tokens of the whole prompt, neither is
  -- the more difficult: what the rounds of a loop hold counts by its size alone.
  pub heuristic_difficulty_loop :
      (a b : Value) (history rounds : Items) (m n u : Value)
      → messages_of a ≡ some (append history (cons m nil))
      → messages_of b ≡ some (append rounds (cons n nil))
      → find (to_list history) ≡ some u
      → find (to_list rounds) ≡ some u
      → is_user m ≡ false
      → is_user n ≡ false
      → request_has_tools a ≡ request_has_tools b
      → estimate_tokens_from_text (extract_openai_prompt_text to_string a)
        ≡ estimate_tokens_from_text (extract_openai_prompt_text to_string b)
      → heuristic_difficulty ⦃f = f⦄ to_string a ≡ heuristic_difficulty to_string b
  unfolding heuristic_difficulty
  heuristic_difficulty_loop a b history rounds m n u at_a at_b first_a first_b other_m other_n tools
        tokens =
      difficulty_of_agree (estimate_tokens_from_text (extract_openai_prompt_text to_string a))
        (estimate_tokens_from_text (extract_openai_prompt_text to_string b)) (request_has_tools a)
        (request_has_tools b) (content_of (some u)) (task_focus to_string a)
        (task_focus to_string b) (messages_of a) (messages_of b) (append history (cons m nil))
        (append rounds (cons n nil)) tokens tools
        (task_focus_loop to_string a history m u at_a first_a other_m)
        (task_focus_loop to_string b rounds n u at_b first_b other_n) at_a at_b
