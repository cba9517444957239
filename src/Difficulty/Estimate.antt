-- ===== src/Difficulty/Estimate.antt =====
-- src/policy/tokens.rs: the estimate of tokens and the difficulty. The counts of characters are
-- `u32` in the source and do not wrap here; their quarter is exact as an `f64`.
use smart_gate.Base.{
  Bool, List, Option, Text, [], codes, false, if◌then◌else◌, leb, length, max, none, not, some,
  true, ℕ, ◌&&◌, ◌*◌, ◌+◌, ◌/◌, ◌∷◌, ◌||◌,
}
use smart_gate.Float.{Float, clamp, whole}
use smart_gate.Context.Json.{Items, Value, as_array, bind, cons, get, nil}
use smart_gate.Context.Text.{is_whitespace}
use smart_gate.Difficulty.Words.{
  has_code_marker, has_strong_reasoning_keyword, has_task_keyword, is_correction,
  to_ascii_lowercase,
}
use smart_gate.Difficulty.Focus.{
  content_of, extract_openai_prompt_text, is_user, messages_of, task_focus, to_list,
}

unfoldable pub is_wide : ℕ → Bool
is_wide c =
    (leb 0x4e00 c && leb c 0x9fff)
    || (leb 0x3400 c && leb c 0x4dbf)
    || (leb 0x3040 c && leb c 0x30ff)
    || (leb 0xac00 c && leb c 0xd7af)
    || (leb 0xff00 c && leb c 0xffef)

-- Wide characters, and narrow ones that are no white space.
unfoldable pub count_widths : Text → ℕ × ℕ
unfolding is_wide is_whitespace
count_widths [] = (0, 0)
count_widths (c ∷ t) =
    let (wide, narrow) = count_widths t in
    if is_wide c
    then (wide + 1, narrow)
    else if not (is_whitespace c)
    then (wide, narrow + 1)
    else (wide, narrow)

unfoldable pub estimate_tokens_from_text : Text → ℕ
unfolding count_widths
estimate_tokens_from_text text =
    let (wide, narrow) = count_widths text in max ((4 * wide + narrow + 3) / 4) 1

abbrev is_filled : Option Items → Bool
is_filled none = false
is_filled (some nil) = false
is_filled (some (cons v vs)) = true

abbrev is_filled_at : Text → Value → Bool
is_filled_at k body = is_filled (bind (get k body) as_array)

unfoldable pub request_has_tools : Value → Bool
request_has_tools body = is_filled_at (codes "tools") body || is_filled_at (codes "functions") body

abbrev pub last : List Value → Option Value
last [] = none
last (m ∷ []) = some m
last (m ∷ n ∷ ms) = last (n ∷ ms)

abbrev pub is_user_last : Option Value → Bool
is_user_last none = false
is_user_last (some m) = is_user m

module _ {F : Type 0} ⦃f : Float F⦄ where
  abbrev pub raise : Bool → F → F → F
  raise cue amount d = if cue then f.add d amount else d

  -- Cues of a conversation whose last turn is the user's.
  unfoldable pub turn_cues : Option Items → Bool → F → F
  unfolding to_list is_correction
  turn_cues none mid_loop d = d
  turn_cues (some msgs) mid_loop d =
      let ms = to_list msgs in
      raise (not mid_loop && is_user_last (last ms) && is_correction (content_of (last ms)))
        (f.decimal 30 2) (raise (not mid_loop && leb 8 (length ms)) (f.decimal 5 2) d)

  -- The cues of the task, and of the size of the whole prompt.
  unfoldable pub task_cues : ℕ → Bool → Text → F
  unfolding has_code_marker has_strong_reasoning_keyword has_task_keyword to_ascii_lowercase
  task_cues count tools text =
      let lower = to_ascii_lowercase text in
      let tokens = f.of_nat count in
      let long = f.add (f.decimal 15 2) (f.min_of (f.div tokens (whole 24000)) (f.decimal 20 2)) in
      let very_long = raise (f.lt (whole 60000) tokens) (f.decimal 5 2) long in
      let tooled = raise tools (f.decimal 8 2) very_long in
      let coded = raise (has_code_marker text) (f.decimal 12 2) tooled in
      let loaded = raise (f.lt (whole 12000) tokens) (f.decimal 5 2) coded in
      if has_strong_reasoning_keyword lower text
      then f.add loaded (f.decimal 50 2)
      else raise (has_task_keyword lower text) (f.decimal 25 2) loaded

  unfoldable pub difficulty_of : ℕ → Bool → Text × Bool → Option Items → F
  unfolding task_cues turn_cues
  difficulty_of count tools focus msgs =
      clamp (turn_cues msgs focus.1 (task_cues count tools focus.0)) (whole 0) (whole 1)

  unfoldable pub heuristic_difficulty : (Value → Option Text) → Value → F
  unfolding difficulty_of task_focus extract_openai_prompt_text estimate_tokens_from_text
      request_has_tools
  heuristic_difficulty to_string body =
      difficulty_of (estimate_tokens_from_text (extract_openai_prompt_text to_string body))
        (request_has_tools body) (task_focus to_string body) (messages_of body)
