-- ===== src/Difficulty/Signals.antt =====
-- src/policy/tokens.rs: what is reported of a request: its expected output, the cues found in it, a
-- preview of it and the size of its tool messages.
use smart_gate.Session.Ids.{or_option}
use smart_gate.Base.Map.{or_else}
use smart_gate.Base.{
  Bool, List, Option, Text, [], arith, codes, if◌then◌else◌, leb, length, ltb, map_option, max, min,
  none, reverse, some, ℕ, ◌%◌, ◌++◌, ◌+◌, ◌==◌, ◌^◌, ◌∷◌, ◌≤◌, ◌||◌,
}
use smart_gate.Context.Json.{Items, Value, bind, get, get_str, uint}
use smart_gate.Context.Text.{len, split_whitespace, take, trim}
use smart_gate.Context.Slim.{content_to_text, is_text, join}
use smart_gate.Difficulty.Words.{
  has_code_marker, has_strong_reasoning_keyword, has_task_keyword, is_correction,
  to_ascii_lowercase,
}
use smart_gate.Difficulty.Focus.{
  content_of, continues_after_last_user, extract_openai_prompt_text, find, messages_of, task_focus,
  to_list,
}
use smart_gate.Difficulty.Estimate.{estimate_tokens_from_text, request_has_tools}

abbrev as_u64 : Value → Option ℕ
as_u64 v = elim v as (λ _. Option ℕ) [ uint n ↦ some n | _ ↦ none ]

-- `(v as u32).clamp(1, 128_000)`
abbrev clamped : ℕ → ℕ
clamped v = min (max (v % 2 ^ 32) 1) 128_000

abbrev limit_field : Value → Option Value
limit_field body = or_option (get (codes "max_tokens") body) (get (codes "max_output_tokens") body)

unfoldable pub expected_output_tokens : Value → (default : ℕ) → ℕ
expected_output_tokens body default =
    max (or_else (map_option clamped (bind (limit_field body) as_u64)) default) 1

abbrev cue : Bool → Text → List Text
cue b name = if b then name ∷ [] else []

-- The cues of the messages.
abbrev message_signals : Option Items → List Text
message_signals none = []
message_signals (some msgs) =
    let ms = to_list msgs in
    cue (leb 6 (length ms)) (codes "Deep multi-turn") ++ elim (find (reverse ms)) [
      | none ↦ []
      | some last_user ↦
          cue (is_correction (content_of (some last_user))) (codes "Correction feedback")
    ]

abbrev or_general : List Text → List Text
or_general [] = codes "General query" ∷ []
or_general (s ∷ ss) = s ∷ ss

abbrev task_signals : Text → Text → List Text
task_signals lower task =
    if has_strong_reasoning_keyword lower task
    then codes "Complex reasoning" ∷ []
    else cue (has_task_keyword lower task) (codes "System design")

module _ (to_string : Value → Option Text) where
  unfoldable pub extract_complexity_signals : Value → List Text
  unfolding extract_openai_prompt_text task_focus estimate_tokens_from_text request_has_tools
      has_code_marker has_strong_reasoning_keyword has_task_keyword to_ascii_lowercase find to_list
      is_correction
  extract_complexity_signals body =
      let text = extract_openai_prompt_text to_string body in
      let (task_text, mid_loop) = task_focus to_string body in
      or_general (
        cue (request_has_tools body) (codes "Tools / Functions")
        ++ (cue mid_loop (codes "Agent loop")
            ++ (cue (has_code_marker text) (codes "Code & Schema")
                ++ (cue (ltb 6000 (estimate_tokens_from_text text)) (codes "Long context")
                    ++ (task_signals (to_ascii_lowercase task_text) task_text
                        ++ message_signals (messages_of body))))))

  -- `replace(['\r', '\n', '\t'], " ")`
  abbrev on_one_line : Text → Text
  on_one_line [] = []
  on_one_line (c ∷ t) = (if c == 13 || c == 10 || c == 9 then 32 else c) ∷ on_one_line t

  abbrev preview_of : Bool → Text → Text
  preview_of mid_loop text =
      let preview = take 250 (join (split_whitespace (on_one_line (trim text)))) in
      if mid_loop then codes "⟳ " ++ preview else preview

  abbrev whole_preview : Text → Text
  whole_preview text = take 250 (on_one_line (trim text))

  -- The content of the last message of the user.
  abbrev last_content : List Value → Option Value
  last_content ms = bind (find (reverse ms)) (get (codes "content"))

  unfoldable pub extract_user_prompt_preview : Value → Text
  unfolding extract_openai_prompt_text find to_list continues_after_last_user trim take
      split_whitespace content_to_text bind
  extract_user_prompt_preview body =
      let ms = map_option to_list (messages_of body) in
      elim (bind ms last_content) [
        | none ↦ whole_preview (extract_openai_prompt_text to_string body)
        | some content ↦
            preview_of (continues_after_last_user (or_else ms [])) (content_to_text content)
      ]

abbrev tool_chars : List Value → ℕ
tool_chars [] = 0
tool_chars (m ∷ ms) =
    (if is_text (get_str (codes "role") m) (codes "tool") then len (content_of (some m)) else 0)
    + tool_chars ms

unfoldable pub tool_message_chars : Value → ℕ
unfolding to_list len get_str
tool_message_chars body = tool_chars (or_else (map_option to_list (messages_of body)) [])

-- Between one token and the larger of the default and 128,000, whatever number is asked for.
pub expected_output_tokens_bounds :
    (body : Value) (default : ℕ)
    → (1 ≤ expected_output_tokens body default)
      × (expected_output_tokens body default ≤ max default 128_000)
unfolding expected_output_tokens
expected_output_tokens_bounds body default = ground arith
