-- ===== src/Difficulty/Samples.antt =====
-- Two rounds of one task whose tool results differ.
use smart_gate.Base.{Option, Text, Text-discrete, codes, false, none, refl, ℕ, ◌≡◌}
use smart_gate.Context.Json.{
  Items, Value, arr, as_array, as_str, bind, cons, end, field, get, get_field, get_str, nil, obj,
  str,
}
use smart_gate.Context.Laws.{append}
use smart_gate.Context.Slim.{content_to_text}
use smart_gate.Context.Text.{is_whitespace}
use smart_gate.Float.Fixed.{fixed}
use smart_gate.Difficulty.Words.{contains, contains_any, has_code_marker, starts_with}
use smart_gate.Difficulty.Focus.{extract_openai_prompt_text, find, prompt_parts, to_list}
use smart_gate.Difficulty.Estimate.{
  count_widths, estimate_tokens_from_text, heuristic_difficulty, is_wide, request_has_tools,
}
use smart_gate.Difficulty.Loop.{heuristic_difficulty_loop}

abbrev no_string : Value → Option Text
no_string v = none

abbrev message : Text → Text → Value
message role content =
    obj (field (codes "role") (str role) (field (codes "content") (str content) end))

abbrev task : Value
task = message (codes "user") (codes "hi")

abbrev history : Items
history = cons task nil

abbrev round : Text → Value
round result =
    obj (field (codes "messages") (arr (cons task (cons (message (codes "tool") result) nil))) end)

unmarked : has_code_marker (codes "hi") ≡ false
unfolding has_code_marker contains_any contains starts_with
unmarked = refl

heuristic_difficulty_loop_example :
    heuristic_difficulty {F = ℕ} no_string (round (codes "fn "))
    ≡ heuristic_difficulty no_string (round (codes "ab"))
unfolding get get_field bind as_array append find to_list get_str as_str content_to_text
    request_has_tools estimate_tokens_from_text extract_openai_prompt_text prompt_parts count_widths
    is_wide is_whitespace Text-discrete
heuristic_difficulty_loop_example =
    heuristic_difficulty_loop no_string (round (codes "fn ")) (round (codes "ab")) history history
      (message (codes "tool") (codes "fn ")) (message (codes "tool") (codes "ab")) task refl refl
      refl refl refl refl refl refl
