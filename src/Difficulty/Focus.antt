-- ===== src/Difficulty/Focus.antt =====
-- src/policy/tokens.rs: the text that drives the difficulty of a turn. `to_string` is
-- `serde_json::to_string`.
use smart_gate.Base.{
  Bool, List, Option, Text, [], codes, false, if◌then◌else◌, ltb, none, reverse, some, suc, ℕ, ◌++◌,
  ◌∷◌,
}
use smart_gate.Context.Json.{Items, Value, as_array, bind, cons, get, get_str, nil}
use smart_gate.Context.Slim.{content_to_text, is_text}

unfoldable pub to_list : Items → List Value
to_list nil = []
to_list (cons v vs) = v ∷ to_list vs

abbrev pub is_user : Value → Bool
is_user m = is_text (get_str (codes "role") m) (codes "user")

unfoldable pub position : List Value → Option ℕ
position [] = none
position (m ∷ ms) =
    let rest = position ms in
    if is_user m then some 0 else elim rest [ none ↦ none | some n ↦ some (suc n) ]

unfoldable pub find : List Value → Option Value
find [] = none
find (m ∷ ms) = let rest = find ms in if is_user m then some m else rest

abbrev pub is_positive : Option ℕ → Bool
is_positive none = false
is_positive (some offset) = ltb 0 offset

unfoldable pub continues_after_last_user : List Value → Bool
unfolding position
continues_after_last_user msgs = is_positive (position (reverse msgs))

abbrev pub text_or_empty : Option Value → Text
text_or_empty none = []
text_or_empty (some c) = content_to_text c

abbrev pub content_of : Option Value → Text
content_of none = []
content_of (some m) = text_or_empty (get (codes "content") m)

abbrev pub messages_of : Value → Option Items
messages_of body = bind (get (codes "messages") body) as_array

unfoldable pub prompt_parts : Items → List Text
prompt_parts nil = []
prompt_parts (cons m ms) = elim (get (codes "content") m) [
  | none ↦ prompt_parts ms
  | some c ↦ content_to_text c ∷ prompt_parts ms
]

abbrev pub all_parts : Option Items → List Text
all_parts none = []
all_parts (some ms) = prompt_parts ms

abbrev pub join_lines : List Text → Text
join_lines [] = []
join_lines (t ∷ []) = t
join_lines (t ∷ u ∷ ts) = t ++ (10 ∷ join_lines (u ∷ ts))

unfoldable pub focus_of : Option Items → Text → Text × Bool
unfolding find continues_after_last_user to_list
focus_of none prompt = (prompt, false)
focus_of (some msgs) prompt =
    let mid_loop = continues_after_last_user (to_list msgs) in
    (
      if mid_loop
          then content_of (find (to_list msgs))
          else content_of (find (reverse (to_list msgs))),
      mid_loop,
    )

module _ (to_string : Value → Option Text) where
  abbrev pub tools_part : Option Value → List Text
  tools_part none = []
  tools_part (some tools) = elim (to_string tools) [ none ↦ [] | some s ↦ s ∷ [] ]

  unfoldable pub extract_openai_prompt_text : Value → Text
  unfolding prompt_parts
  extract_openai_prompt_text body =
      join_lines (all_parts (messages_of body) ++ tools_part (get (codes "tools") body))

  -- The text and whether it is a round in the middle of an agent's loop.
  unfoldable pub task_focus : Value → Text × Bool
  unfolding focus_of
  task_focus body = focus_of (messages_of body) (extract_openai_prompt_text body)
