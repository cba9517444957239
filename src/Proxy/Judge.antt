-- ===== src/Proxy/Judge.antt =====
-- src/api/judge.rs: the auxiliary judge of borderline prompts.
use smart_gate.Base.{
  Bool, Option, Text, [], codes, false, if◌then◌else◌, leb, none, some, ◌&&◌, ◌++◌, ◌-◌, ◌∷◌,
}
use smart_gate.Base.Headers.{insert}
use smart_gate.Base.Map.{Map, or_else, put}
use smart_gate.Float.{Float}
use smart_gate.Context.Json.{
  Items, Value, arr, as_array, as_str, bool, cons, end, field, get, get_str, nil, number, obj, str,
  uint,
}
use smart_gate.Context.Slim.{is_text}
use smart_gate.Context.Text.{take, to_decimal, trim}
use smart_gate.Difficulty.Words.{contains}
use smart_gate.Difficulty.Estimate.{estimate_tokens_from_text}
use smart_gate.Session.Ids.{and_then, or_option}
use smart_gate.Proxy.Response.{json}
use smart_gate.Proxy.State.{
  Caller, ChatProtocol, HostOutcome, JudgeEndpoint, anthropic, open_ai, response,
}

pub data DifficultyTier : Type 0 where
  low medium high : DifficultyTier

unfoldable pub tier_text : DifficultyTier → Text
tier_text low = codes "low"
tier_text medium = codes "medium"
tier_text high = codes "high"

-- `as_str().to_uppercase()`
unfoldable pub tier_upper : DifficultyTier → Text
tier_upper low = codes "LOW"
tier_upper medium = codes "MEDIUM"
tier_upper high = codes "HIGH"

module _ {F : Type 0} ⦃f : Float F⦄ where
  unfoldable pub tier_score : DifficultyTier → F
  tier_score low = f.decimal 20 2
  tier_score medium = f.decimal 50 2
  tier_score high = f.decimal 85 2

  unfoldable pub difficulty_tier : F → DifficultyTier
  difficulty_tier difficulty =
      if f.le (f.decimal 55 2) difficulty
      then high
      else if f.le (f.decimal 35 2) difficulty
      then medium
      else low

  -- `(JUDGE_TRIGGER_MIN..=JUDGE_TRIGGER_MAX).contains`
  unfoldable pub is_borderline : F → Bool
  is_borderline difficulty = f.le (f.decimal 30 2) difficulty && f.le difficulty (f.decimal 65 2)

unfoldable pub to_ascii_uppercase : Text → Text
to_ascii_uppercase [] = []
to_ascii_uppercase (c ∷ t) = (if leb 97 c && leb c 122 then c - 32 else c) ∷ to_ascii_uppercase t

-- `get(0)`
abbrev pub first_item : Option Items → Option Value
first_item none = none
first_item (some nil) = none
first_item (some (cons v vs)) = some v

-- The text of the first block of type "text" that has one.
unfoldable pub first_text : Items → Option Text
unfolding get_str
first_text nil = none
first_text (cons b bs) =
    let rest = first_text bs in
    elim (if is_text (get_str (codes "type") b) (codes "text")
      then get_str (codes "text") b
      else none) [ none ↦ rest | some t ↦ some t ]

abbrev choice_text : Value → Option Text
choice_text answer_json =
    let choice = first_item (and_then (get (codes "choices") answer_json) as_array) in
    and_then (and_then (and_then choice (get (codes "message"))) (get (codes "content"))) as_str

abbrev block_text : Value → Option Text
block_text answer_json = and_then (and_then (get (codes "content") answer_json) as_array) first_text

unfoldable pub tier_of : Text → Option DifficultyTier
unfolding contains
tier_of upper =
    if contains upper (codes "HIGH")
    then some high
    else if contains upper (codes "MEDIUM")
    then some medium
    else if contains upper (codes "LOW")
    then some low
    else if contains upper (codes "COMPLEX")
    then some high
    else if contains upper (codes "SIMPLE")
    then some low
    else none

unfoldable pub classify_judge_response : Value → Option DifficultyTier
unfolding get as_array as_str first_text tier_of to_ascii_uppercase trim
classify_judge_response answer_json =
    and_then (or_option (choice_text answer_json) (block_text answer_json))
      (λ content. tier_of (to_ascii_uppercase (trim content)))

-- What an answer of the judge's endpoint says; a stream says nothing.
abbrev pub verdict_of : {Stream : Type 0} → HostOutcome Stream → Option DifficultyTier
verdict_of (response status (json value)) = classify_judge_response value
verdict_of _ = none

abbrev system_prompt : Text
system_prompt =
    codes "You are a prompt complexity classifier. Answer ONLY one label: LOW, MEDIUM, or HIGH. "
    ++ (codes
          "Use HIGH for advanced reasoning, proofs, complex architecture or algorithms, or deep "
        ++ (codes "debugging. Use MEDIUM for non-trivial implementation, comparison, design, or "
            ++ codes
                "analysis. Use LOW for simple questions, formatting, translation, or direct extraction."))

abbrev message_of : Text → Text → Value
message_of role content =
    obj (field (codes "role") (str role) (field (codes "content") (str content) end))

-- The body that `build_judge_request` hands to the parser of the endpoint's protocol.
unfoldable pub judge_payload : JudgeEndpoint → (prompt_text : Text) → Value
unfolding take
judge_payload endpoint prompt_text = obj (
    field (codes "model") (str (or_else endpoint.default_model (codes "smartgate-judge"))) (
      field (codes "max_tokens") (uint 10) (
        field (codes "temperature") (number (codes "0.0")) (
          field (codes "stream") (bool false) (
            field (codes "messages")
              (arr (
                cons (message_of (codes "system") system_prompt)
                  (cons (message_of (codes "user") (take 400 prompt_text)) nil)))
              end)))))

abbrev pub judge_protocol : JudgeEndpoint → ChatProtocol
judge_protocol endpoint = if endpoint.is_anthropic then anthropic else open_ai

-- The outer request owns the slot: its judge must not give it back.
unfoldable pub judge_metadata :
    {F : Type 0}
    → Caller F
    → (virtual_model_id pool_id prompt_text : Text) → Map Text Text
    → Map Text Text
unfolding put to_decimal estimate_tokens_from_text
judge_metadata c vm pool prompt_text m = insert (codes "output_tokens_est") (codes "10") (
    insert (codes "input_tokens_est") (to_decimal (estimate_tokens_from_text prompt_text)) (
      insert (codes "quota_release") (codes "0") (
        insert (codes "judge_request") (codes "1") (
          insert (codes "routing_strategy") (codes "judge") (
            insert (codes "pool_id") pool (
              insert (codes "virtual_model_id") vm (
                insert (codes "key_id") c.key_id (
                  insert (codes "project_id") c.project_id
                    (insert (codes "org_id") c.org_id m)))))))))
