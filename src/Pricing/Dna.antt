-- ===== src/Pricing/Dna.antt =====
-- The profile of a model for display: five marks and its strengths.
use smart_gate.Base.{
  Bool, List, Option, Text, [], codes, if◌then◌else◌, max, min, none, some, true, ℕ, ◌+◌, ◌-◌, ◌∷◌,
  ◌||◌,
}
use smart_gate.Float.{Float, whole}
use smart_gate.Difficulty.Words.{contains, contains_any, to_ascii_lowercase}

pub record ModelDna : Type 0 where
  pub code_logic : ℕ
  pub reasoning_math : ℕ
  pub agent_tools : ℕ
  pub multilingual_nlp : ℕ
  pub context_retention : ℕ
  pub strengths : List Text

pub data Family : Type 0 where
  deepseek qwen claude_or_openai other : Family

abbrev pub pro_words : List Text
pro_words =
    codes "pro"
    ∷ codes "max"
    ∷ codes "r1"
    ∷ codes "reasoner"
    ∷ codes "gpt-4"
    ∷ codes "sonnet"
    ∷ codes "opus"
    ∷ []

-- `is_deepseek`, else `is_qwen`, else `is_claude || is_openai`
unfoldable pub family_of : Text → Family
unfolding contains contains_any
family_of lower =
    if contains lower (codes "deepseek")
    then deepseek
    else if contains_any lower (codes "qwen" ∷ codes "bailian" ∷ codes "tongyi" ∷ [])
    then qwen
    else if contains_any lower (codes "claude" ∷ codes "gpt" ∷ codes "o1" ∷ codes "o3" ∷ [])
    then claude_or_openai
    else other

abbrev pub or_true : Option Bool → Bool
or_true none = true
or_true (some b) = b

-- `base` is the score in hundredths, as a `u32`.
abbrev pub pro_dna : Family → (base : ℕ) → (tools : Bool) → ModelDna
pro_dna deepseek base tools = record {
  code_logic = 97;
  reasoning_math = 98;
  agent_tools = 93;
  multilingual_nlp = 92;
  context_retention = 94;
  strengths =
      codes "Top-Tier Code Synthesis"
      ∷ codes "Complex Mathematical Proofs"
      ∷ codes "Deep Multi-Step Reasoning"
      ∷ [];
}
pro_dna qwen base tools = record {
  code_logic = 93;
  reasoning_math = 94;
  agent_tools = 96;
  multilingual_nlp = 98;
  context_retention = 96;
  strengths =
      codes "Dominant Multilingual & Chinese"
      ∷ codes "Robust Agent Orchestration"
      ∷ codes "Long Document Comprehension"
      ∷ [];
}
pro_dna claude_or_openai base tools = record {
  code_logic = 96;
  reasoning_math = 95;
  agent_tools = 98;
  multilingual_nlp = 96;
  context_retention = 97;
  strengths =
      codes "Premier Tool Calling Reliability"
      ∷ codes "Complex Instruction Following"
      ∷ codes "General Intelligence SOTA"
      ∷ [];
}
pro_dna other base tools = record {
  code_logic = min base 95;
  reasoning_math = min base 95;
  agent_tools = if tools then min base 94 else 60;
  multilingual_nlp = min base 94;
  context_retention = min base 94;
  strengths = codes "High-End Reasoning" ∷ codes "Broad Domain Knowledge" ∷ [];
}

abbrev pub light_base : (base : ℕ) → (tools : Bool) → ModelDna
light_base base tools = record {
  code_logic = base;
  reasoning_math = base - 4;
  agent_tools = if tools then base + 2 else 55;
  multilingual_nlp = base + 3;
  context_retention = base;
  strengths = codes "Fast Lightweight Response" ∷ codes "Cost-Effective Execution" ∷ [];
}

-- `u32::clamp(60, 85)`
abbrev pub clamp_base : ℕ → ℕ
clamp_base base = max 60 (min base 85)

abbrev pub light_dna : Family → (base : ℕ) → (tools : Bool) → ModelDna
light_dna deepseek base tools = record {
  code_logic = 84;
  reasoning_math = 80;
  agent_tools = 85;
  multilingual_nlp = 86;
  context_retention = 82;
  strengths =
      codes "Ultra-Low Latency Response"
      ∷ codes "Cost-Optimal Code Assistance"
      ∷ codes "High-Throughput Streaming"
      ∷ [];
}
light_dna qwen base tools = record {
  code_logic = 82;
  reasoning_math = 78;
  agent_tools = 90;
  multilingual_nlp = 92;
  context_retention = 88;
  strengths =
      codes "Instant Schema Extraction"
      ∷ codes "Superior Cost/Quality NLP"
      ∷ codes "Fast Agent Function Calling"
      ∷ [];
}
light_dna claude_or_openai base tools = light_base (clamp_base base) tools
light_dna other base tools = light_base (clamp_base base) tools

module _ {F : Type 0} ⦃f : Float F⦄ where
  unfoldable pub derive_model_dna : Text → F → Option Bool → ModelDna
  unfolding family_of contains_any to_ascii_lowercase
  derive_model_dna model_id capability_score supports_tools =
      let lower = to_ascii_lowercase model_id in
      let base = f.to_u32 (f.round (f.mul capability_score (whole 100))) in
      if f.le (f.decimal 88 2) capability_score || contains_any lower pro_words
      then pro_dna (family_of lower) base (or_true supports_tools)
      else light_dna (family_of lower) base (or_true supports_tools)
