-- ===== src/Difficulty/Words.antt =====
-- src/policy/tokens.rs: the words that count in a task, and the tests for them.
use smart_gate.Base.{
  Bool, List, Text, [], codes, false, if◌then◌else◌, leb, true, ◌&&◌, ◌+◌, ◌==◌, ◌∷◌, ◌||◌,
}

unfoldable pub starts_with : Text → Text → Bool
starts_with [] t = true
starts_with (c ∷ w) [] = false
starts_with (c ∷ w) (d ∷ t) = c == d && starts_with w t

unfoldable pub contains : Text → Text → Bool
unfolding starts_with
contains [] w = starts_with w []
contains (c ∷ t) w = starts_with w (c ∷ t) || contains t w

unfoldable pub contains_any : Text → List Text → Bool
unfolding contains
contains_any t [] = false
contains_any t (w ∷ ws) = contains t w || contains_any t ws

unfoldable pub to_ascii_lowercase : Text → Text
to_ascii_lowercase [] = []
to_ascii_lowercase (c ∷ t) = (if leb 65 c && leb c 90 then c + 32 else c) ∷ to_ascii_lowercase t

abbrev code_markers : List Text
code_markers =
    codes "```"
    ∷ codes "def "
    ∷ codes "fn "
    ∷ codes "class "
    ∷ codes "SELECT "
    ∷ codes "CREATE TABLE"
    ∷ []

unfoldable pub has_code_marker : Text → Bool
unfolding contains_any
has_code_marker text = contains_any text code_markers

abbrev strong_words : List Text
strong_words =
    codes "step by step"
    ∷ codes "step-by-step"
    ∷ codes "root cause"
    ∷ codes "deadlock"
    ∷ codes "benchmark"
    ∷ codes "architecture"
    ∷ codes "architect "
    ∷ codes "distributed"
    ∷ codes "consensus"
    ∷ codes "paxos"
    ∷ codes "raft"
    ∷ codes "lock-free"
    ∷ codes "lockless"
    ∷ codes "spmc"
    ∷ codes "concurrency"
    ∷ codes "memory barrier"
    ∷ codes "spanner"
    ∷ codes "kernel"
    ∷ codes "algorithm"
    ∷ codes "proof"
    ∷ codes "prove"
    ∷ codes "np-complete"
    ∷ codes "formal"
    ∷ codes "theorem"
    ∷ codes "derivation"
    ∷ codes "derive"
    ∷ codes "parser"
    ∷ codes "compiler"
    ∷ codes "simd"
    ∷ codes "quantum"
    ∷ codes "cryptographic"
    ∷ codes "trade-off"
    ∷ codes "tradeoff"
    ∷ []

abbrev strong_words_chinese : List Text
strong_words_chinese =
    codes "逐步"
    ∷ codes "推导"
    ∷ codes "证明"
    ∷ codes "根因"
    ∷ codes "死锁"
    ∷ codes "架构"
    ∷ codes "算法"
    ∷ codes "分布式"
    ∷ codes "共识"
    ∷ codes "无锁"
    ∷ codes "并发"
    ∷ codes "内核"
    ∷ codes "编译器"
    ∷ codes "定理"
    ∷ []

unfoldable pub has_strong_reasoning_keyword : Text → Text → Bool
unfolding contains_any
has_strong_reasoning_keyword lower text =
    contains_any lower strong_words || contains_any text strong_words_chinese

abbrev task_words : List Text
task_words =
    codes "implement"
    ∷ codes "design"
    ∷ codes "compare"
    ∷ codes "optimize"
    ∷ codes "refactor"
    ∷ codes "migration"
    ∷ codes "debugging"
    ∷ []

abbrev task_words_chinese : List Text
task_words_chinese = codes "设计" ∷ codes "优化" ∷ codes "重构" ∷ codes "对比" ∷ []

unfoldable pub has_task_keyword : Text → Text → Bool
unfolding contains_any
has_task_keyword lower text = contains_any lower task_words || contains_any text task_words_chinese

abbrev correction_words : List Text
correction_words = codes "wrong" ∷ codes "error" ∷ codes "failed" ∷ codes "still failing" ∷ []

abbrev correction_words_chinese : List Text
correction_words_chinese = codes "不对" ∷ codes "还是报错" ∷ codes "理解错了" ∷ codes "遗漏" ∷ []

unfoldable pub is_correction : Text → Bool
unfolding contains_any to_ascii_lowercase
is_correction text =
    contains_any (to_ascii_lowercase text) correction_words
    || contains_any text correction_words_chinese
