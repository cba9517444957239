-- ===== src/Context/Slim.antt =====
-- src/policy/context.rs: aged tool results are capped or replaced, by their content alone.
-- `head_share n` is `(n as f64 * 0.7) as usize`.
use smart_gate.Base.{
  Bool, List, Option, Text, Text-discrete, [], codes, false, if◌then◌else◌, ite, leb, length, ltb,
  min, none, reverse, some, true, ℕ, ◌&&◌, ◌*◌, ◌++◌, ◌+◌, ◌-◌, ◌^◌, ◌∷◌,
}
use smart_gate.Base.Map.{or_else}
use smart_gate.Context.Json.{
  Items, Value, arr, as_array, as_str, bind, bool, cons, get, get_str, nil, null, number, obj, set,
  str, uint,
}
use smart_gate.Context.Text.{first_line, len, lines, take, to_decimal}

pub record SlimConfig : Type 0 where
  pub max_tool_chars : ℕ
  pub placeholder_after : ℕ

unfoldable pub default_config : SlimConfig
default_config = record { max_tool_chars = 32_000; placeholder_after = 128_000 }

-- The counts that the loop carries.
pub record Totals : Type 0 where
  pub original : ℕ
  pub saved : ℕ
  pub modified : Bool
  pub touched : ℕ

abbrev pub none_yet : Totals
none_yet = record { original = 0; saved = 0; modified = false; touched = 0 }

pub record SlimResult : Type 0 where
  pub body : Value
  pub original_tool_chars : ℕ
  pub slimmed_chars : ℕ
  pub modified : Bool
  pub tools_touched : ℕ

abbrev pub block_text : Value → Option Text
block_text b = elim (get_str (codes "text") b) [ some t ↦ some t | none ↦ as_str b ]

unfoldable pub texts : Items → List Text
texts nil = []
texts (cons b bs) = elim (block_text b) [ none ↦ texts bs | some t ↦ t ∷ texts bs ]

abbrev pub join : List Text → Text
join [] = []
join (t ∷ []) = t
join (t ∷ u ∷ ts) = t ++ codes " " ++ join (u ∷ ts)

unfoldable pub content_to_text : Value → Text
unfolding texts
content_to_text (str t) = t
content_to_text (arr xs) = join (texts xs)
content_to_text null = []
content_to_text (bool b) = []
content_to_text (uint n) = []
content_to_text (number t) = []
content_to_text (obj fs) = []

unfoldable pub clue_of : Option Text → Text
clue_of none = codes "tool output"
clue_of (some l) = if ltb 80 (length l) then take 80 l ++ codes "…" else take 80 l

unfoldable pub placeholder : Text → Option Text → ℕ → Text
unfolding clue_of
placeholder text id original_len =
    codes "[prior tool result omitted by SmartGate: ~"
    ++ (to_decimal original_len
        ++ (codes " chars, id="
            ++ (or_else id (codes "-")
                ++ (codes ", clue=" ++ (clue_of (first_line (lines text)) ++ codes "]")))))

pub data SlimAction : Type 0 where
  use_placeholder : SlimAction
  cap_to : Text → SlimAction

abbrev pub is_text : Option Text → Text → Bool
is_text none s = false
is_text (some t) s = ite (Text-discrete t s) true false

module _ (head_share : ℕ → ℕ) (cfg : SlimConfig) where
  unfoldable pub head_tail : Text → ℕ → Text
  head_tail text max_chars =
      let head_len = head_share max_chars in
      let tail_len = max_chars - (head_len + 80) in
      let head = take head_len text in
      let tail = reverse (take tail_len (reverse text)) in
      let omitted = len text - (len head + len tail) in
      if leb (len text) max_chars
      then text
      else head
        ++ (codes "\n...[truncated by SmartGate: "
            ++ (to_decimal omitted ++ (codes " chars]...\n" ++ tail)))

  unfoldable pub slim_action : Text → Option SlimAction
  slim_action text =
      if ltb 0 cfg.placeholder_after && ltb cfg.placeholder_after (len text)
      then some use_placeholder
      else if ltb cfg.max_tool_chars (len text)
      then some (cap_to (head_tail text cfg.max_tool_chars))
      else none

  abbrev pub replacement_by : Text → Option Text → Option SlimAction → Option Text
  replacement_by text id none = none
  replacement_by text id (some use_placeholder) = some (placeholder text id (len text))
  replacement_by text id (some (cap_to capped)) = some capped

  -- A replacement is taken only if it is shorter.
  unfoldable pub if_shorter : Text → Option Text → Option Text
  if_shorter text none = none
  if_shorter text (some new) = if ltb (len new) (len text) then some new else none

  unfoldable pub shorter : Text → Option Text → Option Text
  shorter text id = if_shorter text (replacement_by text id (slim_action text))

  abbrev pub take_over : Value → Text → Option Text → Totals → Value × Totals
  take_over v text none t = (v, record t { original = t.original + len text })
  take_over v text (some new) t = (
    set (codes "content") (str new) v,
    record {
      original = t.original + len text;
      saved = t.saved + (len text - len new);
      modified = true;
      touched = t.touched + 1;
    },
  )

  unfoldable pub slim_found : Value → Option Text → Totals → Option Value → Value × Totals
  slim_found v id t none = (v, t)
  slim_found v id t (some content) =
      take_over v (content_to_text content) (shorter (content_to_text content) id) t

  -- The body of one tool message or block, under its `content`.
  unfoldable pub slim_content : Value → Option Text → Totals → Value × Totals
  slim_content v id t = slim_found v id t (get (codes "content") v)

  unfoldable pub slim_block : Value → Totals → Value × Totals
  slim_block b t =
      if is_text (get_str (codes "type") b) (codes "tool_result")
      then slim_content b (get_str (codes "tool_use_id") b) t
      else (b, t)

  unfoldable pub slim_blocks : Items → Totals → Items × Totals
  slim_blocks nil t = (nil, t)
  slim_blocks (cons b bs) t =
      let (b', t') = slim_block b t in let (bs', t2) = slim_blocks bs t' in (cons b' bs', t2)

  unfoldable pub in_blocks : Value → Totals → Option Items → Value × Totals
  in_blocks m t none = (m, t)
  in_blocks m t (some blocks) =
      let (bs, t') = slim_blocks blocks t in (set (codes "content") (arr bs) m, t')

  unfoldable pub slim_message : Value → Totals → Value × Totals
  slim_message m t =
      if is_text (get_str (codes "role") m) (codes "tool")
      then slim_content m (get_str (codes "tool_call_id") m) t
      else in_blocks m t (bind (get (codes "content") m) as_array)

  unfoldable pub slim_messages : Items → Totals → Items × Totals
  slim_messages nil t = (nil, t)
  slim_messages (cons m ms) t =
      let (m', t') = slim_message m t in let (ms', t2) = slim_messages ms t' in (cons m' ms', t2)

  unfoldable pub slim_tool_messages : Value → SlimResult
  slim_tool_messages body = elim (bind (get (codes "messages") body) as_array) [
    | none ↦ record {
      body = body;
      original_tool_chars = 0;
      slimmed_chars = 0;
      modified = false;
      tools_touched = 0;
    }
    | some msgs ↦
        let (ms, t) = slim_messages msgs none_yet in
        record {
          body = set (codes "messages") (arr ms) body;
          original_tool_chars = t.original;
          slimmed_chars = t.saved;
          modified = t.modified;
          tools_touched = t.touched;
        }
  ]

unfoldable pub trim_tool_messages : (ℕ → ℕ) → Value → ℕ → SlimResult
unfolding slim_tool_messages
trim_tool_messages head_share body max_tool_chars =
    slim_tool_messages head_share
      (record {
        max_tool_chars = max_tool_chars;
        placeholder_after = min (max_tool_chars * 4) (2 ^ 64 - 1);
      })
      body
