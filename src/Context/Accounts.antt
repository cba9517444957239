-- ===== src/Context/Accounts.antt =====
-- The reduction's own count of what it saved, against the sizes of the results before and after.
use smart_gate.Context.Text.{len}
use smart_gate.Context.Json.{
  Items, Value, arr, as_array, bind, cons, get, get-set_ne, get-set_self, get_str, nil, set, str,
}
use smart_gate.Context.Slim.{
  SlimConfig, Totals, content_to_text, if_shorter, in_blocks, is_text, none_yet, replacement_by,
  shorter, slim_action, slim_block, slim_blocks, slim_content, slim_found, slim_message,
  slim_messages, slim_tool_messages, take_over,
}
use smart_gate.Base.{
  Option, Text, arith, codes, if◌then◌else◌, none, refl, some, ℕ, ◌+◌, ◌<◌, ◌≡◌, ◌≢◌,
}

-- The size of the tool results in a message, its blocks and a history.
abbrev pub content_size : Option Value → ℕ
content_size none = 0
content_size (some c) = len (content_to_text c)

unfoldable pub block_size : Value → ℕ
block_size b =
    if is_text (get_str (codes "type") b) (codes "tool_result")
    then content_size (get (codes "content") b)
    else 0

unfoldable pub blocks_size : Items → ℕ
blocks_size nil = 0
blocks_size (cons b bs) = block_size b + blocks_size bs

unfoldable pub in_blocks_size : Option Items → ℕ
in_blocks_size none = 0
in_blocks_size (some bs) = blocks_size bs

unfoldable pub message_size : Value → ℕ
message_size m =
    if is_text (get_str (codes "role") m) (codes "tool")
    then content_size (get (codes "content") m)
    else in_blocks_size (bind (get (codes "content") m) as_array)

unfoldable pub history_size : Items → ℕ
history_size nil = 0
history_size (cons m ms) = message_size m + history_size ms

abbrev pub items_size : Option Items → ℕ
items_size none = 0
items_size (some ms) = history_size ms

unfoldable pub messages_size : Option Value → ℕ
unfolding as_array bind
messages_size o = items_size (bind o as_array)

bind-some : (o : Option Value) (bs : Items) → bind o as_array ≡ some bs → (w : Value) × (o ≡ some w)
unfolding bind
bind-some none bs h = cc
bind-some (some w) bs h = (w, refl)

get_str-set_ne : (k j : Text) (x v : Value) → k ≢ j → get_str j (set k x v) ≡ get_str j v
unfolding get_str
get_str-set_ne k j x v h = rw (get-set_ne k j x v h) refl

module _ (head_share : ℕ → ℕ) (cfg : SlimConfig) where
  -- The counts grow by a size, of which `left` is left and the rest is saved.
  abbrev Balanced : (size left : ℕ) → Totals → Totals → Type 0
  Balanced size left t u = (u.original ≡ t.original + size) × (left + u.saved ≡ size + t.saved)

  if_shorter-lt :
      (text : Text) (o : Option Text) (new : Text)
      → if_shorter head_share cfg text o ≡ some new
      → len new < len text
  unfolding if_shorter
  if_shorter-lt text none new h = cc
  if_shorter-lt text (some n) new h = grind arith

  take_over-Balanced :
      (v c : Value) (new : Option Text) (t : Totals)
      → get (codes "content") v ≡ some c
      → ((n : Text) → new ≡ some n → len n < len (content_to_text c))
      → Balanced
          (len (content_to_text c))
          (content_size
            (get (codes "content") (take_over head_share cfg v (content_to_text c) new t).0))
          t
          (take_over head_share cfg v (content_to_text c) new t).1
  unfolding content_to_text
  take_over-Balanced v c none t h lt = (refl, rw h refl)
  take_over-Balanced v c (some n) t h lt =
      (refl, rw (get-set_self (codes "content") (str n) v c h) (let l = lt n refl in omega arith))

  slim_found-Balanced :
      (v : Value) (id : Option Text) (t : Totals) (o : Option Value)
      → get (codes "content") v ≡ o
      → Balanced
          (content_size o)
          (content_size (get (codes "content") (slim_found head_share cfg v id t o).0))
          t
          (slim_found head_share cfg v id t o).1
  unfolding slim_found shorter
  slim_found-Balanced v id t none h = (omega arith, rw h refl)
  slim_found-Balanced v id t (some c) h =
      take_over-Balanced v c (shorter head_share cfg (content_to_text c) id) t h (
        if_shorter-lt (content_to_text c) (
          replacement_by head_share cfg (content_to_text c) id
            (slim_action head_share cfg (content_to_text c))))

  slim_found-keeps :
      (v : Value) (id : Option Text) (t : Totals) (o : Option Value) (j : Text)
      → codes "content" ≢ j
      → get_str j (slim_found head_share cfg v id t o).0 ≡ get_str j v
  unfolding slim_found
  slim_found-keeps v id t none j h = refl
  slim_found-keeps v id t (some c) j h =
      elim (shorter head_share cfg (content_to_text c) id)
        as (λ o. get_str j (take_over head_share cfg v (content_to_text c) o t).0 ≡ get_str j v) [
          | none ↦ refl
          | some n ↦ get_str-set_ne (codes "content") j (str n) v h
        ]

  slim_block-Balanced :
      (b : Value) (t : Totals)
      → Balanced
          (block_size b)
          (block_size (slim_block head_share cfg b t).0)
          t
          (slim_block head_share cfg b t).1
  unfolding slim_block slim_content block_size
  slim_block-Balanced b t =
      let found = get (codes "content") b in
      let id = get_str (codes "tool_use_id") b in
      let kept : get_str (codes "type") (slim_found head_share cfg b id t found).0
          ≡ get_str (codes "type") b =
        slim_found-keeps b id t found (codes "type") (grind arith) in
      let (counted, balanced) = slim_found-Balanced b id t found refl in
      ground (arith, kept, counted, balanced)

  slim_blocks-Balanced :
      (bs : Items) (t : Totals)
      → Balanced
          (blocks_size bs)
          (blocks_size (slim_blocks head_share cfg bs t).0)
          t
          (slim_blocks head_share cfg bs t).1
  unfolding slim_blocks blocks_size
  slim_blocks-Balanced nil t = (omega arith, refl)
  slim_blocks-Balanced (cons b bs) t =
      let one = slim_block-Balanced b t in
      let rest = slim_blocks-Balanced bs (slim_block head_share cfg b t).1 in
      let (a1, a2) = one in let (b1, b2) = rest in (omega arith, omega arith)

  in_blocks-Balanced :
      (m : Value) (t : Totals) (o : Option Items)
      → bind (get (codes "content") m) as_array ≡ o
      → Balanced
          (in_blocks_size o)
          (in_blocks_size
            (bind (get (codes "content") (in_blocks head_share cfg m t o).0) as_array))
          t
          (in_blocks head_share cfg m t o).1
  unfolding in_blocks in_blocks_size bind as_array
  in_blocks-Balanced m t none h = (omega arith, rw h refl)
  in_blocks-Balanced m t (some bs) h =
      let (w, found) = bind-some (get (codes "content") m) bs h in
      let (counted, balanced) = slim_blocks-Balanced bs t in
      (
        counted,
        rw (get-set_self (codes "content") (arr (slim_blocks head_share cfg bs t).0) m w found)
            balanced,
      )

  in_blocks-keeps :
      (m : Value) (t : Totals) (o : Option Items) (j : Text)
      → codes "content" ≢ j
      → get_str j (in_blocks head_share cfg m t o).0 ≡ get_str j m
  unfolding in_blocks
  in_blocks-keeps m t none j h = refl
  in_blocks-keeps m t (some bs) j h =
      get_str-set_ne (codes "content") j (arr (slim_blocks head_share cfg bs t).0) m h

  slim_message-Balanced :
      (m : Value) (t : Totals)
      → Balanced
          (message_size m)
          (message_size (slim_message head_share cfg m t).0)
          t
          (slim_message head_share cfg m t).1
  unfolding slim_message slim_content message_size
  slim_message-Balanced m t =
      let found = get (codes "content") m in
      let id = get_str (codes "tool_call_id") m in
      let blocks = bind found as_array in
      let kept : get_str (codes "role") (slim_found head_share cfg m id t found).0
          ≡ get_str (codes "role") m =
        slim_found-keeps m id t found (codes "role") (grind arith) in
      let kept2 : get_str (codes "role") (in_blocks head_share cfg m t blocks).0
          ≡ get_str (codes "role") m =
        in_blocks-keeps m t blocks (codes "role") (grind arith) in
      let (counted, balanced) = slim_found-Balanced m id t found refl in
      let (counted2, balanced2) = in_blocks-Balanced m t blocks refl in
      ground (arith, kept, kept2, counted, balanced, counted2, balanced2)

  slim_messages-Balanced :
      (ms : Items) (t : Totals)
      → Balanced
          (history_size ms)
          (history_size (slim_messages head_share cfg ms t).0)
          t
          (slim_messages head_share cfg ms t).1
  unfolding slim_messages history_size
  slim_messages-Balanced nil t = (omega arith, refl)
  slim_messages-Balanced (cons m ms) t =
      let (a1, a2) = slim_message-Balanced m t in
      let (b1, b2) = slim_messages-Balanced ms (slim_message head_share cfg m t).1 in
      (omega arith, omega arith)

  -- On a request with messages, the count of the tool results is their size, and their size
  -- afterwards and the count of what was saved make it up again.
  pub slim_tool_messages-balance :
      (body : Value) (ms : Items)
      → get (codes "messages") body ≡ some (arr ms)
      → ((slim_tool_messages head_share cfg body).original_tool_chars ≡ history_size ms)
        × (messages_size (get (codes "messages") (slim_tool_messages head_share cfg body).body)
              + (slim_tool_messages head_share cfg body).slimmed_chars
            ≡ history_size ms)
  unfolding slim_tool_messages bind as_array messages_size
  slim_tool_messages-balance body ms h =
      let (counted, balanced) = slim_messages-Balanced ms none_yet in
      let put =
        get-set_self (codes "messages") (arr (slim_messages head_share cfg ms none_yet).0) body
          (arr ms) h in
      rw (slim_tool_messages, h) (omega arith, rw put (omega arith))
