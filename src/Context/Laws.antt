-- ===== src/Context/Laws.antt =====
-- What the reduction of tool results keeps.
use smart_gate.Context.Json.{
  Items, Value, arr, as_array, bind, cons, get, get-set_self, get_str, nil, set,
}
use smart_gate.Context.Slim.{
  SlimConfig, Totals, content_to_text, in_blocks, none_yet, shorter, slim_block, slim_blocks,
  slim_content, slim_found, slim_message, slim_messages, slim_tool_messages, take_over,
}
use smart_gate.Base.{Option, Text, ap, arith, codes, none, refl, some, ℕ, ◌∙◌, ◌≡◌}

unfoldable pub append : Items → Items → Items
append nil ys = ys
append (cons x xs) ys = cons x (append xs ys)

module _ (head_share : ℕ → ℕ) (cfg : SlimConfig) where
  -- The part of a result that is rendered.
  abbrev pub rendered : Items → Totals → Items
  rendered ms t = (slim_messages head_share cfg ms t).0

  -- A message's rendering does not read the counts.
  take_over-totals :
      (v : Value) (text : Text) (new : Option Text) (t u : Totals)
      → (take_over head_share cfg v text new t).0 ≡ (take_over head_share cfg v text new u).0
  take_over-totals v text none t u = refl
  take_over-totals v text (some new) t u = refl

  slim_found-totals :
      (v : Value) (id : Option Text) (t u : Totals) (o : Option Value)
      → (slim_found head_share cfg v id t o).0 ≡ (slim_found head_share cfg v id u o).0
  unfolding slim_found
  slim_found-totals v id t u none = refl
  slim_found-totals v id t u (some c) =
      take_over-totals v (content_to_text c) (shorter head_share cfg (content_to_text c) id) t u

  slim_content-totals :
      (v : Value) (id : Option Text) (t u : Totals)
      → (slim_content head_share cfg v id t).0 ≡ (slim_content head_share cfg v id u).0
  unfolding slim_content
  slim_content-totals v id t u = slim_found-totals v id t u (get (codes "content") v)

  slim_block-totals :
      (v : Value) (t u : Totals)
      → (slim_block head_share cfg v t).0 ≡ (slim_block head_share cfg v u).0
  unfolding slim_block
  slim_block-totals v t u =
      ground (arith, slim_content-totals v (get_str (codes "tool_use_id") v) t u)

  slim_blocks-totals :
      (bs : Items) (t u : Totals)
      → (slim_blocks head_share cfg bs t).0 ≡ (slim_blocks head_share cfg bs u).0
  unfolding slim_blocks
  slim_blocks-totals nil t u = refl
  slim_blocks-totals (cons b bs) t u = cc (
    slim_block-totals b t u,
    slim_blocks-totals bs ((slim_block head_share cfg b t).1) ((slim_block head_share cfg b u).1),
  )

  in_blocks-totals :
      (v : Value) (t u : Totals) (o : Option Items)
      → (in_blocks head_share cfg v t o).0 ≡ (in_blocks head_share cfg v u o).0
  unfolding in_blocks
  in_blocks-totals v t u none = refl
  in_blocks-totals v t u (some bs) =
      ap (λ xs. set (codes "content") (arr xs) v) (slim_blocks-totals bs t u)

  slim_message-totals :
      (v : Value) (t u : Totals)
      → (slim_message head_share cfg v t).0 ≡ (slim_message head_share cfg v u).0
  unfolding slim_message
  slim_message-totals v t u = ground (
    arith,
    slim_content-totals v (get_str (codes "tool_call_id") v) t u,
    in_blocks-totals v t u (bind (get (codes "content") v) as_array),
  )

  slim_messages-totals : (ms : Items) (t u : Totals) → rendered ms t ≡ rendered ms u
  unfolding slim_messages
  slim_messages-totals nil t u = refl
  slim_messages-totals (cons m ms) t u = cc (
    slim_message-totals m t u,
    slim_messages-totals ms ((slim_message head_share cfg m t).1)
        ((slim_message head_share cfg m u).1),
  )

  append-rendered :
      (ms ns : Items) (t u : Totals)
      → rendered (append ms ns) t ≡ append (rendered ms t) (rendered ns u)
  unfolding slim_messages append
  append-rendered nil ns t u = slim_messages-totals ns t u
  append-rendered (cons m ms) ns t u =
      ap (cons (slim_message head_share cfg m t).0)
        (append-rendered ms ns (slim_message head_share cfg m t).1 u)

  -- A request whose messages are a history followed by later ones is rendered as the rendering of
  -- the history alone followed by the rendering of the later messages alone.
  pub slim_tool_messages-append :
      (body : Value) (ms ns : Items)
      → get (codes "messages") body ≡ some (arr (append ms ns))
      → get (codes "messages") (slim_tool_messages head_share cfg body).body
        ≡ some (arr (append (rendered ms none_yet) (rendered ns none_yet)))
  unfolding slim_tool_messages bind as_array
  slim_tool_messages-append body ms ns h =
      rw (slim_tool_messages, h)
        (get-set_self (codes "messages") (arr (rendered (append ms ns) none_yet)) body
            (arr (append ms ns)) h
          ∙ ap (λ xs. some (arr xs)) (append-rendered ms ns none_yet none_yet))
