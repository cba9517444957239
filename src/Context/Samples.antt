-- ===== src/Context/Samples.antt =====
-- A conversation with tool results, under a small cap.
use smart_gate.Context.Text.{len, take, to_decimal, utf8_width}
use smart_gate.Context.Accounts.{history_size, messages_size, slim_tool_messages-balance}
use smart_gate.Context.Laws.{append, rendered, slim_tool_messages-append}
use smart_gate.Context.Json.{
  Items, Value, arr, as_array, as_str, bind, cons, end, field, get, get_field, get_str, nil, obj,
  set, set_field, str,
}
use smart_gate.Context.Slim.{
  SlimConfig, content_to_text, head_tail, if_shorter, in_blocks, none_yet, shorter, slim_action,
  slim_block, slim_blocks, slim_content, slim_found, slim_message, slim_messages,
  slim_tool_messages,
}
use smart_gate.Base.{Text-discrete, codes, refl, some, ℕ, ◌*◌, ◌+◌, ◌/◌, ◌≡◌}

abbrev seven_tenths : ℕ → ℕ
seven_tenths n = n * 7 / 10

abbrev small_config : SlimConfig
small_config = record { max_tool_chars = 8; placeholder_after = 0 }

abbrev tool_message : Value
tool_message = obj (
    field (codes "role") (str (codes "tool")) (
      field (codes "content")
        (str (codes "one line of a tool result that goes on and on and on for long")) end))

abbrev user_message : Value
user_message = obj (
    field (codes "role") (str (codes "user")) (
      field (codes "content")
        (arr (
          cons
            (obj (
              field (codes "type") (str (codes "tool_result"))
                (field (codes "content") (str (codes "short result")) end)))
            nil))
        end))

abbrev early : Items
early = cons tool_message nil

abbrev late : Items
late = cons user_message nil

abbrev request : Value
request = obj (field (codes "messages") (arr (cons tool_message (cons user_message nil))) end)

slimmed : (slim_tool_messages seven_tenths small_config request).tools_touched ≡ 1
unfolding slim_tool_messages slim_messages slim_message slim_content slim_found in_blocks
    slim_blocks slim_block slim_action head_tail shorter if_shorter content_to_text get get_field
    set set_field get_str bind as_str as_array len utf8_width take to_decimal Text-discrete
slimmed = refl

slim_tool_messages-append_example :
    get (codes "messages") (slim_tool_messages seven_tenths small_config request).body
    ≡ some (
        arr (
          append
            (rendered seven_tenths small_config early none_yet)
            (rendered seven_tenths small_config late none_yet)))
unfolding get get_field append Text-discrete
slim_tool_messages-append_example =
    slim_tool_messages-append seven_tenths small_config request early late refl

slim_tool_messages-balance_example :
    ((slim_tool_messages seven_tenths small_config request).original_tool_chars
      ≡ history_size (append early late))
    × (messages_size
            (get (codes "messages") (slim_tool_messages seven_tenths small_config request).body)
          + (slim_tool_messages seven_tenths small_config request).slimmed_chars
        ≡ history_size (append early late))
unfolding get get_field append Text-discrete
slim_tool_messages-balance_example =
    slim_tool_messages-balance seven_tenths small_config request (append early late) refl
