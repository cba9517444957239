-- ===== src/Warm/Request/Samples.antt =====
-- A delta request, with its session id in the body and in a header.
use smart_gate.Base.{Text-discrete, codes, ite, none, refl, some, ◌≡◌, ◌≢◌, ◌⊎◌}
use smart_gate.Base.Headers.{Headers}
use smart_gate.Context.Json.{Value, as_str, end, field, get, get_field, obj, str}
use smart_gate.Warm.Sessions.{ok}
use smart_gate.Warm.Store.{WarmContext, delta, full}
use smart_gate.Warm.Request.{
  any_header, context_of, context_with, delivery_of, header_value, integer_field,
  parse_context_with_headers, resolve_integer, resolve_string, string_field,
}
use smart_gate.Warm.Request.Laws.{parse_context_with_headers-session}

abbrev payload : Value
payload = obj (
    field (codes "_zene_context")
      (obj (
        field (codes "session_id") (str (codes "s"))
          (field (codes "delivery") (str (codes "delta")) end)))
      end)

abbrev headers : Headers
headers name = ite (Text-discrete name (codes "x-zene-session-id")) (some (some (codes "s"))) none

abbrev context : WarmContext
context = record {
  session_id = some (codes "s");
  epoch = none;
  delivery = delta;
  prefix_hash = none;
  tail_start = none;
  request_id = none;
}

parsed : parse_context_with_headers payload (some headers) ≡ ok (some context)
unfolding parse_context_with_headers get get_field context_of resolve_string string_field
    header_value Text-discrete any_header delivery_of context_with resolve_integer integer_field
    as_str
parsed = refl

parse_context_with_headers-session_example :
    ((header_value (some headers) (codes "x-zene-session-id") ≡ none)
      ⊎ (some (codes "s") ≡ header_value (some headers) (codes "x-zene-session-id")))
    × ((delta ≡ full) ⊎ (some (codes "s") ≢ none))
parse_context_with_headers-session_example =
    parse_context_with_headers-session payload (some headers) context parsed
