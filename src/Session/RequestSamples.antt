-- ===== src/Session/RequestSamples.antt =====
-- A request that names a session by its field `user`, and a prefix hash by a header.
use smart_gate.Base.{Text-discrete, arith, codes, ite, none, refl, some, ◌≡◌}
use smart_gate.Base.Headers.{Headers}
use smart_gate.Context.Json.{Value, as_str, end, field, get, get_field, obj, str}
use smart_gate.Context.Text.{is_whitespace, len, trim, trim_start, utf8_width}
use smart_gate.Session.Ids.{
  all_id_chars, extract_session_id, is_id_char, validate_session_id, validate_trimmed,
}
use smart_gate.Session.IdLaws.{IsSessionId, extract_session_id-IsSessionId}
use smart_gate.Session.HexPrint.{parse_prefix_hash_hex-format}
use smart_gate.Session.Hash.{format_prefix_hash, parse_prefix_hash_hex}

abbrev payload : Value
payload = obj (field (codes "user") (str (codes " u:1 ")) end)

abbrev headers : Headers
headers name =
    ite (Text-discrete name (codes "x-smartgate-prefix-hash")) (some (some (codes "0xFf"))) none

named : extract_session_id headers payload ≡ some (codes "u:1")
unfolding extract_session_id get get_field as_str Text-discrete validate_session_id trim trim_start
    is_whitespace validate_trimmed len utf8_width all_id_chars is_id_char
named = refl

extract_session_id-IsSessionId_example :
    IsSessionId (codes "u:1") × (validate_session_id (codes "u:1") ≡ some (codes "u:1"))
extract_session_id-IsSessionId_example =
    extract_session_id-IsSessionId headers payload (codes "u:1") named

parse_prefix_hash_hex-format_example :
    parse_prefix_hash_hex (format_prefix_hash 48879) ≡ some (some 48879)
parse_prefix_hash_hex-format_example = parse_prefix_hash_hex-format 48879 (omega arith)
