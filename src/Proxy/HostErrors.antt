-- ===== src/Proxy/HostErrors.antt =====
-- src/api/proxy.rs: an error of the data plane as an answer. `HostError` is the data plane's, with
-- what each of its values prints.
use smart_gate.Auth.Identity.{without_prefix}
use smart_gate.Base.Map.{or_else}
use smart_gate.Base.{
  Option, Text, [], codes, if◌then◌else◌, leb, length, none, some, ℕ, ◌&&◌, ◌++◌, ◌-◌, ◌^◌, ◌∷◌,
  ◌||◌,
}
use smart_gate.Base.Digits.{in_range, read_digits, unsigned}
use smart_gate.Difficulty.Words.{contains, starts_with, to_ascii_lowercase}
use smart_gate.Warm.Errors.{
  WarmError, assembled_too_large, epoch_mismatch, message, prefix_hash_mismatch, session_expired,
  session_not_found, tail_start_mismatch, tail_too_large,
}
use smart_gate.Proxy.Response.{Response, answer, warm_error, warm_status}

pub data HostError : Type 0 where
  core_invalid_request : (message : Text) → HostError
  core_pool_not_found core_endpoint_not_found : (printed : Text) → HostError
  other_error : (printed : Text) → HostError

-- What follows the first occurrence of a word.
unfoldable pub after_word : Text → Text → Option Text
unfolding starts_with without_prefix
after_word w [] = if starts_with w [] then some [] else none
after_word w (c ∷ t) =
    let rest = after_word w t in
    if starts_with w (c ∷ t) then some (without_prefix (length w) (c ∷ t)) else rest

-- `take_while(char::is_ascii_digit)`
unfoldable pub leading_digits : Text → Text
leading_digits [] = []
leading_digits (c ∷ t) =
    let rest = leading_digits t in if leb 48 c && leb c 57 then c ∷ rest else []

-- `digits.parse::<usize>().ok()`
abbrev pub parse_usize : Text → Option ℕ
parse_usize t = in_range (2 ^ 64 - 1) (unsigned t)

unfoldable pub parse_error_number : (message marker : Text) → Option ℕ
unfolding after_word leading_digits read_digits
parse_error_number message marker = elim (after_word marker message) [
  | none ↦ none
  | some rest ↦ parse_usize (leading_digits rest)
]

unfoldable pub warm_error_from_message : Text → Option WarmError
unfolding to_ascii_lowercase contains parse_error_number
warm_error_from_message message =
    let lower = to_ascii_lowercase message in
    if contains lower (codes "session not found")
    then some session_not_found
    else if contains lower (codes "session expired")
    then some session_expired
    else if contains lower (codes "epoch mismatch")
    then some epoch_mismatch
    else if contains lower (codes "fingerprint mismatch")
    then some prefix_hash_mismatch
    else if contains lower (codes "tail_start mismatch")
    then some (
        tail_start_mismatch (or_else (parse_error_number lower (codes "expected ")) 0)
          (or_else (parse_error_number lower (codes "got ")) 0))
    else if contains lower (codes "tail too large")
    then some tail_too_large
    else if contains lower (codes "assembled request too large")
        || contains lower (codes "assembled too large")
    then some assembled_too_large
    else none

module _ {Stream : Type 0} where
  abbrev invalid_request : Text → Option WarmError → Response Stream
  invalid_request message (some warm) = warm_error (warm_status warm) warm
  invalid_request message none = answer 400 (codes "Invalid request: " ++ message)

  unfoldable pub host_error_response : HostError → Response Stream
  unfolding warm_error_from_message warm_error warm_status
  host_error_response (core_invalid_request message) =
      invalid_request message (warm_error_from_message message)
  host_error_response (core_pool_not_found printed) = answer 404 printed
  host_error_response (core_endpoint_not_found printed) = answer 404 printed
  host_error_response (other_error printed) = answer 502 (codes "Upstream error: " ++ printed)
