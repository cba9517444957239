-- ===== src/Warm/Store.antt =====
-- `WarmStore` over a store of the session library, without Redis: the bindings to models are a map.
-- A poisoned lock does not occur.
use smart_gate.Base.{
  Bool, List, Option, Text, Text-discrete, [], codes, false, if◌then◌else◌, ite, leb, length, ltb,
  none, not, some, true, ℕ, ◌&&◌, ◌==◌, ◌∷◌, ◌||◌,
}
use smart_gate.Base.Map.{Map}
use smart_gate.Base.Int.{negsuc, pos, ℤ}
use smart_gate.Context.Json.{Value}
use smart_gate.Context.Text.{is_empty, len, trim}
use smart_gate.Warm.Keys.{SessionKey}
use smart_gate.Warm.Sessions.{Result, SessionError, SessionStore, err, ok}
use smart_gate.Warm.Errors.{WarmError, invalid_publish, map_session_error}

unfoldable pub SessionKey-discrete : Discrete SessionKey
unfolding Text-discrete
SessionKey-discrete = hlevel Text-discrete

pub record WarmMetrics : Type 0 where
  pub publish_attempts : ℕ
  pub publish_successes : ℕ
  pub publish_failures : ℕ
  pub delta_attempts : ℕ
  pub delta_successes : ℕ
  pub delta_failures : ℕ
  pub full_deliveries : ℕ
  pub virtual_model_mismatches : ℕ
  pub cleanup_runs : ℕ
  pub cleanup_failures : ℕ

pub record PrefixSnapshot : Type 0 where
  pub epoch : ℕ
  pub prefix_hash : Text
  pub message_count : ℕ
  pub messages : List Value
  pub pinned_boundary : ℕ
  pub virtual_model_id : Option Text

pub record PublishInput : Type 0 where
  pub epoch : ℤ
  pub message_count : ℕ
  pub messages : List Value
  pub pinned_boundary : ℕ
  pub prefix_hash : Option Text
  pub virtual_model_id : Option Text

pub data Delivery : Type 0 where
  full delta : Delivery

pub record WarmContext : Type 0 where
  pub session_id : Option Text
  pub epoch : Option ℤ
  pub delivery : Delivery
  pub prefix_hash : Option Text
  pub tail_start : Option ℕ
  pub request_id : Option Text

abbrev pub same_text : Text → Text → Bool
same_text a b = ite (Text-discrete a b) true false

-- `char::is_control`
abbrev pub is_control : ℕ → Bool
is_control c = ltb c 32 || (leb 127 c && leb c 159)

unfoldable pub any_control : Text → Bool
any_control [] = false
any_control (c ∷ t) = is_control c || any_control t

unfoldable pub validate_virtual_model_id : Text → Option WarmError
unfolding trim any_control
validate_virtual_model_id value =
    if is_empty (trim value) || ltb 256 (len value) || any_control value
    then some (invalid_publish (codes "virtual_model must be 1-256 non-control characters"))
    else none

abbrev is_negative : ℤ → Bool
is_negative (pos n) = false
is_negative (negsuc n) = true

unfoldable pub validate_publish : PublishInput → Option WarmError
validate_publish input =
    if is_negative input.epoch
    then some (invalid_publish (codes "epoch must be non-negative"))
    else if not (input.message_count == length input.messages)
    then some (invalid_publish (codes "message_count must equal messages.length"))
    else if ltb input.message_count input.pinned_boundary
    then some (invalid_publish (codes "pinned_boundary must not exceed message_count"))
    else none

abbrev pub to_gateway_epoch : ℤ → Result WarmError ℕ
to_gateway_epoch (pos n) = ok n
to_gateway_epoch (negsuc n) = err (invalid_publish (codes "epoch must be non-negative"))

pub record World (S : SessionStore) : Type 0 where
  pub sessions : S.State
  pub virtual_models : Map SessionKey (Option Text)
  pub metrics : WarmMetrics

abbrev pub Act : SessionStore → Type 0 → Type 0
Act S A = World S → Result WarmError A × World S

module _ {S : SessionStore} {A B : Type 0} where
  infixl 5 ◌>>=◌ ◌>>◌
  abbrev pub ◌>>=◌ : Act S A → (A → Act S B) → Act S B
  ◌>>=◌ m f w = let (r, w') = m w in elim r [ ok a ↦ f a w' | err e ↦ (err e, w') ]

  abbrev pub ◌>>◌ : Act S A → Act S B → Act S B
  m >> k = m >>= λ _. k

abbrev pub pure : {S : SessionStore} {A : Type 0} → A → Act S A
pure a w = (ok a, w)

abbrev pub fail : {S : SessionStore} {A : Type 0} → WarmError → Act S A
fail e w = (err e, w)

abbrev pub reject : {S : SessionStore} → Option WarmError → Act S Unit
reject none w = (ok tt, w)
reject (some e) w = (err e, w)

-- The first check that fails.
abbrev pub first_error : List (Option WarmError) → Option WarmError
first_error [] = none
first_error (none ∷ es) = first_error es
first_error (some e ∷ es) = some e

abbrev pub lift : {S : SessionStore} {A : Type 0} → Result WarmError A → Act S A
lift r w = (r, w)

abbrev pub on_error : {A : Type 0} → Result SessionError A → Result WarmError A
on_error (ok a) = ok a
on_error (err e) = err (map_session_error e)
