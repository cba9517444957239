-- ===== src/Accounts/Checks.antt =====
-- src/saas/auth.rs: what is checked of an address, a password and a code, and the limit on attempts.
use smart_gate.Base.{
  Bool, List, Option, Text, Text-discrete, [], codes, false, if◌then◌else◌, ite, leb, length, ltb,
  map_option, none, not, reverse, some, true, ℕ, ◌&&◌, ◌++◌, ◌-◌, ◌==◌, ◌∷◌, ◌||◌,
}
use smart_gate.Base.Map.{Map, or_else, put}
use smart_gate.Auth.Identity.{without_prefix}
use smart_gate.Context.Text.{is_empty, len, trim}
use smart_gate.Difficulty.Words.{starts_with, to_ascii_lowercase}
use smart_gate.Warm.Sessions.{Result, err, ok}

abbrev pub is_same : Text → Text → Bool
is_same s t = ite (Text-discrete s t) true false

-- An answer that is an error: its status and its message.
pub record Failure : Type 0 where
  pub status : ℕ
  pub message : Text

abbrev pub failure : {A : Type 0} → ℕ → Text → Result Failure A
failure status message = err (record { status = status; message = message })

abbrev pub verification_error : {A : Type 0} → Text → Result Failure A
verification_error message = failure 400 message

-- `split_once`
unfoldable pub split_once : ℕ → Text → Option (Text × Text)
split_once d [] = none
split_once d (c ∷ t) =
    let rest = split_once d t in
    if c == d then some ([], t) else map_option (λ p. (c ∷ p.0, p.1)) rest

abbrev starts_at : ℕ → Text → Bool
starts_at d [] = false
starts_at d (c ∷ t) = c == d

abbrev is_address : Option (Text × Text) → Bool
is_address none = false
is_address (some (local, domain)) =
    not (is_empty local)
    && not (is_empty domain)
    && not (starts_at 46 domain)
    && not (starts_at 46 (reverse domain))

unfoldable pub normalize_email : Text → Text
unfolding trim to_ascii_lowercase
normalize_email email = to_ascii_lowercase (trim email)

unfoldable pub validate_email : Text → Result Failure Unit
unfolding split_once len
validate_email email =
    if leb (len email) 254 && is_address (split_once 64 email)
    then ok tt
    else failure 400 (codes "Use a valid email address")

abbrev with_password : Result Failure Unit → Text → Result Failure Unit
with_password (err e) password = err e
with_password (ok u) password =
    if ltb (len password) 10 || ltb 256 (len password)
    then failure 400 (codes "Use a valid email and a password of 10-256 characters")
    else ok tt

unfoldable pub validate_credentials : (email password : Text) → Result Failure Unit
unfolding validate_email
validate_credentials email password = with_password (validate_email email) password

unfoldable pub all_digits : Text → Bool
all_digits [] = true
all_digits (c ∷ t) = leb 48 c && leb c 57 && all_digits t

unfoldable pub validate_verification_code : Text → Result Failure Unit
unfolding all_digits len
validate_verification_code code =
    if not (len code == 6) || not (all_digits code)
    then verification_error (codes "Enter the 6-digit verification code")
    else ok tt

-- `while attempts.front().is_some_and(…) { attempts.pop_front(); }`
unfoldable pub drop_before : ℕ → List ℕ → List ℕ
drop_before cutoff [] = []
drop_before cutoff (t ∷ ts) =
    let rest = drop_before cutoff ts in if ltb t cutoff then rest else t ∷ ts

-- Times are counted from a point that is further back than a window; `later` is the second read.
unfoldable pub rate_limit_exceeded :
    Map Text (List ℕ) → (key : Text) (max_attempts window now later : ℕ) → Map Text (List ℕ) × Bool
unfolding drop_before
rate_limit_exceeded m key max_attempts window now later =
    let attempts = drop_before (now - window) (or_else (m key) []) in
    if leb max_attempts (length attempts)
    then (put Text-discrete m key (some attempts), true)
    else (put Text-discrete m key (some (attempts ++ later ∷ [])), false)

module _ (hash_token : Text → Text) where
  unfoldable pub verification_code_hash : (email code : Text) → Text
  verification_code_hash email code =
      hash_token (codes "smartgate-email-verification-v1:" ++ email ++ codes ":" ++ code)

  unfoldable pub password_digest : (password salt : Text) → Text
  password_digest password salt =
      hash_token (codes "smartgate-password-v1:" ++ salt ++ codes ":" ++ password)

  abbrev up_to_dollar : Text → Text
  up_to_dollar rest = elim (split_once 36 rest) [ none ↦ rest | some p ↦ p.0 ]

  abbrev legacy_matches : Text → Option (Text × Text) → Bool
  legacy_matches password none = false
  legacy_matches password (some (salt, rest)) =
      is_same (password_digest password salt) (up_to_dollar rest)

  abbrev pub is_legacy : Text → Bool
  is_legacy stored = starts_with (codes "sha256$") stored

  -- `verify_argon2` is the argon2 library's.
  unfoldable pub verify_password :
      (verify_argon2 : Text → Text → Bool) (password stored : Text) → Bool
  unfolding split_once password_digest starts_with without_prefix
  verify_password verify_argon2 password stored =
      if is_legacy stored
      then legacy_matches password (split_once 36 (without_prefix 7 stored))
      else verify_argon2 password stored
