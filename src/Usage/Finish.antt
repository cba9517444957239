-- ===== src/Usage/Finish.antt =====
-- src/usage/mod.rs: `on_request_finished`. The slot is given back, the session learns its endpoint,
-- and a row is written; whether that write fails is only logged.
use smart_gate.Base.{
  Bool, Option, Text, Text-discrete, codes, false, if◌then◌else◌, ite, ltb, none, not, some, true,
  ℕ, ◌%◌, ◌+◌, ◌-◌, ◌^◌, ◌||◌,
}
use smart_gate.Base.Int.{pos, ℤ}
use smart_gate.Base.Map.{Map, or_else}
use smart_gate.Base.Digits.{parse_unsigned}
use smart_gate.Quota.Limiter.{QuotaLimiter, release}
use smart_gate.Session.Store.{Sessions, record_success, session_key}
use smart_gate.Session.Ids.{and_then}
use smart_gate.Session.Hash.{from_str_radix16}
use smart_gate.Usage.Numbers.{as_u32, parse_i32}
use smart_gate.Usage.Report.{Report, Usage}

abbrev pub is_key : Option Text → Text → Bool
is_key none t = false
is_key (some s) t = ite (Text-discrete s t) true false

unfoldable pub release_of : Map Text Text → QuotaLimiter → QuotaLimiter
release_of metadata quotas =
    if is_key (metadata (codes "quota_release")) (codes "0")
    then quotas
    else elim (metadata (codes "key_id")) [
      | none ↦ quotas
      | some key_id ↦ release key_id (metadata (codes "project_id")) quotas
    ]

abbrev u64_of : Option Text → ℕ
u64_of t = or_else (and_then t (parse_unsigned (2 ^ 64 - 1))) 0

abbrev pub i32_or : ℤ → Option Text → ℤ
i32_or d t = or_else (and_then t parse_i32) d

-- The tokens of a request: the provider's numbers, or else the local estimate.
pub record Tokens : Type 0 where
  pub prompt : ℕ
  pub completion : ℕ
  pub total : ℕ
  pub cache_hit : Option ℕ
  pub cache_write : Option ℕ
  pub source : Text
  pub confidence : Text

abbrev source_of : Option Usage → ℕ → ℕ → Text
source_of (some usage) input output = codes "provider_reported"
source_of none input output =
    if ltb 0 input || ltb 0 output then codes "local_estimate" else codes "unavailable"

abbrev is_both : Option ℕ → Option ℕ → Bool
is_both (some a) (some b) = true
is_both none b = false
is_both (some a) none = false

abbrev confidence_of : Option Usage → ℕ → ℕ → Text
confidence_of (some usage) input output =
    if is_both usage.input_tokens usage.output_tokens then codes "high" else codes "partial"
confidence_of none input output =
    if ltb 0 input || ltb 0 output then codes "low" else codes "unknown"

-- The sum wraps at 64 bits.
unfoldable pub tokens_of : Map Text Text → Option Usage → Tokens
tokens_of metadata usage =
    let input = u64_of (metadata (codes "input_tokens_est")) in
    let output = u64_of (metadata (codes "output_tokens_est")) in
    let prompt = or_else (and_then usage (λ u. u.input_tokens)) input in
    let completion = or_else (and_then usage (λ u. u.output_tokens)) output in
    record {
      prompt = prompt;
      completion = completion;
      total = or_else (and_then usage (λ u. u.total_tokens)) ((prompt + completion) % 2 ^ 64);
      cache_hit = and_then usage (λ u. u.cache_hit_tokens);
      cache_write = and_then usage (λ u. u.cache_write_tokens);
      source = source_of usage input output;
      confidence = confidence_of usage input output;
    }

-- The session that a request belonged to.
pub record Affinity : Type 0 where
  pub session_id : Option Text
  pub turn_index : Option ℤ
  pub prefix_hash : Option Text
  pub context_epoch : ℤ
  pub enabled : Bool
  pub applied : Bool
  pub hit : Bool
  pub ttl_secs : ℤ

unfoldable pub affinity_of : Report → Affinity
affinity_of report =
    let m = report.metadata in
    record {
      session_id = m (codes "session_id");
      turn_index = and_then (m (codes "turn_index")) parse_i32;
      prefix_hash = m (codes "prefix_hash");
      context_epoch = i32_or (pos 0) (m (codes "context_epoch"));
      enabled = is_key (m (codes "affinity_enabled")) (codes "1");
      applied = is_key (m (codes "affinity_applied")) (codes "1");
      hit = is_key (m (codes "sticky_endpoint_id")) report.selected_endpoint_id;
      ttl_secs = i32_or (pos 3600) (m (codes "affinity_ttl_secs"));
    }

abbrev is_some : {A : Type 0} → Option A → Bool
is_some none = false
is_some (some a) = true

-- What is written into the table of sessions; `now` and `later` are reads of the clock.
unfoldable pub record_session : Report → (now later : ℕ) → Sessions → Sessions
unfolding affinity_of
record_session report now later sessions =
    let a = affinity_of report in
    elim (a.session_id) as (λ _. Sessions) [
      | none ↦ sessions
      | some sid ↦ elim (report.metadata (codes "pool_id")) as (λ _. Sessions) [
        | none ↦ sessions
        | some pool_id ↦
            if is_some report.error_kind || not a.enabled
            then sessions
            else record_success sessions (session_key pool_id sid (as_u32 a.context_epoch))
                report.selected_endpoint_id (and_then a.prefix_hash from_str_radix16) a.hit
                a.ttl_secs now later
      ]
    ]
