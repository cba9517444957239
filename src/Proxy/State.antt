-- ===== src/Proxy/State.antt =====
-- src/api/proxy.rs and src/config/mod.rs: what the handlers share, what they are called with, and what
-- the code takes from the data plane and from the libraries.
use smart_gate.Warm.Keys.{SessionKey}
use smart_gate.Base.{Bool, List, Option, Text, ℕ}
use smart_gate.Base.Headers.{Headers}
use smart_gate.Base.Int.{ℤ}
use smart_gate.Base.Map.{Map}
use smart_gate.Context.Json.{Fields, Items, Value}
use smart_gate.Auth.Models.{Database, VirtualModel}
use smart_gate.Health.{EndpointMetric}
use smart_gate.Quota.Limiter.{QuotaLimiter}
use smart_gate.Routing.Candidate.{CandidateTrace, Provider, RouteHint}
use smart_gate.Session.Store.{Sessions}
use smart_gate.Usage.Report.{Report, UsageRow}
use smart_gate.Warm.Sessions.{Result, SessionStore}
use smart_gate.Warm.Store.{World}
use smart_gate.Proxy.Response.{Body}
use smart_gate.Proxy.HostErrors.{HostError}

pub data ChatProtocol : Type 0 where
  open_ai anthropic : ChatProtocol

-- What the handlers read of `AuthContext`.
pub record Caller (F : Type 0) : Type 0 where
  pub org_id : Text
  pub project_id : Text
  pub project_rpm_limit : Option ℤ
  pub project_concurrency_limit : Option ℤ
  pub project_daily_spend_limit : Option F
  pub key_id : Text
  pub key_rpm_limit : Option ℤ
  pub key_concurrency_limit : Option ℤ
  pub key_daily_spend_limit : Option F

-- src/models/mod.rs: an `i32` that is a flag is told by whether it is zero.
pub record ModelPool (F : Type 0) : Type 0 where
  pub strategy : Text
  pub tool_trim_enabled : Bool
  pub tool_trim_dry_run : Bool
  pub max_tool_chars : ℤ
  pub session_affinity_enabled : Bool
  pub session_affinity_ttl_secs : ℤ
  pub judge_enabled : Bool
  pub judge_endpoint_id : Option Text
  pub shadow_enabled : Bool
  pub shadow_virtual_model_id : Option Text
  pub shadow_sample_rate : F

-- The tables, as one request finds them. A query that fails is `none`, or a flag.
pub record Tables (F : Type 0) : Type 0 where
  pub database : Database
  pub id_before : VirtualModel → VirtualModel → Bool
  pub taken_before : VirtualModel → VirtualModel → Bool
  pub exact_fails : Bool
  pub default_fails : Bool
  pub pools : Option (Map Text (ModelPool F))
  pub spent_today : Option (Text → F)

-- The reads of the clock of one request, in their order, and its random draw.
pub record Clock : Type 0 where
  pub admitted : ℕ
  pub sticky : ℕ
  pub sticky_later : ℕ
  pub turn : ℕ
  pub turn_later : ℕ
  pub explained : ℕ
  pub shadow_draw : ℕ

-- src/api/shadow.rs: a request to mirror in the background.
pub record ShadowJob (F : Type 0) : Type 0 where
  pub auth : Caller F
  pub headers : Headers
  pub payload : Value
  pub shadow_model_name : Text
  pub request_preview : Text
  pub main_preview : Text
  pub is_openai : Bool

-- The part of `AppState` that a request changes, the rows written so far, newest first, and the
-- background jobs that hold a permit of the semaphore.
pub record AppState (F : Type 0) (S : SessionStore) : Type 0 where
  pub quotas : QuotaLimiter
  pub sessions : Sessions
  pub warm : World S
  pub routing : Provider F
  pub usage_logs : List (UsageRow F)
  pub shadow_permits : ℕ
  pub shadow_jobs : List (ShadowJob F)
  pub shadow_dropped : ℕ

-- What a request of the data plane holds; `rest` is what the code never looks into.
pub record ProxyRequest (Rest : Type 0) : Type 0 where
  pub gateway_fields : Fields
  pub metadata : Map Text Text
  pub rest : Rest

pub data HostOutcome (Stream : Type 0) : Type 0 where
  response : ℕ → Body Stream → HostOutcome Stream
  pool_not_found unsupported : HostOutcome Stream
  failed : HostError → HostOutcome Stream

-- A report with the two reads of the clock of its hook.
abbrev pub Finished : Type 0
Finished = Report × ℕ × ℕ

-- A call of the data plane: its outcome, the requests that finished during it, and what it leaves of
-- the warm store and the endpoints' metrics.
pub record Dispatched (F : Type 0) (S : SessionStore) (Outcome : Type 0) : Type 0 where
  pub outcome : Outcome
  pub finished : List Finished
  pub warm : World S
  pub metrics : Map Text (EndpointMetric F)

-- An endpoint that judges.
pub record JudgeEndpoint : Type 0 where
  pub default_model : Option Text
  pub is_anthropic : Bool

-- The data plane. A call of `judge` may not end in its time.
pub record DataPlane (F : Type 0) (S : SessionStore) : Type 1 where
  pub Stream : Type 0
  pub Rest : Type 0
  pub gateway_field : Text
  pub chat_request : ChatProtocol → Value → Text → Result Text (ProxyRequest Rest)
  pub responses_request : Value → Text → Result Text (ProxyRequest Rest)
  pub dispatch :
      Option SessionKey
      → Option (RouteHint F)
      → (pool_id : Text) → ChatProtocol
      → ProxyRequest Rest
      → AppState F S
      → Dispatched F S (HostOutcome Stream)
  pub responses :
      (pool_id : Text)
      → ProxyRequest Rest
      → AppState F S
      → Dispatched F S (Result Text (ℕ × Body Stream))
  pub judge :
      (pool_id : Text)
      → ChatProtocol
      → ProxyRequest Rest
      → AppState F S
      → Bool × Dispatched F S (HostOutcome Stream)
  pub load_endpoint : Text → Option JudgeEndpoint

-- The operations of the libraries on text, JSON and numbers.
pub record Printing (F : Type 0) : Type 0 where
  pub to_string : Value → Option Text
  pub to_bytes : Items → Option (List ℕ)
  pub display : Value → Text
  pub float_value : F → Value
  pub four_decimals : F → Text
  pub debug_limit : Option F → Text
  pub head_share : ℕ → ℕ
  pub sort_trace : List (CandidateTrace F) → List (CandidateTrace F)
  pub registry_version : Text
