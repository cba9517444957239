-- ===== src/Proxy/Samples.antt =====
-- Runs of the handlers over a data plane that answers, or does not, and each theorem at one of them.
use smart_gate.Proxy.Restores.{Lowered}
use smart_gate.Proxy.Responses.{responses}
use smart_gate.Proxy.ResponsesRelease.{responses-restores}
use smart_gate.Proxy.Mirror.{run_shadow-lowers}
use smart_gate.Proxy.Release.{chat_proxy-restores}
use smart_gate.Proxy.Shadow.{run_shadow}
use smart_gate.Quota.Counters.{try_inc_concurrency}
use smart_gate.Proxy.Carried.{record_session-stamp, stamped_metadata}
use smart_gate.Session.Store.{record_success, session_key}
use smart_gate.Proxy.PublishCounts.{IsBalanced, publish_session-IsBalanced}
use smart_gate.Proxy.Affinity.{WarmAffinity}
use smart_gate.Proxy.QuotaStage.{key_limits, project_limits}
use smart_gate.Proxy.Gates.{Passed, chat_proxy-Passed}
use smart_gate.Proxy.Stages.{SlimStats}
use smart_gate.Proxy.WarmApi.{PublishRequest, publish_session}
use smart_gate.Proxy.Response.{json}
use smart_gate.Usage.Finish.{is_key, record_session}
use smart_gate.Usage.Report.{Report}
use smart_gate.Quota.Window.{prune_window, would_exceed_rpm}
use smart_gate.Quota.Limiter.{
  check_key_rpm, check_project_rpm, commit_key, commit_project, new, reserve_key, reserve_project,
}
use smart_gate.Budget.{effective_daily_limit, evaluate, is_blocked, should_downshift}
use smart_gate.Proxy.Stage.{Served}
use smart_gate.Base.{
  Text, Text-discrete, [], arith, codes, false, none, refl, some, true, ℕ, ◌*◌, ◌/◌, ◌∷◌, ◌≡◌, ◌≤◌,
}
use smart_gate.Base.Headers.{Headers}
use smart_gate.Base.Int.{pos}
use smart_gate.Base.Map.{empty}
use smart_gate.Float.Fixed.{fixed}
use smart_gate.Auth.Models.{Database, VirtualModel, resolve_authorized_virtual_model}
use smart_gate.Context.Json.{Value, end, field, null, obj, str}
use smart_gate.Warm.Sessions.{SessionStore, err, ok}
use smart_gate.Warm.Store.{WarmMetrics, World}
use smart_gate.Proxy.State.{
  AppState, Caller, Clock, DataPlane, Dispatched, HostOutcome, Printing, ProxyRequest, ShadowJob,
  Tables, open_ai, pool_not_found, response,
}
use smart_gate.Proxy.Serve.{chat_proxy}
use smart_gate.Proxy.Slots.{Declines, DeclinesResponses}

-- A store of sessions that keeps nothing.
abbrev forgetful : SessionStore
forgetful = record {
  State = Unit {0};
  Key = Text × Text;
  new_key = λ a b. (a, b);
  get_key = λ s k. (ok none, s);
  publish_key = λ s k p. (ok tt, s);
  delete_key = λ s k. s;
  purge_expired = λ s. (ok 0, s);
  validate_prefix = λ ms. none;
  validate_tail = λ ms. none;
  validate_assembled = λ ms. none;
  fingerprints_match = λ f g. true;
}

abbrev no_counts : WarmMetrics
no_counts = record {
  publish_attempts = 0;
  publish_successes = 0;
  publish_failures = 0;
  delta_attempts = 0;
  delta_successes = 0;
  delta_failures = 0;
  full_deliveries = 0;
  virtual_model_mismatches = 0;
  cleanup_runs = 0;
  cleanup_failures = 0;
}

abbrev idle_world : World forgetful
idle_world = record { sessions = tt; virtual_models = empty; metrics = no_counts }

abbrev start : AppState ℕ forgetful
start = record {
  quotas = new;
  sessions = empty;
  warm = idle_world;
  routing = record {
    metrics = empty;
    pools = empty;
    pool_members = empty;
    profiles = empty;
    hints = empty;
  };
  usage_logs = [];
  shadow_permits = 3;
  shadow_jobs = [];
  shadow_dropped = 0;
}

abbrev plain_request : ProxyRequest (Unit {0})
plain_request = record { gateway_fields = end; metadata = empty; rest = tt }

abbrev ends_with :
    HostOutcome (Unit {0}) → AppState ℕ forgetful → Dispatched ℕ forgetful (HostOutcome (Unit {0}))
ends_with o s = record { outcome = o; finished = []; warm = s.warm; metrics = s.routing.metrics }

-- A data plane that gives one outcome to all.
abbrev always : HostOutcome (Unit {0}) → DataPlane ℕ forgetful
always o = record {
  Stream = Unit {0};
  Rest = Unit {0};
  gateway_field = codes "gateway";
  chat_request = λ p v model. ok plain_request;
  responses_request = λ v model. ok plain_request;
  dispatch = λ k h pool p r s. ends_with o s;
  responses = λ pool r s. record {
    outcome = err (codes "none");
    finished = [];
    warm = s.warm;
    metrics = s.routing.metrics;
  };
  judge = λ pool p r s. (true, ends_with o s);
  load_endpoint = λ id. none;
}

abbrev printing : Printing ℕ
printing = record {
  to_string = λ v. none;
  to_bytes = λ v. none;
  display = λ v. [];
  float_value = λ x. null;
  four_decimals = λ x. [];
  debug_limit = λ x. [];
  head_share = λ n. n * 7 / 10;
  sort_trace = λ xs. xs;
  registry_version = [];
}

abbrev auto_model : VirtualModel
auto_model = record { id = codes "vm"; pool_id = codes "p"; name = codes "auto"; enabled = true }

abbrev database : Database
database = record {
  virtual_models = auto_model ∷ [];
  model_pools = (codes "p", codes "pool") ∷ [];
  project_model_grants = (codes "project", codes "vm") ∷ [];
  api_key_model_grants = [];
}

abbrev tables : Tables ℕ
tables = record {
  database = database;
  id_before = λ v w. false;
  taken_before = λ v w. false;
  exact_fails = false;
  default_fails = false;
  pools = some empty;
  spent_today = some (λ k. 0);
}

abbrev caller : Caller ℕ
caller = record {
  org_id = codes "org";
  project_id = codes "project";
  project_rpm_limit = some (pos 10);
  project_concurrency_limit = some (pos 5);
  project_daily_spend_limit = none;
  key_id = codes "key";
  key_rpm_limit = none;
  key_concurrency_limit = some (pos 2);
  key_daily_spend_limit = none;
}

unanswered-Declines : Declines (always pool_not_found) caller 0
unanswered-Declines = record {
  judge_metadata = λ pool p r s. tt;
  unanswered = λ k h pool p r s. refl;
  reports = λ k h pool p r s. (tt, omega arith);
}

unanswered-DeclinesResponses : DeclinesResponses (always pool_not_found) caller 0
unanswered-DeclinesResponses = record {
  unanswered = λ pool r s. refl;
  reports = λ pool r s. (tt, omega arith);
}

abbrev clock : Clock
clock = record {
  admitted = 1;
  sticky = 2;
  sticky_later = 3;
  turn = 4;
  turn_later = 5;
  explained = 6;
  shadow_draw = 7;
}

abbrev no_headers : Headers
no_headers = empty

abbrev payload : Value
payload = obj (field (codes "model") (str (codes "auto")) end)

abbrev run : HostOutcome (Unit {0}) → (Served (Unit {0})) × AppState ℕ forgetful
run o = chat_proxy (always o) printing tables caller clock no_headers open_ai payload start

abbrev answered : HostOutcome (Unit {0})
answered = response 200 (json null)

disarmed : (run answered).0.1 ≡ true
unfolding chat_proxy Text-discrete is_blocked effective_daily_limit evaluate should_downshift
    check_project_rpm would_exceed_rpm prune_window new check_key_rpm reserve_project
    try_inc_concurrency reserve_key commit_project commit_key
disarmed = refl

chat_proxy-restores_example :
    (n : ℕ) × (n ≤ 0) × Lowered caller (codes "key") n new (run pool_not_found).1.quotas
unfolding key_limits project_limits
chat_proxy-restores_example =
    chat_proxy-restores (always pool_not_found) printing tables caller 0 unanswered-Declines clock
      no_headers open_ai 2 5 refl refl (codes "key") payload start

abbrev run_responses : (Served (Unit {0})) × AppState ℕ forgetful
run_responses = responses (always pool_not_found) printing tables caller 1 payload start

responses-restores_example :
    (n : ℕ) × (n ≤ 0) × Lowered caller (codes "key") n new run_responses.1.quotas
unfolding key_limits project_limits
responses-restores_example =
    responses-restores (always pool_not_found) printing tables caller 0 unanswered-DeclinesResponses
      1 2 5 refl refl (codes "key") payload start

chat_proxy-Passed_example :
    Passed (always answered) printing tables caller clock no_headers open_ai payload start
chat_proxy-Passed_example =
    chat_proxy-Passed (always answered) printing tables caller clock no_headers open_ai payload
      start disarmed

abbrev in_session : WarmAffinity
in_session = record {
  session_id = some (codes "s");
  context_epoch = 3;
  prefix_hash = some 255;
  affinity_ttl_secs = pos 60;
  member_count = 2;
  affinity_enabled = true;
  sticky_endpoint_id = some (codes "e");
  affinity_applied = true;
  turn_index = some 1;
  is_prefix_stable = some true;
}

abbrev untrimmed : SlimStats
untrimmed = record { tool_chars_before = 0; slimmed_chars = 0; tools_touched = 0; dry_run = true }

abbrev succeeded : Report
succeeded = record {
  metadata = stamped_metadata caller auto_model [] 1 1 none in_session untrimmed [] false empty;
  selected_endpoint_id = codes "e";
  pool_id = none;
  usage = none;
  error_kind = none;
  attempts = [];
  latency_ms = 10;
  ttft_ms = none;
}

-- A data plane that reports each chat with the metadata that it was sent with.
abbrev reporting : DataPlane ℕ forgetful
reporting = record (always answered) {
  dispatch = λ k h pool p r s. record {
    outcome = answered;
    finished = (record succeeded { metadata = r.metadata }, 1, 2) ∷ [];
    warm = s.warm;
    metrics = s.routing.metrics;
  };
}

abbrev mirrored : ShadowJob ℕ
mirrored = record {
  auth = caller;
  headers = no_headers;
  payload = payload;
  shadow_model_name = codes "auto";
  request_preview = [];
  main_preview = [];
  is_openai = true;
}

run_shadow-lowers_example :
    Lowered caller
      (codes "key")
      1
      new
      (run_shadow reporting (codes "1") (λ t. t) tables mirrored start).1.quotas
unfolding resolve_authorized_virtual_model Text-discrete
run_shadow-lowers_example =
    run_shadow-lowers reporting (codes "1") (λ t. t) tables mirrored start (codes "key") auto_model
      plain_request refl refl refl (refl, tt)

record_session-stamp_example :
    record_session succeeded 5 6 empty
    ≡ record_success empty
        (session_key (codes "p") (codes "s") 3)
        (codes "e")
        (some 255)
        (is_key (some (codes "e")) (codes "e"))
        (pos 60)
        5
        6
record_session-stamp_example =
    record_session-stamp caller auto_model [] 1 1 none in_session untrimmed [] false empty refl refl
      succeeded (codes "s") 5 6 empty refl refl refl (omega arith) (omega arith) (omega arith)

abbrev publication : PublishRequest
publication = record {
  epoch = pos 1;
  message_count = 0;
  messages = [];
  pinned_boundary = 0;
  prefix_hash = none;
  virtual_model = none;
}

publish_session-IsBalanced_example :
    IsBalanced
      (publish_session {Stream = Unit {0}}
        (λ ms. codes "h")
        tables
        caller
        false
        (codes "s")
        publication
        idle_world).1.metrics
publish_session-IsBalanced_example =
    publish_session-IsBalanced (Unit {0}) (λ ms. codes "h") tables caller false (codes "s")
      publication idle_world refl
