-- ===== src/Warm/Samples.antt =====
-- A store in memory without lifetimes, and one session.
use smart_gate.Warm.Delta.{Names, assemble_delta-Names}
use smart_gate.Base.{
  List, Text, Text-discrete, [], ap, arith, codes, false, none, refl, some, ◌++◌, ◌∷◌, ◌≡◌,
}
use smart_gate.Base.Map.{Map, empty, put, put_self}
use smart_gate.Base.Int.{pos}
use smart_gate.Context.Json.{Value, str}
use smart_gate.Context.Text.{is_whitespace, len, to_decimal, trim, trim_start, utf8_width}
use smart_gate.Warm.Keys.{
  SessionKey, encode_namespace_component, gateway_key, gateway_key-injective, namespace_of,
}
use smart_gate.Warm.Sessions.{IsLawful, SessionPrefix, SessionStore, ok}
use smart_gate.Warm.Store.{
  PrefixSnapshot, PublishInput, WarmContext, WarmMetrics, World, any_control, delta, same_text,
  validate_publish, validate_virtual_model_id,
}
use smart_gate.Warm.Operations.{
  bind_model, binding_for, clashes, commit, get_key, publish, to_snapshot,
}
use smart_gate.Warm.Reads.{assemble_delta}
use smart_gate.Warm.RoundTrip.{assemble_delta-publish}

abbrev pair_key : Text → Text → Text × Text
pair_key a b = (a, b)

Pair-discrete : Discrete (Text × Text)
unfolding Text-discrete
Pair-discrete = hlevel Text-discrete

abbrev memory : SessionStore
memory = record {
  State = Map (Text × Text) SessionPrefix;
  Key = Text × Text;
  new_key = pair_key;
  get_key = λ s k. (ok (s k), s);
  publish_key = λ s k p. (ok tt, put Pair-discrete s k (some p));
  delete_key = λ s k. put Pair-discrete s k none;
  purge_expired = λ s. (ok 0, s);
  validate_prefix = λ ms. none;
  validate_tail = λ ms. none;
  validate_assembled = λ ms. none;
  fingerprints_match = λ f g. same_text f.value g.value;
}

memory-IsLawful : IsLawful memory
memory-IsLawful = record {
  get-publish = λ s k p h. ap ok (put_self Pair-discrete s k (some p));
  get-get = λ s k. refl;
}

abbrev one_hash : List Value → Text
one_hash ms = codes "h"

abbrev session : SessionKey
session = record { project_id = codes "p"; api_key_id = codes "k"; session_id = codes "s" }

abbrev no_metrics : WarmMetrics
no_metrics = record {
  publish_attempts = 0;
  publish_successes = 0;
  publish_failures = 0;
  delta_attempts = 0;
  delta_successes = 0;
  delta_failures = 0;
  full_deliveries = 0;
  virtual_model_mismatches = 0;
  cleanup_runs = 0;
  cleanup_failures = 0;
}

abbrev fresh : World memory
fresh = record { sessions = empty; virtual_models = empty; metrics = no_metrics }

abbrev first_prefix : PublishInput
first_prefix = record {
  epoch = pos 3;
  message_count = 1;
  messages = str (codes "hello") ∷ [];
  pinned_boundary = 0;
  prefix_hash = none;
  virtual_model_id = some (codes "vm");
}

abbrev next_delta : WarmContext
next_delta = record {
  session_id = some (codes "s");
  epoch = some (pos 3);
  delivery = delta;
  prefix_hash = none;
  tail_start = some 1;
  request_id = none;
}

abbrev tail : List Value
tail = str (codes "more") ∷ []

abbrev published_world : World memory
published_world = (publish memory one_hash session first_prefix fresh).1

abbrev same_session : SessionKey
same_session = record { project_id = 112 ∷ []; api_key_id = 107 ∷ []; session_id = 115 ∷ [] }

gateway_key-injective_example : session ≡ same_session
gateway_key-injective_example =
    gateway_key-injective pair_key (λ n s m t e. (ap (λ x. x.0) e, ap (λ x. x.1) e)) session
      same_session (unfold len in unfold utf8_width in omega arith)
      (unfold len in unfold utf8_width in omega arith) refl

abbrev first_snapshot : PrefixSnapshot
first_snapshot = record {
  epoch = 3;
  prefix_hash = codes "h";
  message_count = 1;
  messages = str (codes "hello") ∷ [];
  pinned_boundary = 0;
  virtual_model_id = some (codes "vm");
}

first_published : (publish memory one_hash session first_prefix fresh).0 ≡ ok first_snapshot
unfolding publish commit to_snapshot validate_publish validate_virtual_model_id trim any_control len
    utf8_width trim_start is_whitespace binding_for put Pair-discrete Text-discrete bind_model
    gateway_key namespace_of encode_namespace_component to_decimal
first_published = refl

assemble_delta-publish_example :
    (assemble_delta memory one_hash session next_delta tail (some (codes "vm")) published_world).0
    ≡ ok (str (codes "hello") ∷ str (codes "more") ∷ [])
assemble_delta-publish_example =
    assemble_delta-publish memory one_hash memory-IsLawful session first_prefix next_delta tail
      fresh first_snapshot 3 first_published refl (omega arith) refl refl refl refl refl

assemble_delta-Names_example :
    (p : SessionPrefix) × ((get_key memory one_hash session published_world).0 ≡ ok (some p))
    × Names memory one_hash p next_delta
    × (clashes (binding_for session published_world) (some (codes "vm")) ≡ false)
    × ((str (codes "hello") ∷ str (codes "more") ∷ []) ≡ p.messages ++ tail)
assemble_delta-Names_example =
    assemble_delta-Names memory one_hash session next_delta tail
      (str (codes "hello") ∷ str (codes "more") ∷ []) (some (codes "vm")) published_world
      assemble_delta-publish_example
