-- ===== src/Warm/Script/Samples.antt =====
-- Two publications to the server, without lifetimes.
use smart_gate.Base.{Text, Text-discrete, codes, none, refl, ℕ}
use smart_gate.Warm.Script.{
  Call, Server, conflicts, drop_lapsed, lapsed, present, publish_script, publish_seen, seen, settle,
  verdict, write, write_binding, write_prefix,
}
use smart_gate.Warm.Script.Laws.{IsLive, Keeps, Life-Keeps, published, same}

abbrev call : ℕ → Text → ℕ → Call
call epoch prefix now = record {
  epoch = epoch;
  prefix_json = prefix;
  now = now;
  idle_ttl = 0;
  max_lifetime = 0;
  virtual_model = codes "vm";
}

abbrev no_session : Server
no_session = record { prefix_key = none; binding_key = none }

abbrev after_first : Server
after_first = (publish_script (call 1 (codes "a") 5) no_session).0

stays-IsLive : (e : ℕ) (t : Text) (now : ℕ) → IsLive (call e t now) after_first
unfolding publish_script publish_seen seen drop_lapsed present lapsed conflicts verdict settle write
    write_prefix write_binding Text-discrete
stays-IsLive e t now = refl

Life-Keeps_example : Keeps after_first (publish_script (call 2 (codes "b") 9) after_first).0
Life-Keeps_example =
    Life-Keeps after_first (publish_script (call 2 (codes "b") 9) after_first).0
      (published (call 2 (codes "b") 9) same (stays-IsLive 2 (codes "b") 9))
