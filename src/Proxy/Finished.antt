-- ===== src/Proxy/Finished.antt =====
-- What a call of the data plane leaves behind: src/usage/mod.rs is its hook for each request that
-- finishes during the call.
use smart_gate.Base.{List, Text, [], ◌∷◌}
use smart_gate.Float.{Float}
use smart_gate.Usage.Row.{Hooks, on_request_finished}
use smart_gate.Warm.Sessions.{SessionStore}
use smart_gate.Warm.Store.{World}
use smart_gate.Proxy.State.{AppState, Dispatched, Finished}

module _ {F : Type 0} ⦃f : Float F⦄ {S : SessionStore} (registry_version : Text) where
  -- The hooks share their state with the handlers.
  abbrev pub hooks_of : AppState F S → Hooks F
  hooks_of s = record {
    metrics = s.routing.metrics;
    quotas = s.quotas;
    profiles = s.routing.profiles;
    sessions = s.sessions;
  }

  unfoldable pub finish_one : Finished → AppState F S → AppState F S
  unfolding on_request_finished
  finish_one (report, now, later) s =
      let (h, row) = on_request_finished registry_version report now later (hooks_of s) in
      record s {
        quotas = h.quotas;
        sessions = h.sessions;
        routing = record s.routing { metrics = h.metrics };
        usage_logs = row ∷ s.usage_logs;
      }

  unfoldable pub finish_all : List Finished → AppState F S → AppState F S
  finish_all [] s = s
  finish_all (r ∷ rs) s = finish_all rs (finish_one r s)

  -- The attempts change the metrics before the requests finish.
  unfoldable pub absorb :
      {Outcome : Type 0} → Dispatched F S Outcome → World S → AppState F S → AppState F S
  unfolding finish_all
  absorb d warm s =
      finish_all d.finished
        (record s { warm = warm; routing = record s.routing { metrics = d.metrics } })
