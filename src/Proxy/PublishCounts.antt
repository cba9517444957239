-- ===== src/Proxy/PublishCounts.antt =====
-- The warm handlers count every publication that is attempted.
use smart_gate.Base.{Bool, List, Option, Text, arith, ◌+◌, ◌≡◌}
use smart_gate.Context.Json.{Value}
use smart_gate.Warm.Counts.{Ends, publish-Ends}
use smart_gate.Warm.Errors.{WarmError}
use smart_gate.Warm.Operations.{count, record_publish_failure}
use smart_gate.Warm.Sessions.{Result, SessionStore, err, ok}
use smart_gate.Warm.Store.{PrefixSnapshot, WarmMetrics, World}
use smart_gate.Proxy.Dispatch.{key_with}
use smart_gate.Proxy.State.{Caller, Tables}
use smart_gate.Proxy.WarmApi.{
  Checked, PublishRequest, answered, both, check_session_id, input_of, publish_checked,
  publish_session, requested_virtual_model,
}

abbrev pub IsBalanced : WarmMetrics → Type 0
IsBalanced m = m.publish_attempts ≡ m.publish_successes + m.publish_failures

module _ (Stream : Type 0) {S : SessionStore} where
  attempted-Ends :
      (w : World S) (r : Result WarmError PrefixSnapshot × World S)
      → IsBalanced w.metrics
      → Ends (count (λ m. record m { publish_attempts = m.publish_attempts + 1 }) w) r
      → IsBalanced (answered {Stream = Stream} r).1.metrics
  unfolding answered record_publish_failure
  attempted-Ends w (ok a, w') b e = rw e (omega arith)
  attempted-Ends w (err x, w') b e = rw e (omega arith)

module _ (Stream : Type 0) {F : Type 0} {S : SessionStore} (hash : List Value → Text) (t : Tables F)
    (c : Caller F) where
  publish_checked-IsBalanced :
      (session_id : Text) (r : PublishRequest) (checked : Checked Stream (Option Text))
      (w : World S)
      → IsBalanced w.metrics
      → IsBalanced (publish_checked {Stream = Stream} hash t c session_id r checked w).1.metrics
  publish_checked-IsBalanced session_id r (err x) w b = b
  publish_checked-IsBalanced session_id r (ok vm) w b =
      attempted-Ends Stream w _ b (publish-Ends S hash (key_with c session_id) (input_of r vm) w)

  -- Whatever is sent to the publish handler, and however it is answered: if the attempts counted so
  -- far are the successes and the failures together, they are so afterwards.
  pub publish_session-IsBalanced :
      (require : Bool) (session_id : Text) (r : PublishRequest) (w : World S)
      → IsBalanced w.metrics
      → IsBalanced (publish_session {Stream = Stream} hash t c require session_id r w).1.metrics
  unfolding publish_session
  publish_session-IsBalanced require session_id r w b =
      publish_checked-IsBalanced session_id r
        (both (check_session_id session_id) (requested_virtual_model t c require r.virtual_model)) w
        b
