-- ===== src/Proxy/Entry.antt =====
-- The stages before the quota do not touch the limiter.
use smart_gate.Base.{Option, Text, [], codes, none, refl, some, true, ◌≡◌}
use smart_gate.Base.Headers.{Headers}
use smart_gate.Base.Map.{or_else}
use smart_gate.Float.{Float}
use smart_gate.Context.Json.{Value, get_str}
use smart_gate.Warm.Sessions.{SessionStore, ok}
use smart_gate.Warm.Store.{WarmContext}
use smart_gate.Proxy.State.{AppState, Caller, ChatProtocol, Clock, DataPlane, Printing, Tables}
use smart_gate.Proxy.Stage.{Stage, lift, modify, ◌>>=◌, ◌>>◌}
use smart_gate.Proxy.Stages.{PoolContext}
use smart_gate.Proxy.QuotaStage.{enforce_spend_budget, resolve_pool_context}
use smart_gate.Proxy.Idle.{Quiet, Quiet-bind}
use smart_gate.Proxy.Chat.{Admissible, admissible, attempted, before_quota, parse_warm, stripped}

module _ {F : Type 0} ⦃f : Float F⦄ {S : SessionStore} (dp : DataPlane F S) (pr : Printing F)
    (t : Tables F) (c : Caller F) (clock : Clock) (headers : Headers) (protocol : ChatProtocol)
    (payload : Value) where
  attempted_quiet :
      (w : Option WarmContext) (s : AppState F S)
      → (attempted dp pr t c clock headers protocol w s).quotas ≡ s.quotas
  attempted_quiet none s = refl
  attempted_quiet (some w) s = refl

  abbrev pub requested : Text
  requested = or_else (get_str (codes "model") payload) []

  -- From the budget on, and from the warm context on.
  abbrev pub gates :
      PoolContext F
      → Option WarmContext
      → Stage F S dp.Stream (Admissible dp pr t c clock headers protocol)
  gates context warm = enforce_spend_budget pr.four_decimals pr.debug_limit t c true >>= λ gate.
      lift (
        ok (
          admissible dp pr t c clock headers protocol requested context warm
            (stripped dp pr t c clock headers protocol warm payload) gate))

  gates-Quiet :
      (context : PoolContext F) (warm : Option WarmContext) (s : AppState F S)
      → Quiet s (gates context warm s)
  unfolding enforce_spend_budget
  gates-Quiet context warm s =
      Quiet-bind (enforce_spend_budget pr.four_decimals pr.debug_limit t c true)
        (λ gate. lift (
          ok (
            admissible dp pr t c clock headers protocol requested context warm
              (stripped dp pr t c clock headers protocol warm payload) gate)))
        s refl λ gate u. refl

  abbrev pub counts :
      PoolContext F
      → Option WarmContext
      → Stage F S dp.Stream (Admissible dp pr t c clock headers protocol)
  counts context warm =
      modify (attempted dp pr t c clock headers protocol warm) >> gates context warm

  counts-Quiet :
      (context : PoolContext F) (warm : Option WarmContext) (s : AppState F S)
      → Quiet s (counts context warm s)
  counts-Quiet context warm s =
      Quiet-bind (modify (attempted dp pr t c clock headers protocol warm))
        (λ u. gates context warm) s (attempted_quiet warm s) λ u. gates-Quiet context warm

  abbrev pub warms :
      PoolContext F → Stage F S dp.Stream (Admissible dp pr t c clock headers protocol)
  warms context = parse_warm dp pr t c clock headers protocol payload >>= counts context

  warms-Quiet : (context : PoolContext F) (s : AppState F S) → Quiet s (warms context s)
  warms-Quiet context s =
      Quiet-bind (parse_warm dp pr t c clock headers protocol payload) (counts context) s refl
        (counts-Quiet context)

  pub before_quota-Quiet :
      (s : AppState F S) → Quiet s (before_quota dp pr t c clock headers protocol payload s)
  unfolding before_quota resolve_pool_context
  before_quota-Quiet s = Quiet-bind (resolve_pool_context t c requested) warms s refl warms-Quiet
