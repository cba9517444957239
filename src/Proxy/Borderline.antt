-- ===== src/Proxy/Borderline.antt =====
-- src/api/proxy.rs and judge.rs: when the judge is asked, and the call of the data plane that asks it.
use smart_gate.Base.{Bool, Option, Text, codes, if◌then◌else◌, none, some, ◌++◌}
use smart_gate.Float.{Float}
use smart_gate.Auth.Models.{VirtualModel}
use smart_gate.Warm.Sessions.{Result, SessionStore, err, ok}
use smart_gate.Proxy.State.{
  AppState, Caller, DataPlane, Dispatched, HostOutcome, JudgeEndpoint, ModelPool, ProxyRequest,
}
use smart_gate.Proxy.Finished.{absorb}
use smart_gate.Proxy.Judge.{
  DifficultyTier, is_borderline, judge_metadata, judge_payload, judge_protocol, verdict_of,
}

module _ {F : Type 0} ⦃f : Float F⦄ {S : SessionStore} (dp : DataPlane F S)
    (registry_version : Text) (c : Caller F) (vm : VirtualModel) (prompt_text : Text) where
  abbrev pub Verdict : Type 0
  Verdict = Option DifficultyTier × AppState F S

  -- The request that the judge gets.
  abbrev pub judge_request : ProxyRequest dp.Rest → ProxyRequest dp.Rest
  judge_request r = record r { metadata = judge_metadata c vm.id vm.pool_id prompt_text r.metadata }

  abbrev pub judged : Bool × Dispatched F S (HostOutcome dp.Stream) → AppState F S → Verdict
  judged (in_time, d) s =
      (if in_time then verdict_of d.outcome else none, absorb registry_version d s.warm s)

  abbrev pub asked :
      Text → JudgeEndpoint → Result Text (ProxyRequest dp.Rest) → AppState F S → Verdict
  asked id endpoint (err message) s = (none, s)
  asked id endpoint (ok r) s =
      judged
        (dp.judge (codes "smartgate:judge:" ++ id) (judge_protocol endpoint) (judge_request r) s) s

  abbrev pub found : Text → Option JudgeEndpoint → AppState F S → Verdict
  found id none s = (none, s)
  found id (some endpoint) s =
      asked id endpoint
        (dp.chat_request (judge_protocol endpoint) (judge_payload endpoint prompt_text)
          (codes "smartgate-judge"))
        s

  unfoldable pub classify_with_judge : Text → AppState F S → Verdict
  unfolding absorb judge_payload judge_metadata
  classify_with_judge judge_endpoint_id s =
      found judge_endpoint_id (dp.load_endpoint judge_endpoint_id) s

  -- The judge of a pool that asks one.
  abbrev pub judge_of : Option (ModelPool F) → Option Text
  judge_of none = none
  judge_of (some pool) = if pool.judge_enabled then pool.judge_endpoint_id else none

  abbrev pub maybe : Bool → Option Text → AppState F S → Verdict
  maybe borderline none s = (none, s)
  maybe borderline (some id) s = if borderline then classify_with_judge id s else (none, s)

  unfoldable pub classify_borderline_difficulty :
      Option (ModelPool F) → (difficulty : F) → AppState F S → Verdict
  unfolding is_borderline classify_with_judge
  classify_borderline_difficulty pool difficulty s =
      maybe (is_borderline difficulty) (judge_of pool) s
