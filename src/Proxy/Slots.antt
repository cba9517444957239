-- ===== src/Proxy/Slots.antt =====
-- What the chat handler does to the limiter's slots.
use smart_gate.Proxy.Judge.{judge_metadata}
use smart_gate.Base.Map.{Map, put}
use smart_gate.Proxy.Borderline.{
  asked, classify_borderline_difficulty, classify_with_judge, found, judge_request, maybe,
}
use smart_gate.Base.{
  All, Bool, List, Option, Text, Text-discrete, [], ap, codes, false, length, ℕ, ◌≤◌, none, refl,
  some, true, ◌∙◌, ◌∷◌, ◌≡◌,
}
use smart_gate.Float.{Float}
use smart_gate.Auth.Models.{VirtualModel}
use smart_gate.Routing.Candidate.{RouteHint}
use smart_gate.Warm.Keys.{SessionKey}
use smart_gate.Warm.Sessions.{Result, SessionStore, err, ok}
use smart_gate.Proxy.State.{
  AppState, Caller, ChatProtocol, DataPlane, Finished, JudgeEndpoint, ModelPool, ProxyRequest,
}
use smart_gate.Proxy.Idle.{IsOf, KeepsSlot, Quiet, absorb_quiet, is_ok, is_response}

-- What is relied on of the data plane for a judge: its report carries the request's metadata.
abbrev pub CarriesMetadata : {F : Type 0} {S : SessionStore} → DataPlane F S → Type 0
CarriesMetadata {F} {S} dp =
    (pool : Text) (p : ChatProtocol) (r : ProxyRequest dp.Rest) (s : AppState F S)
    → All (λ x. x.0.metadata ≡ r.metadata) (dp.judge pool p r s).1.finished

-- A data plane that responds to no chat, and in a call reports at most `m` requests, each of the
-- caller.
pub record Declines {F : Type 0} {S : SessionStore} (dp : DataPlane F S) (c : Caller F) (m : ℕ)
    : Type 0 where
  pub judge_metadata : CarriesMetadata dp
  pub unanswered :
      (k : Option SessionKey) (h : Option (RouteHint F)) (pool : Text) (p : ChatProtocol)
      (r : ProxyRequest dp.Rest) (s : AppState F S)
      → is_response (dp.dispatch k h pool p r s).outcome ≡ false
  pub reports :
      (k : Option SessionKey) (h : Option (RouteHint F)) (pool : Text) (p : ChatProtocol)
      (r : ProxyRequest dp.Rest) (s : AppState F S)
      → All (IsOf c) (dp.dispatch k h pool p r s).finished
        × (length (dp.dispatch k h pool p r s).finished ≤ m)

-- The same of the call for responses.
pub record DeclinesResponses {F : Type 0} {S : SessionStore} (dp : DataPlane F S) (c : Caller F)
    (m : ℕ) : Type 0 where
  pub unanswered :
      (pool : Text) (r : ProxyRequest dp.Rest) (s : AppState F S)
      → is_ok (dp.responses pool r s).outcome ≡ false
  pub reports :
      (pool : Text) (r : ProxyRequest dp.Rest) (s : AppState F S)
      → All (IsOf c) (dp.responses pool r s).finished
        × (length (dp.responses pool r s).finished ≤ m)

module _ {F : Type 0} ⦃f : Float F⦄ {S : SessionStore} (dp : DataPlane F S) (q : CarriesMetadata dp)
    (rv : Text) (c : Caller F) (vm : VirtualModel) (prompt : Text) where
  judge_metadata-keeps :
      (m : Map Text Text)
      → judge_metadata c vm.id vm.pool_id prompt m (codes "quota_release") ≡ some (codes "0")
  unfolding judge_metadata put Text-discrete
  judge_metadata-keeps m = refl

  judge-KeepsSlot :
      (r : ProxyRequest dp.Rest) (rs : List Finished)
      → All (λ x. x.0.metadata ≡ (judge_request dp rv c vm prompt r).metadata) rs
      → All KeepsSlot rs
  judge-KeepsSlot r [] h = tt
  judge-KeepsSlot r (x ∷ xs) h = (
    ap (λ m. m (codes "quota_release")) h.0 ∙ judge_metadata-keeps r.metadata,
    judge-KeepsSlot r xs h.1,
  )

  asked-Quiet :
      (id : Text) (e : JudgeEndpoint) (r : Result Text (ProxyRequest dp.Rest)) (s : AppState F S)
      → Quiet s (asked dp rv c vm prompt id e r s)
  asked-Quiet id e (err m) s = refl
  asked-Quiet id e (ok r) s = absorb_quiet rv _ s.warm s (judge-KeepsSlot r _ (q _ _ _ s))

  found-Quiet :
      (id : Text) (e : Option JudgeEndpoint) (s : AppState F S)
      → Quiet s (found dp rv c vm prompt id e s)
  found-Quiet id none s = refl
  found-Quiet id (some e) s = asked-Quiet id e _ s

  maybe-Quiet :
      (b : Bool) (id : Option Text) (s : AppState F S) → Quiet s (maybe dp rv c vm prompt b id s)
  unfolding classify_with_judge
  maybe-Quiet b none s = refl
  maybe-Quiet true (some id) s = found-Quiet id (dp.load_endpoint id) s
  maybe-Quiet false (some id) s = refl

  pub classify-Quiet :
      (pool : Option (ModelPool F)) (d : F) (s : AppState F S)
      → Quiet s (classify_borderline_difficulty dp rv c vm prompt pool d s)
  unfolding classify_borderline_difficulty
  classify-Quiet pool d s = maybe-Quiet _ _ s
