-- ===== src/Proxy/Mirror.antt =====
-- The slots of a request that mirrors another in the background.
use smart_gate.Base.{All, List, Text, Text-discrete, [], codes, length, none, refl, some, ◌∷◌, ◌≡◌}
use smart_gate.Base.Map.{Map, put}
use smart_gate.Float.{Float}
use smart_gate.Auth.Models.{VirtualModel, resolve_authorized_virtual_model}
use smart_gate.Warm.Sessions.{SessionStore, ok}
use smart_gate.Proxy.Finished.{absorb}
use smart_gate.Proxy.Idle.{IsOf, finish_all_released}
use smart_gate.Proxy.Restores.{Lowered, released-Lowered}
use smart_gate.Proxy.Shadow.{
  protocol_of, run_shadow, shadow_metadata, shadow_payload, shadow_request,
}
use smart_gate.Proxy.State.{AppState, Caller, DataPlane, Finished, ProxyRequest, ShadowJob, Tables}

module _ {F : Type 0} (c : Caller F) (vm : VirtualModel) (m : Map Text Text)
    (unmarked : m (codes "quota_release") ≡ none) where
  reports-IsOf :
      (rs : List Finished) → All (λ r. r.0.metadata ≡ shadow_metadata c vm m) rs → All (IsOf c) rs
  unfolding shadow_metadata put Text-discrete
  reports-IsOf [] h = tt
  reports-IsOf (r ∷ rs) h = (rw h.0 (refl, refl, unmarked), reports-IsOf rs h.1)

module _ {F : Type 0} ⦃f : Float F⦄ {S : SessionStore} (dp : DataPlane F S)
    (registry_version : Text) (lowercase : Text → Text) (t : Tables F) (job : ShadowJob F)
    (s : AppState F S) (j : Text) where
  -- The call of the data plane that sends a shadow request, and the requests that finish in it.
  abbrev pub finished_with : VirtualModel → ProxyRequest dp.Rest → List Finished
  finished_with vm r =
      (dp.dispatch none none vm.pool_id (protocol_of dp registry_version lowercase t job)
        (shadow_request dp registry_version lowercase t job.auth vm r) s).finished

  -- A shadow request that is sent, where the reports in its call carry its metadata, and the data
  -- plane did not mark the request itself: from its start to its end it takes no slot, and each
  -- report takes one off the counters of its key and of its project.
  pub run_shadow-lowers :
      (vm : VirtualModel) (r : ProxyRequest dp.Rest)
      → resolve_authorized_virtual_model t.id_before t.taken_before t.exact_fails t.default_fails
          t.database job.shadow_model_name job.auth.project_id job.auth.key_id
        ≡ some (some vm)
      → dp.chat_request
          (protocol_of dp registry_version lowercase t job)
          (shadow_payload job)
          vm.name
        ≡ ok r
      → r.metadata (codes "quota_release") ≡ none
      → All (λ x. x.0.metadata ≡ shadow_metadata job.auth vm r.metadata) (finished_with vm r)
      → Lowered job.auth j
          (length (finished_with vm r))
          s.quotas
          (run_shadow dp registry_version lowercase t job s).1.quotas
  unfolding run_shadow absorb
  run_shadow-lowers vm r found parsed unmarked reports =
      rw
        (
          found,
          parsed,
          finish_all_released registry_version job.auth (finished_with vm r) _
              (reports-IsOf job.auth vm r.metadata unmarked (finished_with vm r) reports),
        )
        (released-Lowered job.auth j (length (finished_with vm r)) s.quotas)
