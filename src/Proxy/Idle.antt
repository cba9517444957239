-- ===== src/Proxy/Idle.antt =====
-- The limiter across the stages of a handler: which of them leave it alone.
use smart_gate.Proxy.Response.{Response}
use smart_gate.Base.{
  All, Bool, List, Option, Text, Text-discrete, [], ap, arith, codes, false, length, none, refl,
  some, suc, true, zero, ℕ, ◌∙◌, ◌∷◌, ◌≡◌, ◌≤◌,
}
use smart_gate.Float.{Float}
use smart_gate.Quota.Limiter.{QuotaLimiter, release}
use smart_gate.Usage.Row.{on_request_finished}
use smart_gate.Usage.Finish.{release_of}
use smart_gate.Warm.Sessions.{Result, SessionStore, err, ok}
use smart_gate.Warm.Store.{World}
use smart_gate.Proxy.Finished.{absorb, finish_all, finish_one}
use smart_gate.Proxy.Stage.{Ends, Served, Stage, served, ◌>>=◌}
use smart_gate.Proxy.State.{
  AppState, Caller, Dispatched, Finished, HostOutcome, failed, pool_not_found, response,
  unsupported,
}

abbrev pub is_response : {Stream : Type 0} → HostOutcome Stream → Bool
is_response (response status body) = true
is_response pool_not_found = false
is_response unsupported = false
is_response (failed e) = false

abbrev pub is_ok : {E A : Type 0} → Result E A → Bool
is_ok (ok a) = true
is_ok (err e) = false

module _ {F : Type 0} {S : SessionStore} where
  abbrev pub Quiet : {A : Type 0} → AppState F S → A × AppState F S → Type 0
  Quiet s r = r.1.quotas ≡ s.quotas

-- The limiter after `n` releases of the caller.
unfoldable pub released : {F : Type 0} → Caller F → ℕ → QuotaLimiter → QuotaLimiter
released c zero l = l
released c (suc n) l = released c n (release c.key_id (some c.project_id) l)

module _ {F : Type 0} (c : Caller F) (m : ℕ) where
  -- After at most `m` of them.
  abbrev pub Falls : QuotaLimiter → QuotaLimiter → Type 0
  Falls l l' = (n : ℕ) × (n ≤ m) × (l' ≡ released c n l)

  pub Falls-refl : (l l' : QuotaLimiter) → l' ≡ l → Falls l l'
  unfolding released
  Falls-refl l l' e = (0, omega arith, e)

module _ {F : Type 0} {S : SessionStore} {Stream : Type 0} where
  -- A stage that leaves the limiter alone may stand before one with a property that only compares
  -- the limiter at the end with that at the start.
  module _ {A B : Type 0} (P : AppState F S → Ends Stream B × AppState F S → Type 0)
      (from : (s s' : AppState F S) (r : Ends Stream B × AppState F S)
        → s'.quotas ≡ s.quotas
        → P s' r
        → P s r)
      (halts : (s s' : AppState F S) (x : Option (Response Stream))
        → s'.quotas ≡ s.quotas
        → P s (err x, s')) where
    after :
        (s : AppState F S) (r : Ends Stream A × AppState F S) (k : A → Stage F S Stream B)
        → Quiet s r
        → ((a : A) (s' : AppState F S) → P s' (k a s'))
        → P s (elim (r.0) [ ok a ↦ k a r.1 | err e ↦ (err e, r.1) ])
    after s (ok a, s') k e h = from s s' (k a s') e (h a s')
    after s (err x, s') k e h = halts s s' x e

    pub bind :
        (m : Stage F S Stream A) (k : A → Stage F S Stream B) (s : AppState F S)
        → Quiet s (m s)
        → ((a : A) (s' : AppState F S) → P s' (k a s'))
        → P s ((m >>= k) s)
    bind m k s e h = after s (m s) k e h

  pub Quiet-bind :
      {A B : Type 0} (m : Stage F S Stream A) (k : A → Stage F S Stream B) (s : AppState F S)
      → Quiet s (m s)
      → ((a : A) (s' : AppState F S) → Quiet s' (k a s'))
      → Quiet s ((m >>= k) s)
  Quiet-bind = bind (λ s r. Quiet s r) (λ s s' r e h. h ∙ e) (λ s s' x e. e)

  module _ (c : Caller F) (m : ℕ) where
    -- The permit is not disarmed, and the caller is released at most `m` times.
    abbrev pub Idle : AppState F S → Ends Stream (Served Stream) × AppState F S → Type 0
    Idle s (r, s') = ((served r).1 ≡ false) × Falls c m s.quotas s'.quotas

    Idle-from :
        (s s' : AppState F S) (r : Ends Stream (Served Stream) × AppState F S)
        → s'.quotas ≡ s.quotas
        → Idle s' r
        → Idle s r
    Idle-from s s' (r, t) e h = (h.0, let k = h.1 in rw e at k)

    pub Idle-bind :
        {A : Type 0} (n : Stage F S Stream A) (k : A → Stage F S Stream (Served Stream))
        (s : AppState F S)
        → Quiet s (n s)
        → ((a : A) (s' : AppState F S) → Idle s' (k a s'))
        → Idle s ((n >>= k) s)
    Idle-bind = bind Idle Idle-from (λ s s' x e. (refl, Falls-refl c m s.quotas s'.quotas e))

    -- The data plane did not respond, and the caller is released at most `m` times.
    abbrev pub Lost : AppState F S → Ends Stream (HostOutcome Stream) × AppState F S → Type 0
    Lost s (ok o, s') = (is_response o ≡ false) × Falls c m s.quotas s'.quotas
    Lost s (err e, s') = Falls c m s.quotas s'.quotas

    Lost-from :
        (s s' : AppState F S) (r : Ends Stream (HostOutcome Stream) × AppState F S)
        → s'.quotas ≡ s.quotas
        → Lost s' r
        → Lost s r
    Lost-from s s' (ok o, t) e h = (h.0, let k = h.1 in rw e at k)
    Lost-from s s' (err x, t) e h = rw e at h

    pub Lost-bind :
        {A : Type 0} (n : Stage F S Stream A) (k : A → Stage F S Stream (HostOutcome Stream))
        (s : AppState F S)
        → Quiet s (n s)
        → ((a : A) (s' : AppState F S) → Lost s' (k a s'))
        → Lost s ((n >>= k) s)
    Lost-bind = bind Lost Lost-from (λ s s' x e. Falls-refl c m s.quotas s'.quotas e)

    -- What is made of the outcome.
    Lost-after :
        (s : AppState F S) (r : Ends Stream (HostOutcome Stream) × AppState F S)
        (k : HostOutcome Stream → Stage F S Stream (Served Stream))
        → Lost s r
        → ((o : HostOutcome Stream) (u u' : AppState F S)
            → is_response o ≡ false
            → Falls c m u.quotas u'.quotas
            → Idle u (k o u'))
        → Idle s (elim (r.0) [ ok a ↦ k a r.1 | err e ↦ (err e, r.1) ])
    Lost-after s (ok o, s') k e h = h o s s' e.0 e.1
    Lost-after s (err x, s') k e h = (refl, e)

    pub Idle-from-Lost :
        (n : Stage F S Stream (HostOutcome Stream))
        (k : HostOutcome Stream → Stage F S Stream (Served Stream)) (s : AppState F S)
        → Lost s (n s)
        → ((o : HostOutcome Stream) (u u' : AppState F S)
            → is_response o ≡ false
            → Falls c m u.quotas u'.quotas
            → Idle u (k o u'))
        → Idle s ((n >>= k) s)
    Idle-from-Lost n k s e h = Lost-after s (n s) k e h

-- The metadata of a report keeps the slot.
abbrev pub KeepsSlot : Finished → Type 0
KeepsSlot r = r.0.metadata (codes "quota_release") ≡ some (codes "0")

-- The report is of a request of the caller, as the handlers stamp it.
abbrev pub IsOf : {F : Type 0} → Caller F → Finished → Type 0
IsOf c r =
    (r.0.metadata (codes "key_id") ≡ some c.key_id)
    × (r.0.metadata (codes "project_id") ≡ some c.project_id)
    × (r.0.metadata (codes "quota_release") ≡ none)

module _ {F : Type 0} ⦃f : Float F⦄ {S : SessionStore} (registry_version : Text) where
  finish_one_quiet :
      (r : Finished) (s : AppState F S)
      → KeepsSlot r
      → (finish_one registry_version r s).quotas ≡ s.quotas
  unfolding finish_one on_request_finished release_of Text-discrete
  finish_one_quiet r s e = rw e refl

  finish_all_quiet :
      (rs : List Finished) (s : AppState F S)
      → All KeepsSlot rs
      → (finish_all registry_version rs s).quotas ≡ s.quotas
  unfolding finish_all
  finish_all_quiet [] s h = refl
  finish_all_quiet (r ∷ rs) s h =
      finish_all_quiet rs (finish_one registry_version r s) h.1 ∙ finish_one_quiet r s h.0

  pub absorb_quiet :
      {Outcome : Type 0} (d : Dispatched F S Outcome) (w : World S) (s : AppState F S)
      → All KeepsSlot d.finished
      → (absorb registry_version d w s).quotas ≡ s.quotas
  unfolding absorb
  absorb_quiet d w s h = finish_all_quiet d.finished _ h

  finish_one_released :
      (c : Caller F) (r : Finished) (s : AppState F S)
      → IsOf c r
      → (finish_one registry_version r s).quotas ≡ release c.key_id (some c.project_id) s.quotas
  unfolding finish_one on_request_finished release_of Text-discrete
  finish_one_released c r s e = rw (e.2, e.0, e.1) refl

  pub finish_all_released :
      (c : Caller F) (rs : List Finished) (s : AppState F S)
      → All (IsOf c) rs
      → (finish_all registry_version rs s).quotas ≡ released c (length rs) s.quotas
  unfolding finish_all released
  finish_all_released c [] s h = refl
  finish_all_released c (r ∷ rs) s h =
      finish_all_released c rs (finish_one registry_version r s) h.1
      ∙ ap (released c (length rs)) (finish_one_released c r s h.0)

  pub absorb-Falls :
      {Outcome : Type 0} (c : Caller F) (m : ℕ) (d : Dispatched F S Outcome) (w : World S)
      (s : AppState F S)
      → All (IsOf c) d.finished
      → length d.finished ≤ m
      → Falls c m s.quotas (absorb registry_version d w s).quotas
  unfolding absorb
  absorb-Falls c m d w s h le = (length d.finished, le, finish_all_released c d.finished _ h)
