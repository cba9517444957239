-- ===== src/Proxy/Restores.antt =====
-- What a permit that is not disarmed gives back.
use smart_gate.Base.{Option, Text, arith, false, refl, some, suc, zero, ℕ, ◌*◌, ◌-◌, ◌≡◌, ◌≤◌}
use smart_gate.Quota.Counters.{active, active-dec_concurrency, slot}
use smart_gate.Quota.Limiter.{Outcome, QuotaLimiter, drop_permit, permit, release, try_acquire}
use smart_gate.Quota.Admission.{Holds, try_acquire-Settles}
use smart_gate.Warm.Sessions.{SessionStore, err, ok}
use smart_gate.Proxy.Response.{Response}
use smart_gate.Proxy.QuotaStage.{acquire_quota, key_limits, project_limits, settled}
use smart_gate.Proxy.Stage.{Ends, Served, Stage, dropped, holding, served, ◌>>=◌}
use smart_gate.Proxy.State.{AppState, Caller}
use smart_gate.Proxy.Idle.{Idle, Quiet, bind, released}

module _ {F : Type 0} (c : Caller F) (j : Text) where
  -- The counters at `j` after `n` releases of the caller.
  abbrev pub Lowered : ℕ → QuotaLimiter → QuotaLimiter → Type 0
  Lowered n l l' =
      (active l'.key_concurrency j ≡ active l.key_concurrency j - n * slot c.key_id j)
      × (active l'.project_concurrency j ≡ active l.project_concurrency j - n * slot c.project_id j)

  release-Lowered : (l : QuotaLimiter) → Lowered 1 l (release c.key_id (some c.project_id) l)
  unfolding release
  release-Lowered l =
      let a = active-dec_concurrency l.key_concurrency c.key_id j in
      let b = active-dec_concurrency l.project_concurrency c.project_id j in
      (omega arith, omega arith)

  pub released-Lowered : (n : ℕ) (l : QuotaLimiter) → Lowered n l (released c n l)
  unfolding released
  released-Lowered zero l = (omega arith, omega arith)
  released-Lowered (suc n) l =
      let a = release-Lowered l in
      let b = released-Lowered n (release c.key_id (some c.project_id) l) in
      (omega arith, omega arith)

  -- Admitted, released `n` times, and given back.
  settled-Lowered :
      (l l1 : QuotaLimiter) (n : ℕ)
      → Holds l l1 (slot c.key_id j) (slot c.project_id j) j
      → Lowered n l (release c.key_id (some c.project_id) (released c n l1))
  settled-Lowered l l1 n h =
      let a = released-Lowered n l1 in
      let b = release-Lowered (released c n l1) in (omega arith, omega arith)

module _ {F Stream : Type 0} {S : SessionStore} (c : Caller F) (m now : ℕ) (kn pn : ℕ)
    (ek : (key_limits c).concurrency_limit ≡ some kn)
    (ep : (project_limits c).concurrency_limit ≡ some pn) (j : Text) where
  -- The counters at `j` are as they were, but for at most `m` further releases.
  abbrev pub Restores : AppState F S → Ends Stream (Served Stream) × AppState F S → Type 0
  Restores s (r, s') = (n : ℕ) × (n ≤ m) × Lowered c j n s.quotas s'.quotas

  dropped-Lowered :
      (s u : AppState F S) (l : QuotaLimiter) (n : ℕ) (x : Served Stream)
      → Holds s.quotas l (slot c.key_id j) (slot c.project_id j) j
      → x.1 ≡ false
      → u.quotas ≡ released c n l
      → Lowered c j n s.quotas (dropped (permit c.key_id c.project_id) (x, u)).1.quotas
  unfolding permit drop_permit
  dropped-Lowered s u l n x h e k = rw (e, k) (settled-Lowered c j s.quotas l n h)

  held-Restores :
      (body : Stage F S Stream (Served Stream)) (s : AppState F S) (l : QuotaLimiter)
      → Holds s.quotas l (slot c.key_id j) (slot c.project_id j) j
      → ((u : AppState F S) → Idle c m u (body u))
      → Restores s (holding (permit c.key_id c.project_id) body (record s { quotas = l }))
  unfolding holding
  held-Restores body s l h k =
      let u = record s { quotas = l } in
      let (e, (n, le, q)) = k u in
      (n, le, dropped-Lowered s (body u).1 l n (served (body u).0) h e q)

  settled-Restores :
      (s : AppState F S) (r : QuotaLimiter × Outcome) (body : Stage F S Stream (Served Stream))
      → try_acquire c.key_id c.project_id (key_limits c) (project_limits c) now s.quotas ≡ r
      → ((u : AppState F S) → Idle c m u (body u))
      → Restores s
          (elim ((settled {Stream = Stream} c r s).0)
            as (λ _. Ends Stream (Served Stream) × AppState F S) [
              | ok p ↦ holding p body (settled {Stream = Stream} c r s).1
              | err e ↦ (err e, (settled {Stream = Stream} c r s).1)
            ])
  settled-Restores s (l, Outcome.ok) body e f =
      let h =
        try_acquire-Settles c.key_id c.project_id (key_limits c) (project_limits c) now s.quotas
          j in
      let (counts, key, project) = rw (e, ek, ep) at h in held-Restores body s l counts f
  settled-Restores s (l, Outcome.err reason) body e f =
      let h =
        try_acquire-Settles c.key_id c.project_id (key_limits c) (project_limits c) now s.quotas
          j in
      let k = rw e at h in (0, omega arith, (omega arith, omega arith))

  -- What the limiter's state has to do with it is only the limiter.
  Restores-from :
      (s s' : AppState F S) (r : Ends Stream (Served Stream) × AppState F S)
      → s'.quotas ≡ s.quotas
      → Restores s' r
      → Restores s r
  Restores-from s s' (r, u) e h = rw e at h

  Restores-halts :
      (s s' : AppState F S) (x : Option (Response Stream))
      → s'.quotas ≡ s.quotas
      → Restores s (err x, s')
  Restores-halts s s' x e = (0, omega arith, (rw e (omega arith), rw e (omega arith)))

  pub Restores-bind :
      {A : Type 0} (n : Stage F S Stream A) (k : A → Stage F S Stream (Served Stream))
      (s : AppState F S)
      → Quiet s (n s)
      → ((a : A) (s' : AppState F S) → Restores s' (k a s'))
      → Restores s ((n >>= k) s)
  Restores-bind = bind Restores Restores-from Restores-halts

  pub acquired-Restores :
      (body : Stage F S Stream (Served Stream))
      → ((u : AppState F S) → Idle c m u (body u))
      → (s : AppState F S) → Restores s ((acquire_quota c now >>= λ p. holding p body) s)
  unfolding acquire_quota
  acquired-Restores body h s = settled-Restores s _ body refl h
