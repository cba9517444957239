-- ===== src/Proxy/Stage.antt =====
-- The stages of a handler in src/api/proxy.rs: each goes on with the state or answers at once.
use smart_gate.Base.{Bool, Option, false}
use smart_gate.Quota.Limiter.{QuotaPermit, drop_permit}
use smart_gate.Warm.Sessions.{Result, SessionStore, err, ok}
use smart_gate.Proxy.Response.{Response}
use smart_gate.Proxy.State.{AppState}

-- `none` is a panic, which leaves without an answer.
abbrev pub Ends : Type 0 → Type 0 → Type 0
Ends Stream A = Result (Option (Response Stream)) A

abbrev pub Stage : (F : Type 0) → SessionStore → (Stream A : Type 0) → Type 0
Stage F S Stream A = AppState F S → Ends Stream A × AppState F S

module _ {F Stream : Type 0} {S : SessionStore} {A B : Type 0} where
  infixl 5 ◌>>=◌ ◌>>◌
  -- `or_return!`
  abbrev pub ◌>>=◌ : Stage F S Stream A → (A → Stage F S Stream B) → Stage F S Stream B
  ◌>>=◌ m k s = let (r, s') = m s in elim r [ ok a ↦ k a s' | err e ↦ (err e, s') ]

  abbrev pub ◌>>◌ : Stage F S Stream A → Stage F S Stream B → Stage F S Stream B
  m >> k = m >>= λ _. k

-- What a handler answers with, and whether its permit was disarmed.
abbrev pub Served : Type 0 → Type 0
Served Stream = Option (Response Stream) × Bool

abbrev pub served : {Stream : Type 0} → Ends Stream (Served Stream) → Served Stream
served (ok a) = a
served (err e) = (e, false)

module _ {F Stream : Type 0} {S : SessionStore} where
  abbrev pub modify : (AppState F S → AppState F S) → Stage F S Stream Unit
  modify g s = (ok tt, g s)

  abbrev pub lift : {A : Type 0} → Ends Stream A → Stage F S Stream A
  lift r s = (r, s)

  abbrev pub dropped : QuotaPermit → Served Stream × AppState F S → Served Stream × AppState F S
  dropped p ((r, disarmed), s) =
      ((r, disarmed), record s { quotas = drop_permit (record p { released = disarmed }) s.quotas })

  -- The rest of a handler that holds a permit: at its end the permit is dropped.
  unfoldable pub holding :
      QuotaPermit → Stage F S Stream (Served Stream) → Stage F S Stream (Served Stream)
  unfolding drop_permit
  holding p body s = let (r, s') = body s in let (a, t) = dropped p (served r, s') in (ok a, t)

  -- The answer of a handler.
  abbrev pub finally :
      Stage F S Stream (Served Stream) → AppState F S → Served Stream × AppState F S
  finally m s = let (r, s') = m s in (served r, s')
