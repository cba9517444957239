-- ===== src/Proxy/Gates.antt =====
-- What a request has passed by the time that the data plane has it.
use smart_gate.Proxy.Chat.{before_quota, Admissible, parse_warm, attempted, admissible, stripped}
use smart_gate.Proxy.Serve.{admitted, chat_proxy, while_held}
use smart_gate.Proxy.Entry.{before_quota-Quiet, counts, gates, requested, warms}
use smart_gate.Quota.Limiter.{Outcome, QuotaLimiter, QuotaPermit, try_acquire}
use smart_gate.Context.Json.{Value}
use smart_gate.Base.Headers.{Headers}
use smart_gate.Proxy.QuotaStage.{
  acquire_quota, enforce_spend_budget, gated, key_limits, project_limits, resolve_pool_context,
  settled, with_model,
}
use smart_gate.Proxy.Stages.{BudgetGate, PoolContext}
use smart_gate.Budget.{BudgetOutcome, effective_daily_limit, evaluate, is_blocked}
use smart_gate.Auth.Models.{VirtualModel}
use smart_gate.Float.{Float}
use smart_gate.Base.{
  ap, sym, ◌∙◌, Bool, Bool-cases, Option, Option-cases, Text, false, inl, inr, none, refl, some,
  true, ◌≡◌,
}
use smart_gate.Auth.Grants.{resolve_authorized_virtual_model-Served, Served as Authorized}
use smart_gate.Warm.Sessions.{SessionStore, err, ok}
use smart_gate.Proxy.State.{AppState, Caller, ChatProtocol, Clock, DataPlane, Printing, Tables}
use smart_gate.Proxy.Stage.{Ends, Served, Stage, holding, lift, modify, served, ◌>>=◌}

-- A stage that goes on after another has a value of that one.
module _ {F Stream : Type 0} {S : SessionStore} {A B : Type 0} (k : A → Stage F S Stream B)
    (b : B) where
  went_on :
      (r : Ends Stream A × AppState F S)
      → (elim (r.0) as (λ _. Ends Stream B × AppState F S) [
        | ok a ↦ k a r.1
        | err x ↦ (err x, r.1)
      ]).0
        ≡ ok b
      → (a : A) × (r.0 ≡ ok a) × ((k a r.1).0 ≡ ok b)
  went_on (ok a, s') h = (a, refl, h)
  went_on (err x, s') h = absurd cc

  bind_went :
      (m : Stage F S Stream A) (s : AppState F S)
      → ((m >>= k) s).0 ≡ ok b
      → (a : A) × ((m s).0 ≡ ok a) × ((k a (m s).1).0 ≡ ok b)
  bind_went m s h = went_on (m s) h

-- Nothing is known to be blocked: the spend of today was read, and is within the limit.
abbrev pub IsWithin : {F : Type 0} ⦃f : Float F⦄ → Tables F → Caller F → Type 0
IsWithin {F} t c =
    (spent : Text → F) × (t.spent_today ≡ some spent)
    × (is_blocked (
          evaluate (spent c.key_id)
            (effective_daily_limit c.key_daily_spend_limit c.project_daily_spend_limit))
        ≡ false)

module _ {Stream : Type 0} where
  disarmed_went :
      (r : Ends Stream (Served Stream)) → (served r).1 ≡ true → (x : Served Stream) × (r ≡ ok x)
  disarmed_went (ok x) h = (x, refl)
  disarmed_went (err e) h = absurd cc

module _ {F Stream : Type 0} where
  with_model-found :
      (t : Tables F) (found : Option (Option VirtualModel)) (x : PoolContext F)
      → with_model {Stream = Stream} t found ≡ ok x
      → (vm : VirtualModel) × (found ≡ some (some vm))
  with_model-found t none x h = absurd cc
  with_model-found t (some none) x h = absurd cc
  with_model-found t (some (some vm)) x h = (vm, refl)

  module _ ⦃f : Float F⦄ (print : F → Text) (debug : Option F → Text) where
    gated-within :
        (detail : Bool) (spent : F) (limit : Option F) (o : BudgetOutcome F) (g : BudgetGate F)
        → gated {Stream = Stream} print debug detail spent limit o ≡ ok g
        → is_blocked o ≡ false
    gated-within detail spent limit o g h = elim (Bool-cases (is_blocked o)) [
      | inl e ↦ absurd (let k = rw e at h in cc)
      | inr e ↦ e
    ]

    enforced-IsWithin :
        {S : SessionStore} (t : Tables F) (c : Caller F) (detail : Bool) (s : AppState F S)
        (g : BudgetGate F)
        → (enforce_spend_budget {Stream = Stream} print debug t c detail s).0 ≡ ok g
        → IsWithin t c
    unfolding enforce_spend_budget
    enforced-IsWithin t c detail s g h = elim (Option-cases t.spent_today) [
      | inl e ↦ absurd (let k = rw e at h in cc)
      | inr (spent, e) ↦ (spent, e, gated-within detail _ _ _ g (let k = rw e at h in k))
    ]

module _ {F Stream : Type 0} {S : SessionStore} (c : Caller F) where
  settled-ok :
      (r : QuotaLimiter × Outcome) (u : AppState F S) (p : QuotaPermit)
      → (settled {Stream = Stream} c r u).0 ≡ ok p
      → (l : QuotaLimiter) × (r ≡ (l, Outcome.ok))
  settled-ok (l, Outcome.ok) u p h = (l, refl)
  settled-ok (l, Outcome.err e) u p h = absurd cc

module _ {F : Type 0} ⦃f : Float F⦄ {S : SessionStore} (dp : DataPlane F S) (pr : Printing F)
    (t : Tables F) (c : Caller F) (clock : Clock) (headers : Headers) (protocol : ChatProtocol)
    (payload : Value) (s : AppState F S) where
  -- A model that the caller may use, the budget, and the limiter.
  abbrev pub Passed : Type 0
  Passed =
      ((vm : VirtualModel) × Authorized t.id_before t.taken_before t.exact_fails t.default_fails
          t.database (requested dp pr t c clock headers protocol payload) c.project_id c.key_id vm)
      × IsWithin t c
      × ((l : QuotaLimiter) × (try_acquire c.key_id c.project_id (key_limits c) (project_limits c)
              clock.admitted s.quotas
            ≡ (l, Outcome.ok)))

  acquired :
      (a : Admissible dp pr t c clock headers protocol) (u : AppState F S) (x : Served dp.Stream)
      → (admitted dp pr t c clock headers protocol a u).0 ≡ ok x
      → (l : QuotaLimiter) × (try_acquire c.key_id c.project_id
            (key_limits c)
            (project_limits c)
            clock.admitted
            u.quotas
          ≡ (l, Outcome.ok))
  unfolding admitted acquire_quota
  acquired a u x e =
      let (p, ep, rest) =
        bind_went (λ slot. holding slot (while_held dp pr t c clock headers protocol a)) x
          (acquire_quota c clock.admitted) u e in
      settled-ok c _ u p ep

  abbrev Entered : Type 0
  Entered =
      ((vm : VirtualModel) × Authorized t.id_before t.taken_before t.exact_fails t.default_fails
          t.database (requested dp pr t c clock headers protocol payload) c.project_id c.key_id vm)
      × IsWithin t c

  entered :
      (a : Admissible dp pr t c clock headers protocol)
      → (before_quota dp pr t c clock headers protocol payload s).0 ≡ ok a
      → Entered
  unfolding before_quota resolve_pool_context
  entered a e =
      let (x, ex, e1) =
        bind_went (warms dp pr t c clock headers protocol payload) a
          (resolve_pool_context t c (requested dp pr t c clock headers protocol payload)) s e in
      let (vm, found) = with_model-found t _ x ex in
      let (w, ew, e2) =
        bind_went (counts dp pr t c clock headers protocol payload x) a
          (parse_warm dp pr t c clock headers protocol payload) s e1 in
      let (v, ev, e3) =
        bind_went (λ v. gates dp pr t c clock headers protocol payload x w) a
          (modify (attempted dp pr t c clock headers protocol w)) s e2 in
      let (g, eg, e4) =
        bind_went
          (λ gate. lift (
            ok (
              admissible dp pr t c clock headers protocol
                (requested dp pr t c clock headers protocol payload) x w
                (stripped dp pr t c clock headers protocol w payload) gate)))
          a (enforce_spend_budget pr.four_decimals pr.debug_limit t c true)
          (attempted dp pr t c clock headers protocol w s) e3 in
      (
        (
          vm,
          resolve_authorized_virtual_model-Served t.id_before t.taken_before t.exact_fails
              t.default_fails t.database (requested dp pr t c clock headers protocol payload)
              c.project_id c.key_id vm found,
        ),
        enforced-IsWithin pr.four_decimals pr.debug_limit t c true
            (attempted dp pr t c clock headers protocol w s) g eg,
      )

  -- A request that the data plane has taken over names, or is defaulted to, a model that its caller
  -- may use; the spend of the day was read and did not block it; and the limiter admitted it.
  pub chat_proxy-Passed :
      (chat_proxy dp pr t c clock headers protocol payload s).0.1 ≡ true → Passed
  unfolding chat_proxy
  chat_proxy-Passed h =
      let (x, e) = disarmed_went _ h in
      let (a, ea, e1) =
        bind_went (admitted dp pr t c clock headers protocol) x
          (before_quota dp pr t c clock headers protocol payload) s e in
      let (model, within) = entered a ea in
      let (l, el) = acquired a _ x e1 in
      let same = before_quota-Quiet dp pr t c clock headers protocol payload s in
      let on = try_acquire c.key_id c.project_id (key_limits c) (project_limits c) clock.admitted in
      (model, within, (l, ap on (sym same) ∙ el))
