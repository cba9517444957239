-- ===== src/Warm/Script/Laws.antt =====
-- A session on the server, through the publications that find it alive.
use smart_gate.Base.{
  Bool, Bool-cases, Option, Text, arith, false, inl, inr, none, refl, some, true, ℕ, ◌∙◌, ◌≡◌, ◌≢◌,
  ◌≤◌,
}
use smart_gate.Warm.Script.{
  BindingHash, Call, Keyed, PrefixHash, ScriptResult, Server, already_current, binding_conflict,
  conflicts, created, created_at_of, epoch_conflict, model_of, publish_script, publish_seen, rebind,
  replaced, seen, settle, stale_epoch, verdict, write, write_binding, write_prefix,
}

-- No key has ended and the session has not lapsed.
abbrev pub IsLive : Call → Server → Type 0
IsLive c s = seen c s ≡ s

pub data Life (s : Server) : Server → Type 0 where
  same : Life s s
  published : {t : Server} (c : Call) → Life s t → IsLive c t → Life s (publish_script c t).0

-- The stored epoch does not fall, one epoch has one prefix, and a model once bound stays.
abbrev KeepsPrefix : Keyed PrefixHash → Option (Keyed PrefixHash) → Type 0
KeepsPrefix p none = ⊥
KeepsPrefix p (some q) =
    (p.value.epoch ≤ q.value.epoch)
    × (q.value.epoch ≡ p.value.epoch → q.value.prefix ≡ p.value.prefix)

abbrev pub Keeps : Server → Server → Type 0
Keeps s t =
    ((p : Keyed PrefixHash) → s.prefix_key ≡ some p → KeepsPrefix p t.prefix_key)
    × ((model : Text) → model_of s.binding_key ≡ some model → model_of t.binding_key ≡ some model)

Keeps-refl : (s t : Server) → t ≡ s → Keeps s t
Keeps-refl s t e = rw e (λ p h. rw h (omega arith, λ same. refl), λ model h. h)

write_prefix-KeepsPrefix :
    (c : Call) (born : ℕ) (p : Keyed PrefixHash)
    → verdict c (some p) ≢ stale_epoch
    → verdict c (some p) ≢ epoch_conflict
    → KeepsPrefix p (some (write_prefix c born (some p)))
unfolding write_prefix verdict
write_prefix-KeepsPrefix c born p fresh agrees =
    (ground (arith, fresh), λ same_epoch. ground (arith, same_epoch, agrees))

rebind-model :
    (c : Call) (born : ℕ) (old : Option (Keyed BindingHash)) (model : Text)
    → conflicts (some model) c.virtual_model ≡ false
    → model_of old ≡ some model
    → model_of (rebind c born (some model) old) ≡ some model
unfolding conflicts write_binding
rebind-model c born old model ok h = ground (arith, ok, h)

write-Keeps :
    (c : Call) (s : Server) (result : ScriptResult)
    → conflicts (model_of s.binding_key) c.virtual_model ≡ false
    → verdict c s.prefix_key ≢ stale_epoch
    → verdict c s.prefix_key ≢ epoch_conflict
    → Keeps s (write c s result)
unfolding write
write-Keeps c s result ok fresh agrees = (
  λ p h. rw h (
      write_prefix-KeepsPrefix c (created_at_of c.now (some p) result) p (rw h at fresh)
        (rw h at agrees)),
  λ model h.
      rw h (
        rebind-model c (created_at_of c.now s.prefix_key result) s.binding_key model (rw h at ok)
          h),
)

settle-Keeps :
    (c : Call) (s : Server) (result : ScriptResult)
    → conflicts (model_of s.binding_key) c.virtual_model ≡ false
    → verdict c s.prefix_key ≡ result
    → Keeps s (settle c s result).0
unfolding settle
settle-Keeps c s stale_epoch ok e = Keeps-refl s s refl
settle-Keeps c s epoch_conflict ok e = Keeps-refl s s refl
settle-Keeps c s binding_conflict ok e = Keeps-refl s s refl
settle-Keeps c s created ok e = write-Keeps c s created ok (rw e (λ q. cc)) (rw e (λ q. cc))
settle-Keeps c s replaced ok e = write-Keeps c s replaced ok (rw e (λ q. cc)) (rw e (λ q. cc))
settle-Keeps c s already_current ok e =
    write-Keeps c s already_current ok (rw e (λ q. cc)) (rw e (λ q. cc))

publish_script-Keeps : (c : Call) (s : Server) → IsLive c s → Keeps s (publish_script c s).0
unfolding publish_script publish_seen
publish_script-Keeps c s live =
    rw (publish_script, live)
      (elim (Bool-cases (conflicts (model_of s.binding_key) c.virtual_model)) [
        | inl clash ↦ rw clash (Keeps-refl s s refl)
        | inr ok ↦ rw ok (settle-Keeps c s (verdict c s.prefix_key) ok refl)
      ])

KeepsPrefix-trans :
    (p : Keyed PrefixHash) (o r : Option (Keyed PrefixHash))
    → KeepsPrefix p o
    → ((q : Keyed PrefixHash) → o ≡ some q → KeepsPrefix q r)
    → KeepsPrefix p r
KeepsPrefix-trans p none r h k = absurd h
KeepsPrefix-trans p (some q) none h k = k q refl
KeepsPrefix-trans p (some q) (some r) (le, one) k =
    let (le', one') = k q refl in (omega arith, λ e. one' (omega arith) ∙ one (omega arith))

Keeps-trans : (a b c : Server) → Keeps a b → Keeps b c → Keeps a c
Keeps-trans a b c (h, hm) (k, km) = (
  λ p e. KeepsPrefix-trans p b.prefix_key c.prefix_key (h p e) k,
  λ model e. km model (hm model e),
)

-- Whatever is published while a session is alive: its epoch does not fall, its prefix changes only
-- with its epoch, and the model that it is bound to stays.
pub Life-Keeps : (s t : Server) → Life s t → Keeps s t
Life-Keeps s t same = Keeps-refl s s refl
Life-Keeps s t (published {t = b} c life live) =
    Keeps-trans s b (publish_script c b).0 (Life-Keeps s b life) (publish_script-Keeps c b live)

abbrev pub succeeded : ScriptResult → Bool
succeeded created = true
succeeded replaced = true
succeeded already_current = true
succeeded stale_epoch = false
succeeded epoch_conflict = false
succeeded binding_conflict = false

rebind-agrees :
    (c : Call) (born : ℕ) (model : Option Text) (old : Option (Keyed BindingHash))
    → model_of old ≡ model
    → conflicts model c.virtual_model ≡ false
    → conflicts (model_of (rebind c born model old)) c.virtual_model ≡ false
unfolding conflicts write_binding
rebind-agrees c born none old e ok = ground (arith, e, ok)
rebind-agrees c born (some m) old e ok = ground (arith, e, ok)

verdict-write_prefix :
    (c d : Call) (born : ℕ) (old : Option (Keyed PrefixHash))
    → d.epoch ≡ c.epoch
    → d.prefix_json ≡ c.prefix_json
    → verdict d (some (write_prefix c born old)) ≡ already_current
unfolding verdict write_prefix
verdict-write_prefix c d born old e j = ground (arith, e, j)

settle-succeeded :
    (c : Call) (s : Server) (r : ScriptResult)
    → succeeded (settle c s r).1 ≡ true
    → (settle c s r).0 ≡ write c s r
unfolding settle
settle-succeeded c s created h = refl
settle-succeeded c s replaced h = refl
settle-succeeded c s already_current h = refl
settle-succeeded c s stale_epoch h = cc
settle-succeeded c s epoch_conflict h = cc
settle-succeeded c s binding_conflict h = cc

-- What a successful publication has written: the same publication is current, and does not clash.
publish_seen-wrote :
    (c d : Call) (t : Server)
    → succeeded (publish_seen c t).1 ≡ true
    → d.epoch ≡ c.epoch
    → d.prefix_json ≡ c.prefix_json
    → (verdict d (publish_seen c t).0.prefix_key ≡ already_current)
      × (conflicts (model_of (publish_seen c t).0.binding_key) c.virtual_model ≡ false)
unfolding publish_seen write
publish_seen-wrote c d t h e j =
    elim (Bool-cases (conflicts (model_of t.binding_key) c.virtual_model)) [
      | inl clash ↦ absurd (let k : succeeded binding_conflict ≡ true = rw clash at h in cc)
      | inr ok ↦
          let r = verdict c t.prefix_key in
          let wrote = settle-succeeded c t r (rw ok at h) in
          rw (ok, wrote)
            (
              verdict-write_prefix c d (created_at_of c.now t.prefix_key r) t.prefix_key e j,
              rebind-agrees c (created_at_of c.now t.prefix_key r) (model_of t.binding_key)
                  t.binding_key refl ok,
            )
    ]

again :
    (d : Call) (t : Server)
    → IsLive d t
    → verdict d t.prefix_key ≡ already_current
    → conflicts (model_of t.binding_key) d.virtual_model ≡ false
    → (publish_script d t).1 ≡ already_current
unfolding publish_script publish_seen settle
again d t live current agrees = rw (publish_script, live) (rw (agrees, current) refl)

-- A publication that succeeded can be sent again while the session is alive: it is found current.
publish_script-again :
    (c d : Call) (s : Server)
    → succeeded (publish_script c s).1 ≡ true
    → d.epoch ≡ c.epoch
    → d.prefix_json ≡ c.prefix_json
    → d.virtual_model ≡ c.virtual_model
    → IsLive d (publish_script c s).0
    → (publish_script d (publish_script c s).0).1 ≡ already_current
unfolding publish_script
publish_script-again c d s h e j m live =
    let (current, agrees) = publish_seen-wrote c d (seen c s) h e j in
    again d (publish_script c s).0 live current (rw m agrees)
