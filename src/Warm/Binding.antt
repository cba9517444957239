-- ===== src/Warm/Binding.antt =====
-- `RedisBindingStore::get` and `purge_expired`, whose commands run one after the other.
use smart_gate.Base.{
  Bool, List, Option, Text, [], false, if◌then◌else◌, leb, max, none, not, some, ℕ, ◌&&◌, ◌+◌, ◌==◌,
  ◌∷◌,
}
use smart_gate.Warm.Script.{BindingHash, Keyed, Server, expire, present}

pub data Lookup : Type 0 where
  model : Option Text → Lookup
  stale : Lookup

-- `max_lifetime.is_some_and(|lifetime| now.saturating_sub(created_at) >= lifetime)`
abbrev pub outlived : ℕ → Option ℕ → ℕ → Bool
outlived now none created_at = false
outlived now (some lifetime) created_at = leb (created_at + lifetime) now

abbrev pub created_or : ℕ → Option ℕ → ℕ
created_or now none = now
created_or now (some at) = at

abbrev pub differs : Option ℕ → Option ℕ → Bool
differs (some a) (some b) = not (a == b)
differs none b = false
differs (some a) none = false

-- A binding without an epoch takes the one of the prefix.
unfoldable pub adopt_epoch : Option ℕ → BindingHash → BindingHash
adopt_epoch expected b = elim b.epoch [ none ↦ record b { epoch = expected } | some e ↦ b ]

unfoldable pub touch : ℕ → Option ℕ → Keyed BindingHash → Keyed BindingHash
touch now none k = record k { value = record (k.value) { last_accessed_at = some now } }
touch now (some ttl) k = record (expire now (max ttl 1) k) {
  value = record (k.value) { last_accessed_at = some now };
}

abbrev touch_bound : ℕ → Option ℕ → Keyed BindingHash → Keyed BindingHash
touch_bound now idle_ttl k = elim (k.value.virtual_model_id) [
  | none ↦ k
  | some m ↦ touch now idle_ttl k
]

unfoldable pub get_found :
    (now : ℕ) (idle_ttl max_lifetime expected_epoch : Option ℕ) (reject_stale_epoch : Bool)
    → Keyed BindingHash
    → Option (Keyed BindingHash) × Lookup
unfolding adopt_epoch touch
get_found now idle_ttl max_lifetime expected reject k =
    let adopted = record k { value = adopt_epoch expected k.value } in
    if outlived now max_lifetime (created_or now k.value.created_at)
    then (none, model none)
    else if reject && differs k.value.epoch expected
    then (some adopted, stale)
    else (some (touch_bound now idle_ttl adopted), model k.value.virtual_model_id)

unfoldable pub get_binding :
    (now : ℕ) (idle_ttl max_lifetime expected_epoch : Option ℕ) (reject_stale_epoch : Bool)
    → Server
    → Server × Lookup
unfolding present get_found
get_binding now idle_ttl max_lifetime expected reject s =
    elim (present now s.binding_key) as (λ _. Server × Lookup) [
      | none ↦ (record s { binding_key = none }, model none)
      | some k ↦
          let (kept, found) = get_found now idle_ttl max_lifetime expected reject k in
          (record s { binding_key = kept }, found)
    ]

abbrev outlived_at : ℕ → Option ℕ → Option ℕ → Bool
outlived_at now lifetime none = false
outlived_at now lifetime (some at) = outlived now lifetime at

-- The bindings that a purge deletes, and their number.
unfoldable pub purge_bindings :
    ℕ → Option ℕ → List (Keyed BindingHash) → List (Keyed BindingHash) × ℕ
purge_bindings now lifetime [] = ([], 0)
purge_bindings now lifetime (k ∷ ks) =
    let (kept, removed) = purge_bindings now lifetime ks in
    if outlived_at now lifetime k.value.created_at then (kept, removed + 1) else (k ∷ kept, removed)
