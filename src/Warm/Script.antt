-- ===== src/Warm/Script.antt =====
-- The scripts that run on the Redis server, and `RedisBindingStore`. A script is one step of the
-- server; times are whole seconds. A key of the server may end by itself, at a time set by EXPIRE.
-- An epoch is a natural number; in Lua it is a double, which is the same below 2^53.
pub mod Laws
mod Samples
use smart_gate.Base.{
  Bool, Option, Text, Text-discrete, [], false, if◌then◌else◌, ite, leb, ltb, none, not, some, true,
  ℕ, ◌&&◌, ◌+◌, ◌-◌, ◌==◌, ◌∷◌, ◌||◌,
}

-- The hash of a session's prefix, which the script writes whole.
pub record PrefixHash : Type 0 where
  pub epoch : ℕ
  pub prefix : Text
  pub created_at : ℕ
  pub last_accessed_at : ℕ

-- The hash of its binding. `get` may write a field of it.
pub record BindingHash : Type 0 where
  pub virtual_model_id : Option Text
  pub epoch : Option ℕ
  pub created_at : Option ℕ
  pub last_accessed_at : Option ℕ

pub record Keyed (A : Type 0) : Type 0 where
  pub value : A
  pub expires_at : Option ℕ

-- The two keys of one session.
pub record Server : Type 0 where
  pub prefix_key : Option (Keyed PrefixHash)
  pub binding_key : Option (Keyed BindingHash)

abbrev pub ended : ℕ → Option ℕ → Bool
ended now none = false
ended now (some at) = leb at now

unfoldable pub present : {A : Type 0} → ℕ → Option (Keyed A) → Option (Keyed A)
present now none = none
present now (some k) = if ended now k.expires_at then none else some k

-- EXPIRE under a positive number of seconds; a written key keeps the end that it had.
abbrev pub expire : {A : Type 0} → ℕ → ℕ → Keyed A → Keyed A
expire now idle_ttl k =
    if ltb 0 idle_ttl then record k { expires_at = some (now + idle_ttl) } else k

abbrev pub end_of : {A : Type 0} → Option (Keyed A) → Option ℕ
end_of none = none
end_of (some k) = k.expires_at

pub data ScriptResult : Type 0 where
  created replaced already_current : ScriptResult
  stale_epoch epoch_conflict binding_conflict : ScriptResult

pub record Call : Type 0 where
  pub epoch : ℕ
  pub prefix_json : Text
  pub now : ℕ
  pub idle_ttl : ℕ
  pub max_lifetime : ℕ
  -- Empty for none.
  pub virtual_model : Text

unfoldable pub lapsed : Call → PrefixHash → Bool
lapsed c p =
    (ltb 0 c.max_lifetime && leb c.max_lifetime (c.now - p.created_at))
    || (ltb 0 c.idle_ttl && leb c.idle_ttl (c.now - p.last_accessed_at))

abbrev is_blank : Text → Bool
is_blank [] = true
is_blank (c ∷ t) = false

-- What the script sees: keys that have ended are gone, and those of a lapsed session are deleted.
unfoldable pub drop_lapsed : Call → Option (Keyed PrefixHash) → Option (Keyed BindingHash) → Server
unfolding lapsed
drop_lapsed c none b = record { prefix_key = none; binding_key = b }
drop_lapsed c (some p) b =
    if lapsed c p.value
    then record { prefix_key = none; binding_key = none }
    else record { prefix_key = some p; binding_key = b }

unfoldable pub seen : Call → Server → Server
unfolding present drop_lapsed
seen c s = drop_lapsed c (present c.now s.prefix_key) (present c.now s.binding_key)

abbrev pub model_of : Option (Keyed BindingHash) → Option Text
model_of none = none
model_of (some b) = b.value.virtual_model_id

unfoldable pub conflicts : Option Text → Text → Bool
conflicts none vm = false
conflicts (some model) vm = not (is_blank vm) && not (ite (Text-discrete model vm) true false)

-- The result by the stored prefix.
unfoldable pub verdict : Call → Option (Keyed PrefixHash) → ScriptResult
verdict c none = created
verdict c (some p) =
    if ltb c.epoch p.value.epoch
    then stale_epoch
    else if c.epoch == p.value.epoch
    then ite (Text-discrete p.value.prefix c.prefix_json) already_current epoch_conflict
    else replaced

abbrev pub created_at_of : ℕ → Option (Keyed PrefixHash) → ScriptResult → ℕ
created_at_of now (some p) already_current = p.value.created_at
created_at_of now _ _ = now

unfoldable pub write_prefix : Call → ℕ → Option (Keyed PrefixHash) → Keyed PrefixHash
write_prefix c born old = expire c.now c.idle_ttl (record {
  value = record {
    epoch = c.epoch;
    prefix = c.prefix_json;
    created_at = born;
    last_accessed_at = c.now;
  };
  expires_at = end_of old;
})

unfoldable pub write_binding : Call → ℕ → Text → Option (Keyed BindingHash) → Keyed BindingHash
write_binding c born model old = expire c.now c.idle_ttl (record {
  value = record {
    virtual_model_id = some model;
    epoch = some c.epoch;
    created_at = some born;
    last_accessed_at = some c.now;
  };
  expires_at = end_of old;
})

abbrev pub rebind : Call → ℕ → Option Text → Option (Keyed BindingHash) → Option (Keyed BindingHash)
rebind c born none old =
    if is_blank c.virtual_model then old else some (write_binding c born c.virtual_model old)
rebind c born (some model) old =
    if is_blank c.virtual_model
    then some (write_binding c born model old)
    else some (write_binding c born c.virtual_model old)

unfoldable pub write : Call → Server → ScriptResult → Server
unfolding write_prefix write_binding
write c s result =
    let born = created_at_of c.now s.prefix_key result in
    record {
      prefix_key = some (write_prefix c born s.prefix_key);
      binding_key = rebind c born (model_of s.binding_key) s.binding_key;
    }

unfoldable pub settle : Call → Server → ScriptResult → Server × ScriptResult
unfolding write
settle c s stale_epoch = (s, stale_epoch)
settle c s epoch_conflict = (s, epoch_conflict)
settle c s binding_conflict = (s, binding_conflict)
settle c s created = (write c s created, created)
settle c s replaced = (write c s replaced, replaced)
settle c s already_current = (write c s already_current, already_current)

unfoldable pub publish_seen : Call → Server → Server × ScriptResult
unfolding conflicts verdict settle
publish_seen c t =
    if conflicts (model_of t.binding_key) c.virtual_model
    then (t, binding_conflict)
    else settle c t (verdict c t.prefix_key)

unfoldable pub publish_script : Call → Server → Server × ScriptResult
unfolding seen publish_seen
publish_script c s = publish_seen c (seen c s)

unfoldable pub delete_script : Server → Server
delete_script s = record { prefix_key = none; binding_key = none }
