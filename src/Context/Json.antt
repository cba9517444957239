-- ===== src/Context/Json.antt =====
-- `serde_json::Value`. A number that is no `u64` is kept as its text.
use smart_gate.Base.{
  Bool, Option, Text, Text-discrete, arith, if_neg, if_pos, ite, none, refl, some, ℕ, ◌∙◌, ◌≡◌, ◌≢◌,
}

mutual
  pub data Value : Type 0 where
    null : Value
    bool : Bool → Value
    uint : ℕ → Value
    number : Text → Value
    str : Text → Value
    arr : Items → Value
    obj : Fields → Value

  pub data Items : Type 0 where
    nil : Items
    cons : Value → Items → Items

  pub data Fields : Type 0 where
    end : Fields
    field : Text → Value → Fields → Fields

unfoldable pub get_field : Text → Fields → Option Value
get_field k end = none
get_field k (field j v fs) = ite (Text-discrete j k) (some v) (get_field k fs)

unfoldable pub get : Text → Value → Option Value
unfolding get_field
get k (obj fs) = get_field k fs
get k null = none
get k (bool b) = none
get k (uint n) = none
get k (number t) = none
get k (str t) = none
get k (arr xs) = none

unfoldable pub as_str : Value → Option Text
as_str (str t) = some t
as_str null = none
as_str (bool b) = none
as_str (uint n) = none
as_str (number t) = none
as_str (arr xs) = none
as_str (obj fs) = none

unfoldable pub as_array : Value → Option Items
as_array (arr xs) = some xs
as_array null = none
as_array (bool b) = none
as_array (uint n) = none
as_array (number t) = none
as_array (str t) = none
as_array (obj fs) = none

-- `v[k] = x` on an object: overwrite the field, or add it.
unfoldable pub set_field : Text → Value → Fields → Fields
set_field k x end = field k x end
set_field k x (field j v fs) = ite (Text-discrete j k) (field j x fs) (field j v (set_field k x fs))

unfoldable pub set : Text → Value → Value → Value
unfolding set_field
set k x (obj fs) = obj (set_field k x fs)
set k x null = null
set k x (bool b) = bool b
set k x (uint n) = uint n
set k x (number t) = number t
set k x (str t) = str t
set k x (arr xs) = arr xs

unfoldable pub bind {ℓ} : {A B : Type ℓ} → Option A → (A → Option B) → Option B
bind none g = none
bind (some a) g = g a

-- `v.get(k).and_then(|x| x.as_str())`
unfoldable pub get_str : Text → Value → Option Text
unfolding get as_str bind
get_str k v = bind (get k v) as_str

get_field-set_field :
    (k j : Text) (x : Value) (fs : Fields)
    → get_field j (set_field k x fs) ≡ ite (Text-discrete k j) (some x) (get_field j fs)
unfolding get_field set_field
get_field-set_field k j x end = refl
get_field-set_field k j x (field i v fs) = ground (arith, get_field-set_field k j x fs)

-- An object reads what was written, and elsewhere what it had.
pub get-set_ne : (k j : Text) (x v : Value) → k ≢ j → get j (set k x v) ≡ get j v
unfolding get set
get-set_ne k j x (obj fs) h =
    get_field-set_field k j x fs ∙ if_neg (Text-discrete k j) h (some x) (get_field j fs)
get-set_ne k j x null h = refl
get-set_ne k j x (bool b) h = refl
get-set_ne k j x (uint n) h = refl
get-set_ne k j x (number t) h = refl
get-set_ne k j x (str t) h = refl
get-set_ne k j x (arr xs) h = refl

pub get-set_self : (k : Text) (x v w : Value) → get k v ≡ some w → get k (set k x v) ≡ some x
unfolding get set
get-set_self k x (obj fs) w h =
    get_field-set_field k k x fs ∙ if_pos (Text-discrete k k) refl (some x) (get_field k fs)
get-set_self k x null w h = cc
get-set_self k x (bool b) w h = cc
get-set_self k x (uint n) w h = cc
get-set_self k x (number t) w h = cc
get-set_self k x (str t) w h = cc
get-set_self k x (arr xs) w h = cc
