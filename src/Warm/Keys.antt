-- ===== src/Warm/Keys.antt =====
-- The namespace of a session: which project and key it belongs to.
use smart_gate.Base.{
  All, Text, [], ap, append_assoc, arith, codes, refl, sym, ℕ, ◌++◌, ◌<◌, ◌^◌, ◌∙◌, ◌∷◌, ◌≡◌,
}
use smart_gate.Context.Text.{len, to_decimal, utf8_width}
use smart_gate.Warm.Decimal.{IsDigit, to_decimal-IsDigit, to_decimal-injective}

pub record SessionKey : Type 0 where
  pub project_id : Text
  pub api_key_id : Text
  pub session_id : Text

unfoldable pub encode_namespace_component : Text → Text
encode_namespace_component value = to_decimal (len value) ++ (codes ":" ++ value)

unfoldable pub namespace_of : SessionKey → Text
unfolding encode_namespace_component
namespace_of key =
    codes "smartgate:v1:"
    ++ (encode_namespace_component key.project_id
        ++ (codes ":" ++ encode_namespace_component key.api_key_id))

-- `new_key` is the constructor of the session library's key.
unfoldable pub gateway_key : {K : Type 0} → (Text → Text → K) → SessionKey → K
unfolding namespace_of
gateway_key new_key key = new_key (namespace_of key) key.session_id

abbrev IsUsize : Text → Type 0
IsUsize t = len t < 2 ^ 64

append-cancel : (p s t : Text) → p ++ s ≡ p ++ t → s ≡ t
append-cancel [] s t h = h
append-cancel (c ∷ p) s t h = append-cancel p s t cc

-- What stands before the first colon, and after it.
at_colon :
    (a b s t : Text) → All IsDigit a → All IsDigit b → a ++ 58 ∷ s ≡ b ++ 58 ∷ t → (a ≡ b) × (s ≡ t)
at_colon [] [] s t ha hb e = (refl, cc)
at_colon [] (c ∷ b) s t ha hb e = absurd (let q : 58 ≡ c = cc in omega arith)
at_colon (c ∷ a) [] s t ha hb e = absurd (let q : c ≡ 58 = cc in omega arith)
at_colon (c ∷ a) (d ∷ b) s t (hc, ha) (hd, hb) e =
    let (same, rest) = at_colon a b s t ha hb cc in (cc, rest)

width_pos : (c : ℕ) → 0 < utf8_width c
unfolding utf8_width
width_pos c = ground arith

-- Two texts of one length at the front of one text are one.
same_front : (p q s t : Text) → len p ≡ len q → p ++ s ≡ q ++ t → (p ≡ q) × (s ≡ t)
unfolding len
same_front [] [] s t l e = (refl, e)
same_front [] (c ∷ q) s t l e = absurd (let w = width_pos c in omega arith)
same_front (c ∷ p) [] s t l e = absurd (let w = width_pos c in omega arith)
same_front (c ∷ p) (d ∷ q) s t l e =
    let head : c ≡ d = cc in
    let (same, rest) = same_front p q s t (let w = ap utf8_width head in omega arith) cc in
    (cc, rest)

front_component :
    (p q s t : Text)
    → IsUsize p
    → IsUsize q
    → to_decimal (len p) ++ 58 ∷ (p ++ s) ≡ to_decimal (len q) ++ 58 ∷ (q ++ t)
    → (p ≡ q) × (s ≡ t)
front_component p q s t hp hq e =
    let (digits, rest) =
      at_colon (to_decimal (len p)) (to_decimal (len q)) (p ++ s) (q ++ t)
        (to_decimal-IsDigit (len p)) (to_decimal-IsDigit (len q)) e in
    same_front p q s t (to_decimal-injective (len p) (len q) hp hq digits) rest

last_component : (p q : Text) → encode_namespace_component p ≡ encode_namespace_component q → p ≡ q
unfolding encode_namespace_component
last_component p q e =
    (at_colon (to_decimal (len p)) (to_decimal (len q)) p q (to_decimal-IsDigit (len p))
      (to_decimal-IsDigit (len q)) e).1

-- The namespace with the colons in the open.
spread :
    (p k : Text)
    → encode_namespace_component p ++ (codes ":" ++ encode_namespace_component k)
      ≡ to_decimal (len p) ++ 58 ∷ (p ++ (58 ∷ encode_namespace_component k))
unfolding encode_namespace_component
spread p k = append_assoc (to_decimal (len p)) (58 ∷ p) (58 ∷ encode_namespace_component k)

namespace_of-injective :
    (a b : SessionKey)
    → IsUsize a.project_id
    → IsUsize b.project_id
    → namespace_of a ≡ namespace_of b
    → (a.project_id ≡ b.project_id) × (a.api_key_id ≡ b.api_key_id)
unfolding namespace_of
namespace_of-injective a b ha hb e =
    let open_ends =
      sym (spread a.project_id a.api_key_id)
      ∙ (append-cancel (codes "smartgate:v1:")
            (encode_namespace_component a.project_id
              ++ (codes ":" ++ encode_namespace_component a.api_key_id))
            (encode_namespace_component b.project_id
              ++ (codes ":" ++ encode_namespace_component b.api_key_id))
            e
          ∙ spread b.project_id b.api_key_id) in
    let (project, rest) =
      front_component a.project_id b.project_id (58 ∷ encode_namespace_component a.api_key_id)
        (58 ∷ encode_namespace_component b.api_key_id) ha hb open_ends in
    (project, last_component a.api_key_id b.api_key_id cc)

-- If the session library keeps both parts of a key apart, no two keys of SmartGate meet in one: a
-- client never reaches the session of another project or API key, whatever the ids contain. The ids of the
-- project and of the API key have lengths below 2^64.
pub gateway_key-injective :
    {K : Type 0} (new_key : Text → Text → K)
    → ((n s m t : Text) → new_key n s ≡ new_key m t → (n ≡ m) × (s ≡ t))
    → (a b : SessionKey) → len a.project_id < 2 ^ 64
    → len b.project_id < 2 ^ 64
    → gateway_key new_key a ≡ gateway_key new_key b
    → a ≡ b
unfolding gateway_key
gateway_key-injective new_key keeps a b ha hb e =
    let (space, session) = keeps (namespace_of a) a.session_id (namespace_of b) b.session_id e in
    let (project, api_key) = namespace_of-injective a b ha hb space in cc
