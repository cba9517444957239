-- ===== src/Proxy/Preview.antt =====
-- src/api/shadow.rs: the preview of an answer, and the similarity of two. `lowercase` is
-- `str::to_lowercase`.
use smart_gate.Base.{
  Bool, List, Option, Text, Text-discrete, [], codes, false, if◌then◌else◌, ite, length, ltb, map,
  map_option, none, some, true, ℕ, ◌&&◌, ◌+◌, ◌-◌, ◌==◌, ◌∷◌,
}
use smart_gate.Float.{Float, whole}
use smart_gate.Base.Map.{or_else}
use smart_gate.Context.Json.{Items, Value, as_array, as_str, cons, get, get_str, nil}
use smart_gate.Context.Slim.{is_text}
use smart_gate.Context.Text.{len, split_whitespace, take}
use smart_gate.Difficulty.Focus.{join_lines}
use smart_gate.Session.Ids.{and_then, or_option}
use smart_gate.Proxy.Judge.{first_item}

abbrev pub preview_chars : ℕ
preview_chars = 500

abbrev add_some : Option Text → List Text → List Text
add_some none ts = ts
add_some (some t) ts = t ∷ ts

-- The texts of all parts, and of those of type "text".
unfoldable pub part_texts : Items → List Text
unfolding get_str
part_texts nil = []
part_texts (cons p ps) = add_some (get_str (codes "text") p) (part_texts ps)

unfoldable pub typed_texts : Items → List Text
unfolding get_str
typed_texts nil = []
typed_texts (cons p ps) =
    let rest = typed_texts ps in
    if is_text (get_str (codes "type") p) (codes "text")
    then add_some (get_str (codes "text") p) rest
    else rest

abbrev joined : List Text → Option Text
joined [] = none
joined (t ∷ ts) = some (join_lines (t ∷ ts))

abbrev texts_of : (Items → List Text) → Option Value → List Text
texts_of f v = or_else (map_option f (and_then v as_array)) []

unfoldable pub assistant_text : Value → Option Text
unfolding get as_array as_str part_texts typed_texts
assistant_text value =
    let choice = first_item (and_then (get (codes "choices") value) as_array) in
    let content = and_then (and_then choice (get (codes "message"))) (get (codes "content")) in
    or_option (and_then content as_str) (
      or_option (joined (texts_of part_texts content))
        (joined (texts_of typed_texts (get (codes "content") value))))

unfoldable pub extract_json_preview : Value → Text
unfolding assistant_text len take
extract_json_preview value =
    let content = or_else (assistant_text value) [] in
    if ltb preview_chars (len content) then take preview_chars content else content

abbrev pub is_member : Text → List Text → Bool
is_member t [] = false
is_member t (u ∷ us) = ite (Text-discrete t u) true (is_member t us)

-- A `HashSet` of words, as a list without repetition.
unfoldable pub distinct : List Text → List Text
distinct [] = []
distinct (w ∷ ws) = let rest = distinct ws in if is_member w rest then rest else w ∷ rest

unfoldable pub shared : List Text → List Text → ℕ
shared [] vs = 0
shared (w ∷ ws) vs = (if is_member w vs then 1 else 0) + shared ws vs

abbrev is_none_left : List Text → Bool
is_none_left [] = true
is_none_left (w ∷ ws) = false

module _ (lowercase : Text → Text) where
  abbrev pub words : Text → List Text
  words t = distinct (map lowercase (split_whitespace t))

module _ {F : Type 0} ⦃f : Float F⦄ (lowercase : Text → Text) where
  abbrev ratio : ℕ → ℕ → F
  ratio i u = if u == 0 then whole 0 else f.div (f.of_nat i) (f.of_nat u)

  -- The union has what both sets have but once.
  unfoldable pub jaccard_similarity : Text → Text → F
  unfolding distinct shared split_whitespace
  jaccard_similarity a b =
      let set_a = words lowercase a in
      let set_b = words lowercase b in
      let common = shared set_a set_b in
      if is_none_left set_a && is_none_left set_b
      then whole 1
      else ratio common (length set_a + length set_b - common)
