-- ===== src/Base/Headers.antt =====
-- HTTP headers: one is present or not, and its value may be no text. And maps of text.
use smart_gate.Base.{Option, Text, Text-discrete, none, some}
use smart_gate.Base.Map.{Map, put}

abbrev pub Headers : Type 0
Headers = Map Text (Option Text)

abbrev pub header_text : Option (Option Text) → Option Text
header_text none = none
header_text (some v) = v

-- `insert` of a `HashMap<String, String>`
abbrev pub insert : Text → Text → Map Text Text → Map Text Text
insert key value m = put Text-discrete m key (some value)
