-- ===== src/FreePool/Window.antt =====
-- The times of the claims of each address in the last hour, in nanoseconds, oldest first.
use smart_gate.Base.{
  Bool, List, Option, Text, Text-discrete, [], codes, false, if◌then◌else◌, leb, length, none, some,
  true, ℕ, ◌*◌, ◌++◌, ◌-◌, ◌==◌, ◌∷◌,
}
use smart_gate.Base.Map.{Map, or_else, put}
use smart_gate.Base.Headers.{Headers}
use smart_gate.Context.Text.{is_empty, trim}

abbrev pub window : ℕ
window = 3600 * 1_000_000_000

-- `while queue.front().is_some_and(…) { queue.pop_front(); }`
unfoldable pub pop_old : ℕ → List ℕ → List ℕ
pop_old now [] = []
pop_old now (t ∷ queue) =
    let rest = pop_old now queue in if leb window (now - t) then rest else t ∷ queue

abbrev pub Tracker : Type 0
Tracker = Map Text (List ℕ)

abbrev pub queue_of : Tracker → Text → List ℕ
queue_of m ip = or_else (m ip) []

unfoldable pub check_and_record_ip_claim :
    Tracker → Text → (limit_per_hour now : ℕ) → Tracker × Bool
unfolding pop_old
check_and_record_ip_claim m ip limit now =
    let queue = pop_old now (queue_of m ip) in
    if leb limit (length queue)
    then (put Text-discrete m ip (some queue), false)
    else (put Text-discrete m ip (some (queue ++ now ∷ [])), true)

-- The first of two that is given.
abbrev pub or_header : Option (Option Text) → Option (Option Text) → Option (Option Text)
or_header none h = h
or_header (some v) h = some v

-- `split(',').next()`
unfoldable pub before_comma : Text → Text
before_comma [] = []
before_comma (c ∷ t) = let rest = before_comma t in if c == 44 then [] else c ∷ rest

abbrev pub local_address : Text
local_address = codes "127.0.0.1"

abbrev pub address_or : Text → Text
address_or s = if is_empty s then local_address else s

abbrev pub address_of : Option (Option Text) → Text
address_of none = local_address
address_of (some none) = local_address
address_of (some (some s)) = address_or (trim (before_comma s))

unfoldable pub extract_client_ip : Headers → Text
unfolding before_comma trim
extract_client_ip headers = address_of (
    or_header (headers (codes "cf-connecting-ip"))
      (or_header (headers (codes "x-real-ip")) (headers (codes "x-forwarded-for"))))
