-- ===== src/Quota/Counters.antt =====
-- src/quota/mod.rs: the counters of active requests. Each compare-and-swap loop is one step here;
-- Interleaving.antt has the loop with other threads between its load and its swap.
use smart_gate.Base.{
  Bool, Text, Text-discrete, arith, false, if◌then◌else◌, ite, leb, none, some, true, ℕ, ◌+◌, ◌-◌,
  ◌<◌, ◌==◌, ◌≡◌, ◌≤◌,
}
use smart_gate.Base.Map.{Map, or_else, put}

unfoldable pub try_inc_concurrency : Map Text ℕ → Text → ℕ → Map Text ℕ × Bool
try_inc_concurrency m id limit =
    let cur = or_else (m id) 0 in
    if leb limit cur
    then (put Text-discrete m id (some cur), false)
    else (put Text-discrete m id (some (cur + 1)), true)

unfoldable pub dec_concurrency : Map Text ℕ → Text → Map Text ℕ
dec_concurrency m id = elim (m id) [
  | none ↦ m
  | some cur ↦ if cur == 0 then m else put Text-discrete m id (some (cur - 1))
]

-- The requests that an id has in flight.
abbrev pub active : Map Text ℕ → Text → ℕ
active m id = or_else (m id) 0

-- One slot at `id`, none elsewhere.
abbrev pub slot : Text → Text → ℕ
slot id j = ite (Text-discrete id j) 1 0

abbrev pub Increments : Map Text ℕ → Text → ℕ → Map Text ℕ × Bool → Type 0
Increments m id limit (m', true) =
    (active m id < limit) × ((j : Text) → active m' j ≡ active m j + slot id j)
Increments m id limit (m', false) = (limit ≤ active m id) × ((j : Text) → active m' j ≡ active m j)

pub try_inc_concurrency-Increments :
    (m : Map Text ℕ) (id : Text) (limit : ℕ)
    → Increments m id limit (try_inc_concurrency m id limit)
unfolding try_inc_concurrency put
try_inc_concurrency-Increments m id limit = ground arith

pub active-dec_concurrency :
    (m : Map Text ℕ) (id j : Text) → active (dec_concurrency m id) j ≡ active m j - slot id j
unfolding dec_concurrency put
active-dec_concurrency m id j = ground arith
