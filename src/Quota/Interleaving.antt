-- ===== src/Quota/Interleaving.antt =====
-- src/quota/mod.rs: the compare-and-swap loops of the two counters, with other threads between their
-- load and their swap. `others` is what those threads do to the counter, one write per round of the
-- loop; a round past the last write finds the counter as it loaded it.
use smart_gate.Base.{
  Bool, Bool-cases, List, Option, Text, Text-discrete, [], arith, false, if◌then◌else◌, inl, inr,
  leb, length, none, some, suc, true, zero, ℕ, ℕ_discrete, ◌+◌, ◌-◌, ◌<◌, ◌==◌, ◌∷◌, ◌≡◌,
}
use smart_gate.Base.Map.{Map, put}
use smart_gate.Quota.Counters.{active, dec_concurrency, try_inc_concurrency}

abbrev pub Writes : Type 0
Writes = List (ℕ → ℕ)

-- The counter after the writes of one round, and the rounds left.
abbrev pub meantime : Writes → ℕ → ℕ × Writes
meantime [] cell = (cell, [])
meantime (f ∷ fs) cell = (f cell, fs)

-- The counter, what the call returns, and the writes that are still to come.
unfoldable pub try_inc_loop : (fuel : ℕ) → Writes → (limit cell : ℕ) → Option ((ℕ × Bool) × Writes)
try_inc_loop zero others limit cur = none
try_inc_loop (suc fuel) others limit cur =
    let (cell, rest) = meantime others cur in
    let again = try_inc_loop fuel rest limit cell in
    if leb limit cur
    then some ((cur, false), others)
    else if cell == cur
    then some ((cur + 1, true), rest)
    else again

unfoldable pub dec_loop : (fuel : ℕ) → Writes → (cell : ℕ) → Option (ℕ × Writes)
dec_loop zero others cur = none
dec_loop (suc fuel) others cur =
    let (cell, rest) = meantime others cur in
    let again = dec_loop fuel rest cell in
    if cur == 0 then some (0, others) else if cell == cur then some (cur - 1, rest) else again

-- The counter after the first `n` writes, and the writes after those.
unfoldable pub after : ℕ → Writes → ℕ → ℕ × Writes
after zero fs cell = (cell, fs)
after (suc n) [] cell = (cell, [])
after (suc n) (f ∷ fs) cell = after n fs (f cell)

-- What a call that is one step leaves at `id`, and returns.
abbrev pub landed : Text → Map Text ℕ × Bool → ℕ × Bool
landed id (m, took) = (active m id, took)

module _ (m : Map Text ℕ) (id : Text) where
  -- A map whose counter at `id` is the given one.
  abbrev pub holding : ℕ → Map Text ℕ
  holding cell = put Text-discrete m id (some cell)

  abbrev pub inc_step : ℕ → ℕ → ℕ × Bool
  inc_step limit cell = landed id (try_inc_concurrency (holding cell) id limit)

  abbrev pub dec_step : ℕ → ℕ
  dec_step cell = active (dec_concurrency (holding cell) id) id

  inc_step-eq :
      (limit cell : ℕ)
      → inc_step limit cell ≡ (if leb limit cell then (cell, false) else (cell + 1, true))
  unfolding try_inc_concurrency put
  inc_step-eq limit cell = ground arith

  dec_step-eq : (cell : ℕ) → dec_step cell ≡ cell - 1
  unfolding dec_concurrency put
  dec_step-eq cell = ground arith

  -- The one step on the counter as the first `n` writes leave it.
  abbrev pub incremented : ℕ × Writes → ℕ → (ℕ × Bool) × Writes
  incremented (cell, rest) limit = (inc_step limit cell, rest)

  abbrev pub decremented : ℕ × Writes → ℕ × Writes
  decremented (cell, rest) = (dec_step cell, rest)

  try_inc_loop_ends :
      (fuel : ℕ) (others : Writes) (limit cell : ℕ)
      → length others < fuel
      → (n : ℕ) × (try_inc_loop fuel others limit cell
          ≡ some (incremented (after n others cell) limit))
  unfolding try_inc_loop after
  try_inc_loop_ends zero others limit cell h = absurd (omega arith)
  try_inc_loop_ends (suc fuel) [] limit cell h = (0, rw (inc_step-eq limit cell) (ground arith))
  try_inc_loop_ends (suc fuel) (f ∷ fs) limit cell h = elim (Bool-cases (leb limit cell)) [
    | inl full ↦ (0, rw (inc_step-eq limit cell) (ground (arith, full)))
    | inr free ↦ elim (ℕ_discrete (f cell) cell) [
      | yes same ↦ (1, rw (same, inc_step-eq limit cell) (ground (arith, free, same)))
      | no other ↦
          let (n, e) = try_inc_loop_ends fuel fs limit (f cell) (omega arith) in
          (suc n, ground (arith, free, other, e))
    ]
  ]

  dec_loop_ends :
      (fuel : ℕ) (others : Writes) (cell : ℕ)
      → length others < fuel
      → (n : ℕ) × (dec_loop fuel others cell ≡ some (decremented (after n others cell)))
  unfolding dec_loop after
  dec_loop_ends zero others cell h = absurd (omega arith)
  dec_loop_ends (suc fuel) [] cell h = (0, rw (dec_step-eq cell) (ground arith))
  dec_loop_ends (suc fuel) (f ∷ fs) cell h = elim (ℕ_discrete cell 0) [
    | yes z ↦ (0, rw (dec_step-eq cell) (ground (arith, z)))
    | no nz ↦ elim (ℕ_discrete (f cell) cell) [
      | yes same ↦ (1, rw (same, dec_step-eq cell) (ground (arith, nz, same)))
      | no other ↦
          let (n, e) = dec_loop_ends fuel fs (f cell) (omega arith) in
          (suc n, ground (arith, other, e, nz))
    ]
  ]

  -- With more fuel than the other threads make writes, both loops end. A number of those writes
  -- comes before the call and the others after it, and the outcome is that of the one step of
  -- `try_inc_concurrency`, or of `dec_concurrency`, between them: no write is lost.
  pub loops_end :
      (fuel : ℕ) (others : Writes) (limit cell : ℕ)
      → length others < fuel
      → ((n : ℕ) × (try_inc_loop fuel others limit cell
            ≡ some (incremented (after n others cell) limit)))
        × ((n : ℕ) × (dec_loop fuel others cell ≡ some (decremented (after n others cell))))
  loops_end fuel others limit cell h =
      (try_inc_loop_ends fuel others limit cell h, dec_loop_ends fuel others cell h)
