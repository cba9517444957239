-- ===== src/FreePool/Covers.antt =====
-- The queues of the addresses account for the keys of the last hour.
use smart_gate.Base.{
  Bool, Bool-cases, List, Text, Text-discrete, [], arith, false, if_pos, if◌then◌else◌, inl, inr,
  ite, leb, length, length-append, refl, some, sym, true, ℕ, ◌++◌, ◌+◌, ◌-◌, ◌<◌, ◌∷◌, ◌≡◌, ◌≤◌,
}
use smart_gate.Base.Map.{or_else, put}
use smart_gate.FreePool.Window.{Tracker, check_and_record_ip_claim, pop_old, queue_of, window}

-- A key that was given out: to which address, when, and under which limit.
pub record Grant : Type 0 where
  pub ip : Text
  pub time : ℕ
  pub limit : ℕ

abbrev pub fresh : ℕ → ℕ → ℕ
fresh later t = if leb window (later - t) then 0 else 1

-- How many keys the address `j` got in the hour before `later`.
abbrev pub recent : List Grant → Text → ℕ → ℕ
recent [] j later = 0
recent (g ∷ gs) j later = ite (Text-discrete g.ip j) (fresh later g.time) 0 + recent gs j later

-- At each grant the hour that ends there has at most as many for its address as the limit then.
abbrev pub IsHourly : List Grant → Type 0
IsHourly [] = Unit {0}
IsHourly (g ∷ gs) = (recent (g ∷ gs) g.ip g.time ≤ g.limit) × IsHourly gs

-- The queues hold at least the recent grants.
abbrev pub Covers : Tracker → List Grant → ℕ → Type 0
Covers m log clock =
    (j : Text) (later : ℕ)
    → clock ≤ later
    → recent log j later ≤ length (pop_old later (queue_of m j))

fresh-le-one : (later t : ℕ) → fresh later t ≤ 1
fresh-le-one later t = ground arith

pop_old-pop_old :
    (q : List ℕ) (now later : ℕ) → now ≤ later → pop_old later (pop_old now q) ≡ pop_old later q
unfolding pop_old
pop_old-pop_old [] now later h = refl
pop_old-pop_old (t ∷ q) now later h = ground (arith, pop_old-pop_old q now later h)

length-pop_old-append :
    (q : List ℕ) (n later : ℕ)
    → fresh later n + length (pop_old later q) ≤ length (pop_old later (q ++ n ∷ []))
unfolding pop_old
length-pop_old-append [] n later = ground arith
length-pop_old-append (t ∷ q) n later =
    ground (arith, length-pop_old-append q n later, length-append q (n ∷ []), fresh-le-one later n)

module _ (m : Tracker) (ip : Text) (limit now clock : ℕ) (log : List Grant) (h : clock ≤ now)
    (v : Covers m log clock) where
  abbrev pub kept : List ℕ
  kept = pop_old now (queue_of m ip)

  abbrev pub grant : Grant
  grant = record { ip = ip; time = now; limit = limit }

  covered-at :
      (j : Text) (later : ℕ)
      → ip ≡ j
      → now ≤ later
      → recent log j later ≤ length (pop_old later kept)
  covered-at j later same k =
      let base : recent log j later ≤ length (pop_old later (queue_of m ip)) =
        rw (sym same) (v ip later (omega arith)) in
      rw (pop_old-pop_old (queue_of m ip) now later k) base

  refused-at :
      (j : Text) (later : ℕ) (d : Dec (ip ≡ j))
      → now ≤ later
      → recent log j later ≤ length (pop_old later (or_else (ite d (some kept) (m j)) []))
  refused-at j later (yes same) k = covered-at j later same k
  refused-at j later (no other) k = v j later (omega arith)

  refused-Covers : Covers (put Text-discrete m ip (some kept)) log now
  unfolding put
  refused-Covers j later k = refused-at j later (Text-discrete ip j) k

  granted-at :
      (j : Text) (later : ℕ) (d : Dec (ip ≡ j))
      → now ≤ later
      → ite d (fresh later now) 0 + recent log j later
        ≤ length (pop_old later (or_else (ite d (some (kept ++ now ∷ [])) (m j)) []))
  granted-at j later (yes same) k =
      omega (arith, covered-at j later same k, length-pop_old-append kept now later)
  granted-at j later (no other) k = omega (arith, v j later (omega arith))

  granted-Covers : Covers (put Text-discrete m ip (some (kept ++ now ∷ []))) (grant ∷ log) now
  unfolding put
  granted-Covers j later k = granted-at j later (Text-discrete ip j) k

  -- A slot that was recorded without a key still covers what was granted.
  recorded-Covers : Covers (put Text-discrete m ip (some (kept ++ now ∷ []))) log now
  recorded-Covers j later k = omega (arith, granted-Covers j later k)

  granted-hourly : length kept < limit → recent (grant ∷ log) ip now ≤ limit
  granted-hourly room =
      rw (if_pos (Text-discrete ip ip) refl (fresh now now) 0)
        (omega (arith, v ip now h, fresh-le-one now now))

  -- What a check of the address leaves.
  abbrev pub Checked : Tracker × Bool → Type 0
  Checked (m', false) = Covers m' log now
  Checked (m', true) =
      (recent (grant ∷ log) ip now ≤ limit) × Covers m' (grant ∷ log) now × Covers m' log now

  pub check-Checked : Checked (check_and_record_ip_claim m ip limit now)
  unfolding check_and_record_ip_claim
  check-Checked = elim (Bool-cases (leb limit (length kept))) [
    | inl full ↦ rw full refused-Covers
    | inr room ↦ rw room (granted-hourly (ground arith), granted-Covers, recorded-Covers)
  ]
