-- ===== src/Quota/Accounts.antt =====
-- How the windows of the limiter account for the admissions of the last minute.
use smart_gate.Base.{
  All, List, Option, Text, Text-discrete, [], ap, arith, if_neg, if_pos, inl, inr, ite, le_refl,
  length, length-append, none, refl, some, some-injective, sym, ℕ, ◌++◌, ◌+◌, ◌<◌, ◌∙◌, ◌∷◌, ◌≡◌,
  ◌≢◌, ◌≤◌,
}
use smart_gate.Base.Map.{Map}
use smart_gate.Quota.Window.{
  RpmState, prune_window, record_rpm, u32_mod, window_of, would_exceed_rpm,
}
use smart_gate.Quota.Limiter.{Outcome, err, ok}
use smart_gate.Quota.Pruning.{
  Past-append, Past-mono, fresh, length-prune_window, length-prune_window-append, prune_window-Past,
  prune_window-prune_window, window_of-record_rpm, window_of-would_exceed_rpm,
  would_exceed_rpm-room,
}
use smart_gate.Quota.Rates.{Rated}

abbrev pub Entry : Type 0
Entry = Text × Text × ℕ

-- How many entries of the id `j` are younger than a minute at the time `later`.
abbrev pub recent : (Entry → Text) → List Entry → Text → ℕ → ℕ
recent id_of [] j later = 0
recent id_of (e ∷ es) j later =
    ite (Text-discrete (id_of e) j) (fresh later e.2) 0 + recent id_of es j later

-- At the time of each entry the minute that ends there has at most the limit of the entry's id.
abbrev pub IsRated : (Entry → Text) → (Text → Option ℕ) → List Entry → Type 0
IsRated id_of limit_of [] = Unit {0}
IsRated id_of limit_of (e ∷ es) =
    ((n : ℕ) → limit_of (id_of e) ≡ some n → recent id_of (e ∷ es) (id_of e) e.2 ≤ n)
    × IsRated id_of limit_of es

-- The window `ws` of the id `j` tells, now and later, how many entries are recent.
pub record Tracks (id_of : Entry → Text) (j : Text) (n : ℕ) (ws : List ℕ) (log : List Entry)
    (clock : ℕ) : Type 0 where
  pub counted :
      (later : ℕ) → clock ≤ later → recent id_of log j later ≡ length (prune_window ws later)
  pub past : All (λ t. t ≤ clock) ws
  pub small : length ws ≤ n

module _ (id_of : Entry → Text) (j : Text) (n : ℕ) (ws : List ℕ) (log : List Entry) {clock : ℕ}
    (t : Tracks id_of j n ws log clock) where
  waits-Tracks : (now : ℕ) → clock ≤ now → Tracks id_of j n ws log now
  waits-Tracks now h = record {
    counted = λ later hl. t.counted later (omega arith);
    past = Past-mono ws h t.past;
    small = t.small;
  }

  pruned-Tracks : (now : ℕ) → clock ≤ now → Tracks id_of j n (prune_window ws now) log now
  pruned-Tracks now h = record {
    counted =
        λ later hl. rw (prune_window-prune_window ws now later hl) (t.counted later (omega arith));
    past = prune_window-Past ws now now (Past-mono ws h t.past);
    small = omega (arith, length-prune_window ws now, t.small);
  }

  -- An admission of `j` adds its time to the pruned window.
  admitted-Tracks :
      (e : Entry)
      → clock ≤ e.2
      → id_of e ≡ j
      → length (prune_window ws e.2) < n
      → Tracks id_of j n (prune_window ws e.2 ++ e.2 ∷ []) (e ∷ log) e.2
  admitted-Tracks e h same room = record {
    counted = λ later hl. rw (if_pos _ same) (
        omega (
          arith,
          t.counted later,
          length-prune_window-append (prune_window ws e.2) e.2 later
              (prune_window-Past ws e.2 e.2 (Past-mono ws h t.past)) hl,
          ap length (prune_window-prune_window ws e.2 later hl),
        ));
    past =
        Past-append (prune_window ws e.2) e.2
          (prune_window-Past ws e.2 e.2 (Past-mono ws h t.past));
    small = omega (arith, length-append (prune_window ws e.2) (e.2 ∷ []));
  }

  -- An admission of another id does not count for `j`.
  other-Tracks : (e : Entry) → id_of e ≢ j → Tracks id_of j n ws (e ∷ log) clock
  other-Tracks e other = record {
    counted = λ later hl. rw (if_neg _ other) (omega (arith, t.counted later hl));
    past = t.past;
    small = t.small;
  }

fresh-le-one : (later t : ℕ) → fresh later t ≤ 1
fresh-le-one later t = ground arith

-- What is recent at the time of an admission is what the check saw, and the admission itself.
recent-admitted :
    (id_of : Entry → Text) (n : ℕ) (ws : List ℕ) (log : List Entry) {clock : ℕ} (e : Entry)
    → Tracks id_of (id_of e) n ws log clock
    → clock ≤ e.2
    → length (prune_window ws e.2) < n
    → recent id_of (e ∷ log) (id_of e) e.2 ≤ n
recent-admitted id_of n ws log e t h room =
    rw (if_pos _ refl) (omega (arith, t.counted e.2 h, fresh-le-one e.2 e.2))

-- One request to the map of a scope, as `Rated` describes it: the entries stay within the limits,
-- and the account of every limited id is kept.
abbrev pub Accounts :
    (Entry → Text) → (Text → Option ℕ) → Map Text RpmState → List Entry → ℕ → Type 0
Accounts id_of limit_of m log clock =
    (j : Text) (n : ℕ) → limit_of j ≡ some n → Tracks id_of j n (window_of m j) log clock

abbrev pub outcome_log : Entry → List Entry → Outcome → List Entry
outcome_log e log ok = e ∷ log
outcome_log e log (err r) = log

abbrev pub IsU32 : (Text → Option ℕ) → Type 0
IsU32 limit_of = (j : Text) (n : ℕ) → limit_of j ≡ some n → n < u32_mod

module _ (id_of : Entry → Text) (limit_of : Text → Option ℕ) where
  -- The check of `id`, as seen by any limited `j`.
  check-Accounts :
      (m : Map Text RpmState) (log : List Entry) (clock now limit : ℕ) (id : Text)
      → clock ≤ now
      → Accounts id_of limit_of m log clock
      → Accounts id_of limit_of (would_exceed_rpm m id limit now).0 log now
  check-Accounts m log clock now limit id h a j n e =
      let t = a j n e in
      rw (window_of-would_exceed_rpm m id j limit now) (elim (Text-discrete id j) [
        | yes same ↦ rw (if_pos _ same, same) (pruned-Tracks id_of j n (window_of m j) log t now h)
        | no other ↦ rw (if_neg _ other) (waits-Tracks id_of j n (window_of m j) log t now h)
      ])

  record-Accounts :
      (m : Map Text RpmState) (log : List Entry) (limit : ℕ) (e : Entry)
      → limit_of (id_of e) ≡ some limit
      → length (prune_window (window_of m (id_of e)) e.2) < limit
      → Accounts id_of limit_of m log e.2
      → Accounts id_of limit_of (record_rpm m (id_of e) e.2) (e ∷ log) e.2
  record-Accounts m log limit e le room a j n lj =
      let t = a j n lj in
      rw (window_of-record_rpm m (id_of e) j e.2) (elim (Text-discrete (id_of e) j) [
        | yes same ↦
            let en : limit ≡ n = some-injective _ _ (sym le ∙ ap limit_of same ∙ lj) in
            let enough = rw (same, en) at room in
            rw (if_pos _ same, same)
              (admitted-Tracks id_of j n (window_of m j) log t e (le_refl e.2) same enough)
        | no other ↦ rw (if_neg _ other) (other-Tracks id_of j n (window_of m j) log t e other)
      ])

  waits-Accounts :
      (m : Map Text RpmState) (log : List Entry) (clock now : ℕ)
      → clock ≤ now
      → Accounts id_of limit_of m log clock
      → Accounts id_of limit_of m log now
  waits-Accounts m log clock now h a j n e =
      waits-Tracks id_of j n (window_of m j) log (a j n e) now h

  passed-room :
      (m : Map Text RpmState) (log : List Entry) (clock n : ℕ) (e : Entry)
      → limit_of (id_of e) ≡ some n
      → IsU32 limit_of
      → Accounts id_of limit_of m log clock
      → (would_exceed_rpm m (id_of e) n e.2).1 ≡ none
      → length (prune_window (window_of m (id_of e)) e.2) < n
  passed-room m log clock n e el u a passed =
      let t = a (id_of e) n el in
      would_exceed_rpm-room m (id_of e) n e.2 (omega (arith, t.small, u (id_of e) n el)) passed

  pub Rated-Accounts :
      (m m' : Map Text RpmState) (log : List Entry) (clock : ℕ) (e : Entry) (o : Outcome)
      (limit : Option ℕ)
      → limit_of (id_of e) ≡ limit
      → IsU32 limit_of
      → clock ≤ e.2
      → Rated limit (id_of e) e.2 m o m'
      → IsRated id_of limit_of log
      → Accounts id_of limit_of m log clock
      → IsRated id_of limit_of (outcome_log e log o)
        × Accounts id_of limit_of m' (outcome_log e log o) e.2
  Rated-Accounts m m' log clock e ok none el u h r b a = (
    ((λ n en. cc), b),
    rw r (λ j n lj.
        other-Tracks id_of j n (window_of m j) log (waits-Accounts m log clock e.2 h a j n lj) e
          (λ same. cc)),
  )
  Rated-Accounts m m' log clock e (err x) none el u h r b a =
      (b, rw r (waits-Accounts m log clock e.2 h a))
  Rated-Accounts m m' log clock e ok (some n) el u h r b a =
      let room = passed-room m log clock n e el u a r.0 in
      (
        (
          (λ n' en.
              recent-admitted id_of n' (window_of m (id_of e)) log e (a (id_of e) n' en) h
                (rw (some-injective _ _ (sym el ∙ en)) at room)),
          b,
        ),
        rw r.1 (
            record-Accounts (would_exceed_rpm m (id_of e) n e.2).0 log n e el
              (rw
                (
                  window_of-would_exceed_rpm m (id_of e) (id_of e) n e.2,
                  if_pos _ refl,
                  prune_window-prune_window (window_of m (id_of e)) e.2 e.2 (le_refl e.2),
                )
                room)
              (check-Accounts m log clock e.2 n (id_of e) h a)),
      )
  Rated-Accounts m m' log clock e (err x) (some n) el u h (inl r) b a =
      (b, rw r (waits-Accounts m log clock e.2 h a))
  Rated-Accounts m m' log clock e (err x) (some n) el u h (inr r) b a =
      (b, rw r (check-Accounts m log clock e.2 n (id_of e) h a))
