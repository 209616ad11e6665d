-- ===== src/Campaign/Late.antt =====
-- How many entries a round starts past the deadline, the wait for a place among those that run at once
-- included.
use pg_fuzz.Base.{ℕ, ◌+◌, ◌≤◌, ◌<◌, ◌≡◌, refl, List, [], ◌∷◌, ltb, if◌then◌else◌, arith}
use pg_fuzz.Campaign.Rounds.{cut, finish_sweep, Turn, Launch, launches}

-- The clock does not go back, from one time that is read to the next.
abbrev pub Passes : ℕ → List Turn → Type 0
Passes now [] = Unit
Passes now (t ∷ ts) =
    (now ≤ t.at_stop)
    × (t.at_stop ≤ t.at_deadline)
    × (t.at_deadline ≤ t.at_start)
    × Passes t.at_start ts

-- The entries that are started past the deadline.
abbrev pub past : ℕ → List Launch → ℕ
past deadline [] = 0
past deadline (l ∷ ls) = (if ltb deadline l.read then 1 else 0) + past deadline ls

-- Once the deadline is over, nothing more is started under `cut`.
past-cut_late :
    (deadline hard now : ℕ) (ts : List Turn)
    → deadline < now
    → Passes now ts
    → past deadline (launches cut deadline hard ts) ≡ 0
unfolding launches
past-cut_late deadline hard now [] h p = refl
past-cut_late deadline hard now (t ∷ ts) h (a, b, c, p) = ground arith

past-cut :
    (deadline hard now : ℕ) (ts : List Turn)
    → Passes now ts
    → past deadline (launches cut deadline hard ts) ≤ 1
unfolding launches
past-cut deadline hard now [] p = omega arith
past-cut deadline hard now (t ∷ ts) (a, b, c, p) =
    let late = past-cut_late deadline hard t.at_start ts in
    ground (arith, past-cut deadline hard t.at_start ts p, late, p)

-- One more is under `finish-sweep`.
past-finish_sweep_late :
    (deadline hard now : ℕ) (ts : List Turn)
    → deadline < now
    → Passes now ts
    → past deadline (launches finish_sweep deadline hard ts) ≤ 1
unfolding launches
past-finish_sweep_late deadline hard now [] h p = omega arith
past-finish_sweep_late deadline hard now (t ∷ ts) h (a, b, c, p) = ground arith

past-finish_sweep :
    (deadline hard now : ℕ) (ts : List Turn)
    → Passes now ts
    → past deadline (launches finish_sweep deadline hard ts) ≤ 2
unfolding launches
past-finish_sweep deadline hard now [] p = omega arith
past-finish_sweep deadline hard now (t ∷ ts) (a, b, c, p) =
    let late = past-finish_sweep_late deadline hard t.at_start ts in
    ground (arith, past-finish_sweep deadline hard t.at_start ts p, late, p)

-- If the clock does not go back, at most one entry of a round is started past the deadline under `cut`,
-- and at most two under `finish-sweep`, however long each waits for its place.
pub past-launches :
    (deadline hard now : ℕ) (ts : List Turn)
    → Passes now ts
    → (past deadline (launches cut deadline hard ts) ≤ 1)
      × (past deadline (launches finish_sweep deadline hard ts) ≤ 2)
past-launches deadline hard now ts p =
    (past-cut deadline hard now ts p, past-finish_sweep deadline hard now ts p)
