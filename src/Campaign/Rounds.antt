-- ===== src/Campaign/Rounds.antt =====
-- go/internal/campaign/run.go: which entries a round of `Run` starts, and until when, and `Sweep` of
-- go/internal/fuzz/fuzz.go, which the entries are run by. What `time.Now` gives is read from the
-- input, with each entry and with each target; no context is cancelled. How long an entry waits for a
-- place among those that run at once is part of that input; they are started in this order.
use pg_fuzz.Base.{
  ℕ, ◌≤◌, ◌<◌, ◌≡◌, refl, ap, sym, inl, inr, List, [], ◌∷◌, Text, ltb, if◌then◌else◌, All, Any,
  Bool-cases, arith,
}
use pg_fuzz.Campaign.Rotation.{SliceResult}

-- `OnDeadline`.
pub data OnDeadline : Type 0 where
  cut finish_sweep finish_round : OnDeadline

-- An entry as the loop comes to it, with the clock at the test of the hard stop, at that of the
-- deadline, and where the loop goes on to start it: behind the send on `sem`, which waits for a free
-- place, or behind `wg.Wait`.
pub record Turn : Type 0 where
  pub entry : Text
  pub at_stop : ℕ
  pub at_deadline : ℕ
  pub at_start : ℕ

-- A call of `runOne`, with the clock where the loop starts it and the deadline that it is given.
pub record Launch : Type 0 where
  pub entry : Text
  pub read : ℕ
  pub until : ℕ

abbrev launch_of : Turn → ℕ → Launch
launch_of t until = record { entry = t.entry; read = t.at_start; until = until }

-- What is done with an entry past the deadline; `rest` are the launches behind it.
abbrev past_launches : OnDeadline → ℕ → ℕ → Turn → List Launch → List Launch
past_launches cut deadline hard t rest = []
past_launches finish_sweep deadline hard t rest = launch_of t hard ∷ []
past_launches finish_round deadline hard t rest = launch_of t deadline ∷ rest

-- The loop of a round over its entries.
unfoldable pub launches : OnDeadline → ℕ → ℕ → List Turn → List Launch
launches policy deadline hard [] = []
launches policy deadline hard (t ∷ ts) =
    let rest = launches policy deadline hard ts in
    if ltb hard t.at_stop
    then []
    else if ltb deadline t.at_deadline
    then past_launches policy deadline hard t rest
    else launch_of t deadline ∷ rest

-- A target as `Sweep` comes to it: the clock, and what its run gives.
pub record Reading : Type 0 where
  pub at : ℕ
  pub result : SliceResult

-- `Sweep`, on the targets in the order of the round: it ends at the first that is past the deadline.
unfoldable pub sweep : ℕ → List Reading → List SliceResult
sweep deadline [] = []
sweep deadline (r ∷ rs) =
    let rest = sweep deadline rs in if ltb deadline r.at then [] else r.result ∷ rest

until-finish_round :
    (deadline hard : ℕ) (ts : List Turn) (l : Launch)
    → Any (λ k. k ≡ l) (launches finish_round deadline hard ts)
    → l.until ≡ deadline
unfolding launches
until-finish_round deadline hard [] l h = absurd h
until-finish_round deadline hard (t ∷ ts) l h = elim (Bool-cases (ltb hard t.at_stop)) [
  | inl e ↦ absurd (rw e at h)
  | inr e ↦
      let there : Any (λ k. k ≡ l) (launch_of t deadline ∷ launches finish_round deadline hard ts) =
        elim (Bool-cases (ltb deadline t.at_deadline)) [
          | inl p ↦ rw (e, p) at h
          | inr p ↦ rw (e, p) at h
        ] in
      elim there [
        | inl same ↦ sym (ap (λ k. k.until) same)
        | inr later ↦ until-finish_round deadline hard ts l later
      ]
]

sweep-late :
    (deadline : ℕ) (rs : List Reading) → All (λ r. deadline < r.at) rs → sweep deadline rs ≡ []
unfolding sweep
sweep-late deadline [] h = refl
sweep-late deadline (r ∷ rs) h = ground (arith, h.0)

All-later : (a b : ℕ) (rs : List Reading) → a < b → All (λ r. b ≤ r.at) rs → All (λ r. a < r.at) rs
All-later a b [] h k = tt
All-later a b (r ∷ rs) h (k, ks) = (omega arith, All-later a b rs h ks)

-- Under `finish-round` an entry that is started past the deadline runs none of its targets, if the
-- clock does not go back: it is given the deadline that has passed.
pub sweep-finish_round :
    (deadline hard : ℕ) (ts : List Turn) (l : Launch) (rs : List Reading)
    → Any (λ k. k ≡ l) (launches finish_round deadline hard ts)
    → deadline < l.read
    → All (λ r. l.read ≤ r.at) rs
    → sweep l.until rs ≡ []
sweep-finish_round deadline hard ts l rs h late clock =
    rw (until-finish_round deadline hard ts l h)
      (sweep-late deadline rs (All-later deadline l.read rs late clock))
