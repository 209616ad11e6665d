-- ===== src/Corpus/Tuned.antt =====
-- What `Tune` makes of the budgets: it keeps them between its bounds, and moves only those of targets
-- that fuzzed and were out of the dead band.
use pg_fuzz.Base.{
  ℕ, ◌≤◌, ◌≡◌, ◌≢◌, refl, ◌∙◌, inl, inr, Bool, true, false, ◌&&◌, ◌||◌, List, [], ◌∷◌, Option, none,
  some, Text, Map, lookup, lookup-put, put, keys, less, sort_by, eq, eq_iff, ltb, leb, ◌==◌,
  or_else, Bool-cases, Option-cases, arith,
}
use pg_fuzz.Corpus.Sweep.{TargetLog, locked}
use pg_fuzz.Corpus.Tune.{TuneOptions, Tuning, want_of, move, tune_one, tune_all, tune}

-- A budget within the bounds.
abbrev pub Bounded : TuneOptions → ℕ → Type 0
Bounded o v = (o.base_budget ≤ v) × (v ≤ o.max_budget)

-- Every budget that is set is within the bounds.
abbrev pub InBounds : TuneOptions → Map ℕ → Type 0
InBounds o cur = (t : Text) (v : ℕ) → lookup t cur ≡ some v → Bounded o v

-- Every target that ran, ran for a budget within the bounds.
abbrev pub RanInBounds : TuneOptions → Map TargetLog → Type 0
RanInBounds o per =
    (t : Text) (d : TargetLog) → lookup t per ≡ some d → d.budget ≢ 0 → Bounded o d.budget

want_of-Bounded : (o : TuneOptions) (n have : ℕ) → Bounded o have → Bounded o (want_of o n have)
unfolding want_of
want_of-Bounded o n have h = (ground arith, ground arith)

-- A target that a run says nothing of, or that found neither many nor few units.
abbrev pub is_settled : TuneOptions → Option TargetLog → Bool
is_settled o none = true
is_settled o (some d) =
    ((d.budget == 0) || locked d) || (leb o.low d.new_units && ltb d.new_units o.high)

InBounds-put :
    (o : TuneOptions) (t : Text) (w : ℕ) (cur : Map ℕ)
    → Bounded o w
    → InBounds o cur
    → InBounds o (put t w cur)
InBounds-put o t w cur b h k v there = elim (Bool-cases (eq t k)) [
  | inl here ↦ let same : w ≡ v = cc (rw (lookup-put t k w cur, here) at there) in rw (← same) b
  | inr other ↦ h k v (rw (lookup-put t k w cur, other) at there)
]

tune_one-InBounds :
    (o : TuneOptions) (t : Text) (l : Option TargetLog) (s : Tuning)
    → ((d : TargetLog) → l ≡ some d → d.budget ≢ 0 → Bounded o d.budget)
    → InBounds o s.cur
    → InBounds o (tune_one o t l s).cur
unfolding tune_one move
tune_one-InBounds o t none s ran h = h
tune_one-InBounds o t (some d) s ran h = elim (Bool-cases ((d.budget == 0) || locked d)) [
  | inl e ↦ rw e h
  | inr e ↦
      let have = or_else (lookup t s.cur) d.budget in
      let bounded : Bounded o have = elim (Option-cases (lookup t s.cur)) [
        | inl q ↦ rw q (ran d refl (λ z. ground arith))
        | inr (v, q) ↦ rw q (h t v q)
      ] in
      elim (Bool-cases (want_of o d.new_units have == have)) [
        | inl same ↦ rw (e, same) h
        | inr moved ↦
            rw (e, moved)
              (InBounds-put o t (want_of o d.new_units have) s.cur
                (want_of-Bounded o d.new_units have bounded) h)
      ]
]

-- A settled target's wish is the budget that it has.
want_of-settled :
    (o : TuneOptions) (n have : ℕ) → (leb o.low n && ltb n o.high) ≡ true → want_of o n have ≡ have
unfolding want_of
want_of-settled o n have h = ground arith

lookup-move :
    (o : TuneOptions) (t k : Text) (d : TargetLog) (s : Tuning)
    → eq t k ≡ false
    → lookup k (move o t d s).cur ≡ lookup k s.cur
unfolding move
lookup-move o t k d s other =
    let have = or_else (lookup t s.cur) d.budget in
    let want = want_of o d.new_units have in
    elim (Bool-cases (want == have)) [
      | inl same ↦ rw same refl
      | inr moved ↦ rw (moved, lookup-put t k want s.cur, other) refl
    ]

move-settled :
    (o : TuneOptions) (t : Text) (d : TargetLog) (s : Tuning)
    → (leb o.low d.new_units && ltb d.new_units o.high) ≡ true
    → move o t d s ≡ s
unfolding move
move-settled o t d s h =
    let have = or_else (lookup t s.cur) d.budget in
    let same : (want_of o d.new_units have == have) ≡ true =
      rw (want_of-settled o d.new_units have h) (ground arith) in
    rw same refl

tune_one-settled :
    (o : TuneOptions) (t k : Text) (l : Option TargetLog) (s : Tuning)
    → (eq t k ≡ true → is_settled o l ≡ true)
    → lookup k (tune_one o t l s).cur ≡ lookup k s.cur
unfolding tune_one
tune_one-settled o t k none s h = refl
tune_one-settled o t k (some d) s h = elim (Bool-cases ((d.budget == 0) || locked d)) [
  | inl e ↦ rw e refl
  | inr e ↦ elim (Bool-cases (eq t k)) [
    | inl here ↦
        let dead : (leb o.low d.new_units && ltb d.new_units o.high) ≡ true = rw e at (h here) in
        rw (e, move-settled o t d s dead) refl
    | inr other ↦ rw e (lookup-move o t k d s other)
  ]
]

tune_all-InBounds :
    (per : Map TargetLog) (o : TuneOptions) (ts : List Text) (s : Tuning)
    → RanInBounds o per
    → InBounds o s.cur
    → InBounds o (tune_all per o ts s).cur
unfolding tune_all
tune_all-InBounds per o [] s ran h = h
tune_all-InBounds per o (t ∷ ts) s ran h =
    tune_all-InBounds per o ts (tune_one o t (lookup t per) s) ran
      (tune_one-InBounds o t (lookup t per) s (ran t) h)

tune_all-settled :
    (per : Map TargetLog) (o : TuneOptions) (k : Text) (ts : List Text) (s : Tuning)
    → is_settled o (lookup k per) ≡ true
    → lookup k (tune_all per o ts s).cur ≡ lookup k s.cur
unfolding tune_all
tune_all-settled per o k [] s h = refl
tune_all-settled per o k (t ∷ ts) s h =
    tune_all-settled per o k ts (tune_one o t (lookup t per) s) h
    ∙ tune_one-settled o t k (lookup t per) s (λ e. rw ((eq_iff t k).0 e) h)

-- If every budget that is set is within the bounds, and every target ran for one within them, so is
-- every budget that is set behind a tuning.
pub tune-InBounds :
    (per : Map TargetLog) (cur : Map ℕ) (o : TuneOptions)
    → RanInBounds o per
    → InBounds o cur
    → InBounds o (tune per cur o).cur
unfolding tune
tune-InBounds per cur o ran h =
    tune_all-InBounds per o (sort_by less (keys per)) (record { cur = cur; changed = [] }) ran h

-- The budget of a target stays as it is if the log has no section or no budget for it, if it was
-- locked, or if it found a number of units in the dead band.
pub tune-settled :
    (per : Map TargetLog) (cur : Map ℕ) (o : TuneOptions) (t : Text)
    → is_settled o (lookup t per) ≡ true
    → lookup t (tune per cur o).cur ≡ lookup t cur
unfolding tune
tune-settled per cur o t h =
    tune_all-settled per o t (sort_by less (keys per)) (record { cur = cur; changed = [] }) h
