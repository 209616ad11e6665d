-- ===== src/Gate/Starved.antt =====
-- When `Starvation` fails a run, and what it never says.
use pg_fuzz.Base.{
  ℕ, ◌<◌, ◌/◌, ◌≡◌, ◌↔◌, ◌⊎◌, refl, ap, ◌∙◌, inl, inr, Bool, true, false, not, ◌&&◌, ◌||◌, List, [],
  ◌∷◌, ◌++◌, Option, none, Text, Map, lookup, ltb, ◌==◌, is_some, Bool-cases, Option-cases, arith,
}
use pg_fuzz.Float.{Float}
use pg_fuzz.Gate.Starvation.{
  starvation, fresh, judge_floor, judge_abort, judge_death, judge_replay, ack_reason, day,
}
use pg_fuzz.Gate.Verdict.{
  Verdict, Detail, died_early, libfuzzer_aborted, only_replay, below, known_below,
  old_acknowledgement,
}
use pg_fuzz.Logs.Stats.{Stats, startup, replay_only}

abbrev pub is_died_early : Detail → Bool
is_died_early (died_early t) = true
is_died_early _ = false

-- Whether the verdict has a detail that says the target died before libFuzzer started.
abbrev pub says_died : List Detail → Bool
says_died [] = false
says_died (d ∷ ds) = is_died_early d || says_died ds

says_died-append : (ds es : List Detail) → says_died (ds ++ es) ≡ says_died ds || says_died es
says_died-append [] es = refl
says_died-append (d ∷ ds) es = ground (arith, says_died-append ds es)

module _ (f : Float) (age : Text → Option ℕ) where
  failed-judge_floor :
      (s : Stats f) (floor : ℕ) (acks : Map Text) (v : Verdict)
      → (judge_floor f age s floor acks v).failed
        ≡ v.failed || (ltb s.execs floor && not (is_some (lookup s.target acks)))
  unfolding judge_floor
  failed-judge_floor s floor acks v = elim (Option-cases (lookup s.target acks)) [
    | inl e ↦ rw (e, judge_floor) (ground arith)
    | inr (row, e) ↦ elim (Option-cases (age row)) [
      | inl a ↦ rw (e, judge_floor, a) (ground arith)
      | inr (d, a) ↦ rw (e, judge_floor, a) (ground arith)
    ]
  ]

  failed-judge_abort :
      (s : Stats f) (v : Verdict) → (judge_abort f age s v).failed ≡ v.failed || s.aborted
  unfolding judge_abort
  failed-judge_abort s v = ground arith

  failed-judge_replay :
      (s : Stats f) (v : Verdict) → (judge_replay f age s v).failed ≡ v.failed || replay_only f s
  unfolding judge_replay
  failed-judge_replay s v = ground arith

  -- A run with any count has fuzzed, so the branch for an early death is never taken.
  judge_death-fuzzed :
      (s : Stats f) (v : Verdict)
      → ((s.execs == 0) && (s.done == 0)) ≡ false
      → judge_death f age s v ≡ v
  unfolding judge_death startup
  judge_death-fuzzed s v h = ground arith

  abbrev known : Stats f → ℕ → Text → List Detail
  known s floor row = known_below s.target s.execs floor (ack_reason row) ∷ []

  abbrev old : Stats f → ℕ → List Detail
  old s d = old_acknowledgement s.target (d / day) ∷ []

  says_died-judge_floor :
      (s : Stats f) (floor : ℕ) (acks : Map Text) (v : Verdict)
      → says_died (judge_floor f age s floor acks v).detail ≡ says_died v.detail
  unfolding judge_floor
  says_died-judge_floor s floor acks v = elim (Option-cases (lookup s.target acks)) [
    | inl e ↦
        rw (e, judge_floor)
          (ground (arith, says_died-append v.detail (below s.target s.execs floor ∷ [])))
    | inr (row, e) ↦ elim (Option-cases (age row)) [
      | inl a ↦
          rw (e, judge_floor, a) (ground (arith, says_died-append v.detail (known s floor row)))
      | inr (d, a) ↦
          rw (e, judge_floor, a)
            (ground (
              arith,
              says_died-append v.detail (known s floor row),
              says_died-append (v.detail ++ known s floor row) (old s d),
            ))
    ]
  ]

  says_died-judge_abort :
      (s : Stats f) (v : Verdict) → says_died (judge_abort f age s v).detail ≡ says_died v.detail
  unfolding judge_abort
  says_died-judge_abort s v =
      ground (arith, says_died-append v.detail (libfuzzer_aborted s.target ∷ []))

  says_died-judge_replay :
      (s : Stats f) (v : Verdict) → says_died (judge_replay f age s v).detail ≡ says_died v.detail
  unfolding judge_replay
  says_died-judge_replay s v =
      ground
        (arith, says_died-append v.detail (only_replay s.target s.inited s.done s.new_units ∷ []))

  abbrev judged : Stats f → ℕ → Map Text → Verdict
  judged s floor acks = judge_abort f age s (judge_floor f age s floor acks (fresh f age))

  -- The verdict, with the branch that is never taken left out.
  starvation_lem :
      (s : Stats f) (floor : ℕ) (acks : Map Text)
      → ((s.execs == 0) && (s.done == 0)) ≡ false
      → starvation f age s floor acks ≡ judge_replay f age s (judged s floor acks)
  unfolding starvation
  starvation_lem s floor acks h =
      rw (h, starvation) (ap (judge_replay f age s) (judge_death-fuzzed s (judged s floor acks) h))

  failed-starvation :
      (s : Stats f) (floor : ℕ) (acks : Map Text)
      → (starvation f age s floor acks).failed
        ≡ ((s.execs == 0) && (s.done == 0))
          || (((ltb s.execs floor && not (is_some (lookup s.target acks))) || s.aborted)
              || replay_only f s)
  failed-starvation s floor acks = elim (Bool-cases ((s.execs == 0) && (s.done == 0))) [
    | inl silent ↦ rw silent (unfold starvation in rw (silent, starvation))
    | inr counted ↦
        rw (counted, starvation_lem s floor acks counted)
          (ground (
            arith,
            failed-judge_replay s (judged s floor acks),
            failed-judge_abort s (judge_floor f age s floor acks (fresh f age)),
            failed-judge_floor s floor acks (fresh f age),
          ))
  ]

  -- A run fails exactly when it has neither executions nor a DONE count, when it is below its floor
  -- and its target is not acknowledged, when libFuzzer aborted it, or when it only replayed.
  pub starvation_iff :
      (s : Stats f) (floor : ℕ) (acks : Map Text)
      → ((starvation f age s floor acks).failed ≡ true) ↔ (
          ((s.execs ≡ 0) × (s.done ≡ 0))
          ⊎ (((s.execs < floor) × (lookup s.target acks ≡ none))
              ⊎ ((s.aborted ≡ true) ⊎ (replay_only f s ≡ true))))
  starvation_iff s floor acks =
      let verdict = failed-starvation s floor acks in
      (λ h. ground (arith, verdict), λ h. ground (arith, verdict))

  -- No verdict of `Starvation` has the detail that the target died before libFuzzer started.
  pub starvation-says_died :
      (s : Stats f) (floor : ℕ) (acks : Map Text)
      → says_died (starvation f age s floor acks).detail ≡ false
  starvation-says_died s floor acks = elim (Bool-cases ((s.execs == 0) && (s.done == 0))) [
    | inl silent ↦ unfold starvation in rw (silent, starvation)
    | inr counted ↦ rw (starvation_lem s floor acks counted) (
        says_died-judge_replay s (judged s floor acks)
        ∙ says_died-judge_abort s (judge_floor f age s floor acks (fresh f age))
        ∙ says_died-judge_floor s floor acks (fresh f age))
  ]
