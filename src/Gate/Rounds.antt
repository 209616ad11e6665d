-- ===== src/Gate/Rounds.antt =====
-- go/internal/gate/gate.go: `RoundComplete` and `FinalStats`, which judge a whole round.
use native.Mathlib.Nat.{div-lt_iff_lt-mul}
use pg_fuzz.Base.{
  ℕ, ◌+◌, ◌-◌, ◌*◌, ◌/◌, ◌<◌, ◌≡◌, ◌↔◌, refl, inl, inr, Bool, true, false, not, ◌&&◌, List, [], ◌∷◌,
  map, Text, codes, less, sort_by, keep, holds, holds_iff, leb, ◌==◌, if◌then◌else◌, length, All,
  Any, Bool-cases, arith,
}
use pg_fuzz.Float.{Float}
use pg_fuzz.Gate.Verdict.{
  Verdict, harness, say, fail_with, never_ran, short_round, reported_stats, silent_slices,
  unverifiable,
}
use pg_fuzz.Logs.Stats.{Stats}

below_percent : (r n m : ℕ) → 0 < n → (leb m (r * 100 / n) ≡ false) ↔ (r * 100 < m * n)
below_percent r n m h =
    let exact = div-lt_iff_lt-mul {k = n} {x = r * 100} {y = m} h in
    (λ e. exact.0 (ground arith), λ e. let low = exact.1 e in ground arith)

abbrev missing_of : List Text → List Text → List Text
missing_of swept built = keep (λ t. not (holds t swept)) built

close_round : List Text → List Text → Verdict → Verdict
close_round built [] v = v
close_round built (t ∷ ts) v =
    say short_round (fail_with (never_ran (length (t ∷ ts)) (length built) (t ∷ ts)) v)

-- `RoundComplete`.
unfoldable pub round_complete : List Text → List Text → Verdict
unfolding close_round
round_complete swept built =
    close_round built (missing_of swept built)
      (record { name = codes "round-complete"; failed = false; detail = []; about = harness })

abbrev quiet_stats : Verdict
quiet_stats = record { name = codes "final-stats"; failed = false; detail = []; about = harness }

module _ (f : Float) where
  -- A slice whose log carries no count either way.
  abbrev pub is_silent : Stats f → Bool
  is_silent s = (s.execs == 0) && ((s.done == 0) && (s.inited == 0))

  abbrev pub silent_of : List (Stats f) → List (Stats f)
  silent_of = keep is_silent

  final : ℕ → ℕ → List Text → ℕ → Verdict → Verdict
  final reported slices silent min_percent v =
      let pct = reported * 100 / slices in
      if leb min_percent pct
      then v
      else say unverifiable (
          say (silent_slices (sort_by less silent))
            (fail_with (reported_stats reported slices pct min_percent) v))

  -- `FinalStats`. Nothing is said of a round with no slices.
  unfoldable pub final_stats : List (Stats f) → ℕ → Verdict
  unfolding final
  final_stats [] min_percent = quiet_stats
  final_stats (s ∷ ss) min_percent =
      let stats = s ∷ ss in
      let silent = silent_of stats in
      final (length stats - length silent) (length stats) (map (λ x. x.target) silent) min_percent
        quiet_stats

  -- The slices that reported a count.
  abbrev pub reporting : List (Stats f) → ℕ
  reporting [] = 0
  reporting (s ∷ ss) = (if is_silent s then 0 else 1) + reporting ss

  reporting-silent_of : (ss : List (Stats f)) → reporting ss + length (silent_of ss) ≡ length ss
  reporting-silent_of [] = refl
  reporting-silent_of (s ∷ ss) = ground (arith, reporting-silent_of ss)

  failed-final :
      (reported slices : ℕ) (silent : List Text) (min_percent : ℕ) (v : Verdict)
      → v.failed ≡ false
      → ((final reported slices silent min_percent v).failed ≡ true)
        ↔ (leb min_percent (reported * 100 / slices) ≡ false)
  unfolding final
  failed-final reported slices silent min_percent v h =
      elim (Bool-cases (leb min_percent (reported * 100 / slices))) [
        | inl e ↦ rw e (λ k. cc, λ k. cc)
        | inr e ↦ rw e (λ _. refl, λ _. refl)
      ]

  -- A round of at least one slice fails exactly when the slices that reported a count are fewer than
  -- the given percentage of all, without rounding. A round of none passes.
  pub final_stats_iff :
      (stats : List (Stats f)) (min_percent : ℕ)
      → ((final_stats stats min_percent).failed ≡ true)
        ↔ ((0 < length stats) × (reporting stats * 100 < min_percent * length stats))
  unfolding final_stats
  final_stats_iff [] min_percent = (λ h. cc, λ h. absurd (omega arith))
  final_stats_iff (s ∷ ss) min_percent =
      let stats = s ∷ ss in
      let counted : length stats - length (silent_of stats) ≡ reporting stats =
        omega (arith, reporting-silent_of stats) in
      let bound = below_percent (reporting stats) (length stats) min_percent (omega arith) in
      let verdict =
        failed-final (length stats - length (silent_of stats)) (length stats)
          (map (λ x. x.target) (silent_of stats)) min_percent quiet_stats refl in
      (
        λ h. (omega arith, bound.0 (rw counted at (verdict.0 h))),
        λ h. verdict.1 (rw counted (bound.1 h.1)),
      )

missing-nil :
    (swept built : List Text)
    → (missing_of swept built ≡ []) ↔ All (λ t. Any (λ s. s ≡ t) swept) built
missing-nil swept [] = (λ _. tt, λ _. refl)
missing-nil swept (t ∷ built) = elim (Bool-cases (holds t swept)) [
  | inl e ↦
      let later = missing-nil swept built in
      rw e (λ h. ((holds_iff t swept).0 e, later.0 h), λ h. later.1 h.1)
  | inr e ↦ rw e (λ h. cc, λ h. cc ((holds_iff t swept).1 h.0))
]

failed-close_round :
    (built ms : List Text) (v : Verdict)
    → v.failed ≡ false
    → ((close_round built ms v).failed ≡ false) ↔ (ms ≡ [])
unfolding close_round
failed-close_round built [] v h = (λ _. refl, λ _. h)
failed-close_round built (m ∷ ms) v h = (λ e. cc, λ e. cc)

-- A round passes exactly when every target that was built is among the swept ones.
pub round_complete_iff :
    (swept built : List Text)
    → ((round_complete swept built).failed ≡ false) ↔ All (λ t. Any (λ s. s ≡ t) swept) built
unfolding round_complete
round_complete_iff swept built =
    let closed = failed-close_round built (missing_of swept built) _ refl in
    let none_missing = missing-nil swept built in
    (λ h. none_missing.0 (closed.0 h), λ h. closed.1 (none_missing.1 h))
