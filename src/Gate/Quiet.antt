-- ===== src/Gate/Quiet.antt =====
-- When a token was quiet for two recorded rounds, and when all rows are quiet at once.
use pg_fuzz.Base.{
  suc, ◌≤◌, ◌≡◌, ◌↔◌, refl, ap, ◌∙◌, inl, inr, Bool, false, ◌&&◌, List, [], ◌∷◌, ◌++◌, Text, eq,
  keep, holds, length, Bool-cases, arith, ◌<◌, sym, All,
}
use mathlib.Core.List.{reverse, reverse-append, reverse-reverse, reverse_aux-eq}
use pg_fuzz.Gate.Series.{UbsanRound, counts_for, streak, absent_streak, is_quiet, is_alarm}

-- The list ends in two rounds that do not have the token.
abbrev EndsQuiet : Text → List UbsanRound → Type 0
EndsQuiet token rs =
    (older : List UbsanRound) × (a : UbsanRound) × (b : UbsanRound) × (rs ≡ older ++ a ∷ b ∷ [])
    × (holds token a.sites ≡ false)
    × (holds token b.sites ≡ false)

-- The rounds of the workspace that saw a site end in two that did not see the token's.
abbrev pub QuietTwice : List UbsanRound → Text → Text → Type 0
QuietTwice series ws token =
    (older : List UbsanRound) × (a : UbsanRound) × (b : UbsanRound) × (keep
        (λ r. eq r.ws ws && r.informative) series
      ≡ older ++ a ∷ b ∷ [])
    × (holds token a.sites ≡ false)
    × (holds token b.sites ≡ false)

streak-newest :
    (token : Text) (rs : List UbsanRound)
    → 2 ≤ streak token rs
    → (b : UbsanRound) × (a : UbsanRound) × (older : List UbsanRound) × (rs ≡ b ∷ a ∷ older)
      × (holds token a.sites ≡ false)
      × (holds token b.sites ≡ false)
streak-newest token [] h = absurd (omega arith)
streak-newest token (b ∷ []) h = absurd (ground (arith, h))
streak-newest token (b ∷ a ∷ older) h = (b, a, older, refl, ground (arith, h), ground (arith, h))

streak_iff :
    (token : Text) (rs : List UbsanRound) → (2 ≤ streak token (reverse rs)) ↔ EndsQuiet token rs
streak_iff token rs = (
  λ h.
      let (b, a, older, q, qa, qb) = streak-newest token (reverse rs) h in
      (
        reverse older,
        a,
        b,
        sym (reverse-reverse rs) ∙ ap reverse q ∙ reverse_aux-eq older (a ∷ b ∷ []),
        qa,
        qb,
      ),
  λ (older, a, b, q, qa, qb). rw (q, reverse-append older (a ∷ b ∷ []), qb, qa) (omega arith),
)

pub absent_streak_iff :
    (series : List UbsanRound) (ws token : Text)
    → (2 ≤ absent_streak series ws token) ↔ QuietTwice series ws token
unfolding absent_streak
absent_streak_iff series ws token = streak_iff token (keep (counts_for ws) series)

length-keep : (p : Text → Bool) (ts : List Text) → length (keep p ts) ≤ length ts
length-keep p [] = omega arith
length-keep p (t ∷ ts) = ground (arith, length-keep p ts)

-- Nothing is left out exactly when all are kept.
keep-All :
    (seen ts : List Text)
    → (length (keep (is_quiet seen) ts) ≡ length ts) ↔ All (λ t. holds t seen ≡ false) ts
keep-All seen [] = (λ h. tt, λ h. refl)
keep-All seen (t ∷ ts) =
    let rest = keep-All seen ts in
    elim (Bool-cases (holds t seen)) [
      | inl e ↦ (
        λ h. absurd (ground (arith, rw e at h, length-keep (is_quiet seen) ts)),
        λ h. absurd (cc (e, h.0)),
      )
      | inr e ↦ (λ h. (e, rest.0 (omega (arith, rw e at h))), λ h. rw e (ap suc (rest.1 h.1)))
    ]

pub is_alarm_iff :
    (accepted seen : List Text)
    → (is_alarm accepted (keep (is_quiet seen) accepted) ≡ false)
      ↔ (¬ ((1 < length accepted) × All (λ t. holds t seen ≡ false) accepted))
is_alarm_iff accepted seen =
    let kept = keep-All seen accepted in
    (
      λ h (many, quiet). ground (arith, h, many, kept.1 quiet),
      λ h. elim (Bool-cases (is_alarm accepted (keep (is_quiet seen) accepted))) [
        | inl e ↦ absurd (h (ground (arith, e), kept.0 (ground (arith, e))))
        | inr e ↦ e
      ],
    )
