-- ===== src/Breakdown/Credits.antt =====
-- A component is credited once for each report that touches it, however often.
use pg_fuzz.Base.{
  ℕ, ◌+◌, ◌≡◌, refl, ap, ◌∙◌, inl, inr, Bool, true, false, ◌||◌, List, [], ◌∷◌, ◌++◌, Option, none,
  some, Text, lookup_or, lookup-put, put, eq, eq_iff, eq_refl, holds, if◌then◌else◌, Bool-cases,
  arith,
}
use pg_fuzz.Breakdown.Scan.{
  LogLine, crash_start, report_end, frames, Credits, credits_of, credit, touch, touch_all, scan,
  scan_log,
}

-- The components of each report: the frames from a crash line up to the next, or to the end of it.
-- The first argument is the report that the lines stand in, if they do.
abbrev pub reports_from : Option (List Text) → List LogLine → List (List Text)
reports_from none [] = []
reports_from (some r) [] = r ∷ []
reports_from none (crash_start ∷ ls) = reports_from (some []) ls
reports_from (some r) (crash_start ∷ ls) = r ∷ reports_from (some []) ls
reports_from none (report_end ∷ ls) = reports_from none ls
reports_from (some r) (report_end ∷ ls) = r ∷ reports_from none ls
reports_from none (frames cs ∷ ls) = reports_from none ls
reports_from (some r) (frames cs ∷ ls) = reports_from (some (r ++ cs)) ls

abbrev pub reports_in : List LogLine → List (List Text)
reports_in = reports_from none

abbrev one_if : Bool → ℕ
one_if b = if b then 1 else 0

-- The reports that touch a component.
abbrev pub touching : Text → List (List Text) → ℕ
touching c [] = 0
touching c (r ∷ rs) = (if holds c r then 1 else 0) + touching c rs

abbrev Distinct : List Text → Type 0
Distinct [] = Unit
Distinct (c ∷ cs) = (holds c cs ≡ false) × Distinct cs

credits_of-put :
    (c d target : Text) (n : ℕ) (out : Credits)
    → credits_of (put d (put target n (lookup_or [] d out)) out) c target
      ≡ (if eq d c then n else credits_of out c target)
credits_of-put c d target n out = elim (Bool-cases (eq d c)) [
  | inl e ↦
      rw (lookup-put d c (put target n (lookup_or [] d out)) out, e)
        (rw (lookup-put target target n (lookup_or [] d out), eq_refl target) refl)
  | inr e ↦ rw (lookup-put d c (put target n (lookup_or [] d out)) out, e) refl
]

credits_of-credit :
    (c target : Text) (cs : List Text) (out : Credits)
    → Distinct cs
    → credits_of (credit target cs out) c target ≡ credits_of out c target + one_if (holds c cs)
unfolding credit holds
credits_of-credit c target [] out d = omega arith
credits_of-credit c target (k ∷ cs) out (a, d) =
    let step = credits_of-put c k target (credits_of out k target + 1) out in
    let rest =
      credits_of-credit c target cs
        (put k (put target (credits_of out k target + 1) (lookup_or [] k out)) out) d in
    elim (Bool-cases (eq k c)) [
      | inl e ↦
          let absent : holds c cs ≡ false = rw (← (eq_iff k c).0 e) a in
          let same : credits_of out k target ≡ credits_of out c target =
            rw ((eq_iff k c).0 e) refl in
          let now = rw e at step in rw e (rest ∙ rw absent (omega (arith, now, same)))
      | inr e ↦ let now = rw e at step in rw e (rest ∙ ap (λ n. n + one_if (holds c cs)) now)
    ]

holds-touch_all :
    (c : Text) (cs touched : List Text)
    → holds c (touch_all cs touched) ≡ holds c touched || holds c cs
unfolding touch_all holds
holds-touch_all c [] touched = ground arith
holds-touch_all c (k ∷ cs) touched =
    holds-touch_all c cs (touch k touched) ∙ elim (Bool-cases (holds k touched)) [
      | inl e ↦ elim (Bool-cases (eq k c)) [
        | inl s ↦ let here : holds c touched ≡ true = rw (← (eq_iff k c).0 s) e in rw (e, here) refl
        | inr s ↦ rw (e, s) refl
      ]
      | inr e ↦ rw e (ground arith)
    ]

Distinct-touch_all : (cs touched : List Text) → Distinct touched → Distinct (touch_all cs touched)
unfolding touch_all
Distinct-touch_all [] touched d = d
Distinct-touch_all (k ∷ cs) touched d = elim (Bool-cases (holds k touched)) [
  | inl e ↦ rw e (Distinct-touch_all cs touched d)
  | inr e ↦ rw e (Distinct-touch_all cs (k ∷ touched) (e, d))
]

holds-append : (c : Text) (r s : List Text) → holds c (r ++ s) ≡ holds c r || holds c s
unfolding holds
holds-append c [] s = refl
holds-append c (k ∷ r) s = ground (arith, holds-append c r s)

-- What the loop adds from outside a report, and from inside one whose components are touched.
abbrev Outside : Text → Text → List LogLine → Type 0
Outside c target ls =
    (out : Credits)
    → credits_of (scan target false [] ls out) c target
      ≡ credits_of out c target + touching c (reports_from none ls)

abbrev Inside : Text → Text → List LogLine → Type 0
Inside c target ls =
    (touched report : List Text) (out : Credits)
    → holds c touched ≡ holds c report
    → Distinct touched
    → credits_of (scan target true touched ls out) c target
      ≡ credits_of out c target + touching c (reports_from (some report) ls)

credits_of-scan : (c target : Text) (ls : List LogLine) → Outside c target ls × Inside c target ls
unfolding scan credit
credits_of-scan c target [] = (
  λ out. omega arith,
  λ touched report out h d. credits_of-credit c target touched out d ∙ rw h (omega arith),
)
credits_of-scan c target (crash_start ∷ ls) =
    let inside = (credits_of-scan c target ls).1 in
    (
      λ out. inside [] [] out refl tt,
      λ touched report out h d.
          inside [] [] (credit target touched out) refl tt
          ∙ rw (credits_of-credit c target touched out d, h) (omega arith),
    )
credits_of-scan c target (report_end ∷ ls) =
    let outside = (credits_of-scan c target ls).0 in
    (
      outside,
      λ touched report out h d.
          outside (credit target touched out)
          ∙ rw (credits_of-credit c target touched out d, h) (omega arith),
    )
credits_of-scan c target (frames cs ∷ ls) =
    let (outside, inside) = credits_of-scan c target ls in
    (
      outside,
      λ touched report out h d.
          inside (touch_all cs touched) (report ++ cs) out
            (rw (holds-touch_all c cs touched, holds-append c report cs, h) refl)
            (Distinct-touch_all cs touched d),
    )

-- Scanning a log adds to the credits of a component for a target as many as there are reports in the
-- log with a frame of the component.
pub scan_log-touching :
    (c target : Text) (ls : List LogLine) (out : Credits)
    → credits_of (scan_log ls target out) c target
      ≡ credits_of out c target + touching c (reports_in ls)
unfolding scan_log
scan_log-touching c target ls out = (credits_of-scan c target ls).0 out
