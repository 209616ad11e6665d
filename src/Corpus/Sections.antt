-- ===== src/Corpus/Sections.antt =====
-- `ParseSweepForCap` gives each target what the lines of its own sections say, whatever stands
-- between them.
use pg_fuzz.Base.{
  ◌≡◌, refl, ap, ◌∙◌, sym, inl, inr, Bool, true, false, not, ◌&&◌, ◌||◌, List, [], ◌∷◌, Option,
  none, some, Text, Map, lookup, lookup_or, lookup-put, eq, eq_iff, eq_refl, if◌then◌else◌, is_some,
  Bool-cases, Option-cases, arith,
}
use pg_fuzz.Corpus.Sweep.{
  TargetLog, CapLine, no_log, apply_line, open_section, apply_to, scan_sweep, parse_sweep_for_cap,
}

abbrev pub is_open : Text → Option Text → Bool
is_open t none = false
is_open t (some c) = eq c t

-- The lines of a target's sections.
abbrev pub section : Text → List CapLine → Option Text → List CapLine
section t [] cur = []
section t (l ∷ ls) cur =
    let same = section t ls cur in
    let within = if is_open t cur then l ∷ same else same in
    let opened : List CapLine = elim l.banner [ none ↦ within | some c ↦ section t ls (some c) ] in
    if not l.relevant then same else opened

abbrev names : Text → CapLine → Bool
names t l = l.relevant && is_open t l.banner

-- Whether a banner names the target.
abbrev pub named : Text → List CapLine → Bool
named t [] = false
named t (l ∷ ls) = names t l || named t ls

abbrev pub apply_all : TargetLog → List CapLine → TargetLog
apply_all d [] = d
apply_all d (l ∷ ls) = apply_all (apply_line d l) ls

-- What the lines to come make of a target's entry.
abbrev ahead : Text → List CapLine → Option Text → Option TargetLog → Option TargetLog
ahead t ls cur none = if named t ls then some (apply_all no_log (section t ls cur)) else none
ahead t ls cur (some d) = some (apply_all d (section t ls cur))

-- The open section's target has an entry.
abbrev HasEntry : Option Text → Map TargetLog → Type 0
HasEntry none per = Unit
HasEntry (some c) per = is_some (lookup c per) ≡ true

HasEntry-open_section : (c : Text) (per : Map TargetLog) → HasEntry (some c) (open_section c per)
HasEntry-open_section c per = ground (arith, lookup-put c c no_log per, eq_refl c)

HasEntry-apply_to :
    (cur : Option Text) (l : CapLine) (per : Map TargetLog)
    → HasEntry cur per
    → HasEntry cur (apply_to cur l per)
HasEntry-apply_to none l per h = tt
HasEntry-apply_to (some c) l per h =
    rw (lookup-put c c (apply_line (lookup_or no_log c per) l) per, eq_refl c) refl

ahead-nil : (t : Text) (cur : Option Text) (o : Option TargetLog) → ahead t [] cur o ≡ o
ahead-nil t cur none = refl
ahead-nil t cur (some d) = refl

ahead-skipped :
    (t : Text) (l : CapLine) (ls : List CapLine) (cur : Option Text) (o : Option TargetLog)
    → l.relevant ≡ false
    → ahead t (l ∷ ls) cur o ≡ ahead t ls cur o
ahead-skipped t l ls cur none h = rw h refl
ahead-skipped t l ls cur (some d) h = rw h refl

ahead-opened :
    (t c : Text) (l : CapLine) (ls : List CapLine) (cur : Option Text) (per : Map TargetLog)
    → l.relevant ≡ true
    → l.banner ≡ some c
    → ahead t ls (some c) (lookup t (open_section c per)) ≡ ahead t (l ∷ ls) cur (lookup t per)
ahead-opened t c l ls cur per h b = elim (Option-cases (lookup c per)) [
  | inl new ↦ elim (Bool-cases (eq c t)) [
    | inl e ↦
        let here : lookup t per ≡ none = rw (← (eq_iff c t).0 e) new in
        rw (new, lookup-put c t no_log per, here, h, b, e) refl
    | inr e ↦
        rw (new, lookup-put c t no_log per, e)
          (elim (Option-cases (lookup t per)) [
            | inl q ↦ rw (q, h, b, e) refl
            | inr (d, q) ↦ rw (q, h, b) refl
          ])
  ]
  | inr (d, old) ↦ elim (Bool-cases (eq c t)) [
    | inl e ↦
        let here : lookup t per ≡ some d = rw (← (eq_iff c t).0 e) old in rw (h, b, old, here) refl
    | inr e ↦ rw (old) (elim (Option-cases (lookup t per)) [
      | inl q ↦ rw (q, h, b, e) refl
      | inr (d', q) ↦ rw (q, h, b) refl
    ])
  ]
]

ahead-within :
    (t : Text) (l : CapLine) (ls : List CapLine) (cur : Option Text) (per : Map TargetLog)
    → l.relevant ≡ true
    → l.banner ≡ none
    → HasEntry cur per
    → ahead t ls cur (lookup t (apply_to cur l per)) ≡ ahead t (l ∷ ls) cur (lookup t per)
ahead-within t l ls none per h b there = elim (Option-cases (lookup t per)) [
  | inl q ↦ rw (q, h, b) refl
  | inr (d, q) ↦ rw (q, h, b) refl
]
ahead-within t l ls (some c) per h b there = elim (Bool-cases (eq c t)) [
  | inl e ↦ elim (Option-cases (lookup t per)) [
    | inl q ↦ absurd (cc (rw ((eq_iff c t).0 e, q) at there))
    | inr (d, q) ↦
        let value : lookup_or no_log c per ≡ d = rw ((eq_iff c t).0 e, q) refl in
        rw (lookup-put c t (apply_line (lookup_or no_log c per) l) per, value, q, e)
          (simp (h, b, e))
  ]
  | inr e ↦
      rw (lookup-put c t (apply_line (lookup_or no_log c per) l) per, e)
        (elim (Option-cases (lookup t per)) [
          | inl q ↦ rw q (simp (h, b, e))
          | inr (d, q) ↦ rw q (simp (h, b, e))
        ])
]

scan_sweep-within :
    (l : CapLine) (ls : List CapLine) (cur : Option Text) (per : Map TargetLog)
    → l.relevant ≡ true
    → l.banner ≡ none
    → scan_sweep (l ∷ ls) cur per ≡ scan_sweep ls cur (apply_to cur l per)
unfolding scan_sweep
scan_sweep-within l ls cur per r b = simp (r, b)

scan_sweep-opened :
    (c : Text) (l : CapLine) (ls : List CapLine) (cur : Option Text) (per : Map TargetLog)
    → l.relevant ≡ true
    → l.banner ≡ some c
    → scan_sweep (l ∷ ls) cur per ≡ scan_sweep ls (some c) (open_section c per)
unfolding scan_sweep
scan_sweep-opened c l ls cur per r b = simp (r, b)

scan_sweep-skipped :
    (l : CapLine) (ls : List CapLine) (cur : Option Text) (per : Map TargetLog)
    → l.relevant ≡ false
    → scan_sweep (l ∷ ls) cur per ≡ scan_sweep ls cur per
unfolding scan_sweep
scan_sweep-skipped l ls cur per r = simp r

lookup-scan_sweep :
    (t : Text) (ls : List CapLine) (cur : Option Text) (per : Map TargetLog)
    → HasEntry cur per
    → lookup t (scan_sweep ls cur per) ≡ ahead t ls cur (lookup t per)
unfolding scan_sweep
lookup-scan_sweep t [] cur per h = sym (ahead-nil t cur (lookup t per))
lookup-scan_sweep t (l ∷ ls) cur per h = elim (Bool-cases l.relevant) [
  | inl r ↦ elim (Option-cases l.banner) [
    | inl b ↦
        ap (lookup t) (scan_sweep-within l ls cur per r b)
        ∙ lookup-scan_sweep t ls cur (apply_to cur l per) (HasEntry-apply_to cur l per h)
        ∙ ahead-within t l ls cur per r b h
    | inr (c, b) ↦
        ap (lookup t) (scan_sweep-opened c l ls cur per r b)
        ∙ lookup-scan_sweep t ls (some c) (open_section c per) (HasEntry-open_section c per)
        ∙ ahead-opened t c l ls cur per r b
  ]
  | inr r ↦
      ap (lookup t) (scan_sweep-skipped l ls cur per r)
      ∙ lookup-scan_sweep t ls cur per h
      ∙ sym (ahead-skipped t l ls cur (lookup t per) r)
]

-- A target has an entry exactly when a banner names it, and the entry is what the lines of its own
-- sections make of an empty one, in their order.
pub parse_sweep_for_cap-section :
    (t : Text) (ls : List CapLine)
    → lookup t (parse_sweep_for_cap ls)
      ≡ (if named t ls then some (apply_all no_log (section t ls none)) else none)
unfolding parse_sweep_for_cap
parse_sweep_for_cap-section t ls = lookup-scan_sweep t ls none [] tt
