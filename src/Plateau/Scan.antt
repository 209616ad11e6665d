-- ===== src/Plateau/Scan.antt =====
-- go/internal/plateau/plateau.go: `ScanCov` and `Credited`. What the regular expressions give on a
-- line, once it is stripped and trimmed, is a `CovLine`; a ledger is the list of the records that
-- decode from it, up to the first that does not.
use pg_fuzz.Base.{
  ℕ, ◌+◌, max, ◌≡◌, refl, inl, inr, false, List, [], ◌∷◌, Text, Map, lookup_or, lookup-put, put, eq,
  eq_iff, is_empty, ltb, if◌then◌else◌, Bool-cases, arith,
}

pub data CovLine : Type 0 where
  banner : Text → CovLine
  sample : ℕ → CovLine
  other_line : CovLine

-- A sample of the target that the text is in raises its coverage.
abbrev pub raise_cov : Text → ℕ → Map ℕ → Map ℕ
raise_cov target v cov =
    if is_empty target
    then cov
    else if ltb (lookup_or 0 target cov) v
    then put target v cov
    else cov

-- `ScanCov`: the target that the text ended in, and the coverage.
unfoldable pub scan_cov : List CovLine → Text → Map ℕ → Text × Map ℕ
scan_cov [] target cov = (target, cov)
scan_cov (banner t ∷ ls) target cov = scan_cov ls t cov
scan_cov (sample v ∷ ls) target cov = scan_cov ls target (raise_cov target v cov)
scan_cov (other_line ∷ ls) target cov = scan_cov ls target cov

pub record Removal : Type 0 where
  pub ws : Text
  pub removed : ℕ

-- `Credited`.
unfoldable pub credited : List Removal → Text → ℕ
credited [] ws = 0
credited (r ∷ rs) ws = (if eq r.ws ws then r.removed else 0) + credited rs ws

-- The highest sample that stands in the sections of a target.
abbrev pub best_under : Text → List CovLine → Text → ℕ
best_under t [] target = 0
best_under t (banner next ∷ ls) target = best_under t ls next
best_under t (sample v ∷ ls) target = max (if eq target t then v else 0) (best_under t ls target)
best_under t (other_line ∷ ls) target = best_under t ls target

-- The target of the last banner, or the one that the text starts in.
abbrev pub last_banner : List CovLine → Text → Text
last_banner [] target = target
last_banner (banner t ∷ ls) target = last_banner ls t
last_banner (sample v ∷ ls) target = last_banner ls target
last_banner (other_line ∷ ls) target = last_banner ls target

lookup-raise_cov :
    (t target : Text) (v : ℕ) (cov : Map ℕ)
    → is_empty t ≡ false
    → lookup_or 0 t (raise_cov target v cov)
      ≡ max (lookup_or 0 t cov) (if eq target t then v else 0)
lookup-raise_cov t target v cov h = elim (Bool-cases (eq target t)) [
  | inl e ↦
      rw ((eq_iff target t).0 e, h) (ground (arith, lookup-put t t v cov, (eq_iff t t).1 refl))
  | inr e ↦ ground (arith, lookup-put target t v cov)
]

-- Scanning a text raises the coverage of a target to the highest sample in its sections, and lowers
-- none; the text ends in the section of its last banner.
pub scan_cov-best_under :
    (ls : List CovLine) (t target : Text) (cov : Map ℕ)
    → is_empty t ≡ false
    → ((scan_cov ls target cov).0 ≡ last_banner ls target)
      × (lookup_or 0 t (scan_cov ls target cov).1
          ≡ max (lookup_or 0 t cov) (best_under t ls target))
unfolding scan_cov
scan_cov-best_under [] t target cov h = (refl, omega arith)
scan_cov-best_under (banner next ∷ ls) t target cov h = scan_cov-best_under ls t next cov h
scan_cov-best_under (sample v ∷ ls) t target cov h =
    let rest = scan_cov-best_under ls t target (raise_cov target v cov) h in
    (rest.0, omega (arith, rest.1, lookup-raise_cov t target v cov h))
scan_cov-best_under (other_line ∷ ls) t target cov h = scan_cov-best_under ls t target cov h
