-- ===== src/Findings/Counted.antt =====
-- Every finding is counted once.
use pg_fuzz.Base.{
  ℕ, suc, ◌+◌, List, [], ◌∷◌, Text, codes, is_empty, has_prefix, trim_space, length, total,
  total-bump, if◌then◌else◌, ◌≡◌, inl, inr, arith, Bool-cases, Option-cases,
}
use pg_fuzz.Findings.Areas.{
  Area, storage, core, harness, extensions, Finding, area_eq, by_area, target_name, Targets,
  by_target_one, by_target_from, by_targets,
}

abbrev all_of : Targets → ℕ
all_of c = total c.per + c.systemic + c.unattributed

by_target_one-all_of : (v : Text) (c : Targets) → all_of (by_target_one v c) ≡ suc (all_of c)
unfolding by_target_one
by_target_one-all_of v c = elim (Bool-cases (is_empty (trim_space v))) [
  | inl e ↦ rw e (omega arith)
  | inr e ↦ elim (Bool-cases (has_prefix (trim_space v) (codes "systemic"))) [
    | inl s ↦ rw (e, s) (omega arith)
    | inr s ↦ elim (Bool-cases (has_prefix (trim_space v) (codes "unknown"))) [
      | inl u ↦ rw (e, s, u) (omega arith)
      | inr u ↦ elim (Option-cases (target_name (trim_space v))) [
        | inl n ↦ rw (e, s, u, n) (omega arith)
        | inr (t, n) ↦ rw (e, s, u, n) (omega (arith, total-bump t c.per))
      ]
    ]
  ]
]

by_target_from-all_of :
    (fs : List Finding) (c : Targets) → all_of (by_target_from fs c) ≡ length fs + all_of c
by_target_from-all_of [] c = omega arith
by_target_from-all_of (f ∷ fs) c = omega (
  arith,
  by_target_from-all_of fs (by_target_one f.found_by c),
  by_target_one-all_of f.found_by c,
)

by_area-all :
    (fs : List Finding)
    → by_area fs storage + by_area fs core + by_area fs harness + by_area fs extensions ≡ length fs
unfolding by_area
by_area-all [] = omega arith
by_area-all (f ∷ fs) = one f.area (by_area-all fs)
  where
    one :
        (a : Area)
        → (by_area fs storage + by_area fs core + by_area fs harness + by_area fs extensions
            ≡ length fs)
        → (if area_eq a storage then suc (by_area fs storage) else by_area fs storage)
            + (if area_eq a core then suc (by_area fs core) else by_area fs core)
            + (if area_eq a harness then suc (by_area fs harness) else by_area fs harness)
            + (if area_eq a extensions then suc (by_area fs extensions) else by_area fs extensions)
          ≡ suc (length fs)
    one storage h = omega arith
    one core h = omega arith
    one harness h = omega arith
    one extensions h = omega arith

-- The counts per target, the systemic findings and those that are not attributed are together all
-- findings, and so are the counts of the four areas.
pub by_target_all :
    (fs : List Finding)
    → (total (by_targets fs).per + (by_targets fs).systemic + (by_targets fs).unattributed
        ≡ length fs)
      × (by_area fs storage + by_area fs core + by_area fs harness + by_area fs extensions
          ≡ length fs)
unfolding by_targets
by_target_all fs = (
  omega (arith, by_target_from-all_of fs (record { per = []; systemic = 0; unattributed = 0 })),
  by_area-all fs,
)
