-- ===== src/Campaign/Rotation.antt =====
-- go/internal/campaign/run.go: the rotation of the entries, and what is said of a sweep. An entry
-- moves as it is, so the lists hold anything.
use pg_fuzz.Base.{
  ℕ, ◌+◌, ◌*◌, ◌%◌, ◌≤◌, ◌≡◌, ◌↔◌, refl, inl, inr, Bool, true, false, List, [], ◌∷◌, ◌++◌, Perm,
  Text, codes, length, take, drop, take-append-drop, leb, leb_iff, ltb, if◌then◌else◌, Bool-cases,
  append-nil, subst, arith,
}
use mathlib.Core.List.{perm_append_comm}
use mathlib.Core.List.Perm

-- `rotate`, by a number that is not negative: the source's second remainder then changes nothing.
unfoldable pub rotate {ℓ} : {A : Type ℓ} → List A → ℕ → List A
rotate xs by =
    let n = length xs in
    if ltb n 2 then xs else drop ((by % n + n) % n) xs ++ take ((by % n + n) % n) xs

-- The order of a round.
unfoldable pub round_order {ℓ} : {A : Type ℓ} → List A → ℕ → List A
unfolding rotate
round_order entries round = rotate entries (round * 7)

-- A result of a sweep, as far as the round is judged by it.
pub record SliceResult : Type 0 where
  pub target : Text
  pub failed : Bool
  pub disk_stop : Bool

-- The slices that ran.
abbrev pub ran : List SliceResult → ℕ
ran [] = 0
ran (r ∷ rs) = (if r.failed then 0 else 1) + ran rs

abbrev pub disk_cut : List SliceResult → List Text
disk_cut [] = []
disk_cut (r ∷ rs) = if r.disk_stop then r.target ∷ disk_cut rs else disk_cut rs

-- `strings.Join(diskCut, ", ")`.
abbrev join_names : List Text → Text
join_names [] = []
join_names (t ∷ []) = t
join_names (t ∷ u ∷ ts) = t ++ (codes ", " ++ join_names (u ∷ ts))

-- `reasonNotJudgeable`.
unfoldable pub reason_not_judgeable : Bool → List Text → Text
reason_not_judgeable complete [] = if complete then [] else codes "the sweep was cut short"
reason_not_judgeable complete (t ∷ ts) =
    if complete
    then codes "the disk floor cut " ++ join_names (t ∷ ts)
    else codes "the sweep was cut short"

-- The end of `runOne`: whether the round is complete, and why it is not judged.
unfoldable pub sweep_verdict : List Text → List SliceResult → Bool × Text
unfolding reason_not_judgeable
sweep_verdict targets res =
    let complete = leb (length targets) (ran res) in
    (complete, reason_not_judgeable complete (disk_cut res))

-- A rotation keeps every entry, as often.
pub round_order-perm {ℓ} :
    {A : Type ℓ} (entries : List A) (round : ℕ) → Perm (round_order entries round) entries
unfolding round_order rotate
round_order-perm entries round = elim (Bool-cases (ltb (length entries) 2)) [
  | inl e ↦ rw e (Perm.refl entries)
  | inr e ↦
      let off = (round * 7 % length entries + length entries) % length entries in
      rw e (
        subst (λ ys. Perm (drop off entries ++ take off entries) ys) (take-append-drop off entries)
          (perm_append_comm (drop off entries) (take off entries)))
]

-- With seven entries every round has the same order.
pub round_order-seven {ℓ} :
    {A : Type ℓ} (entries : List A) (round : ℕ)
    → length entries ≡ 7
    → round_order entries round ≡ entries
unfolding round_order rotate
round_order-seven entries round h =
    let none_off : (round * 7 % 7 + 7) % 7 ≡ 0 = omega arith in
    rw (h, none_off) (append-nil entries)

reason_iff :
    (complete : Bool) (cut : List Text)
    → (reason_not_judgeable complete cut ≡ []) ↔ ((complete ≡ true) × (cut ≡ []))
unfolding reason_not_judgeable
reason_iff true [] = (λ h. (refl, refl), λ h. refl)
reason_iff false [] = (λ h. cc, λ h. cc h.0)
reason_iff true (t ∷ ts) = (λ h. cc, λ h. cc)
reason_iff false (t ∷ ts) = (λ h. cc, λ h. cc)

-- There is no reason against judging a round exactly when at least as many slices ran as there are
-- targets, and the disk floor cut none.
pub sweep_verdict_iff :
    (targets : List Text) (res : List SliceResult)
    → ((sweep_verdict targets res).1 ≡ []) ↔ ((length targets ≤ ran res) × (disk_cut res ≡ []))
unfolding sweep_verdict
sweep_verdict_iff targets res =
    let reason = reason_iff (leb (length targets) (ran res)) (disk_cut res) in
    let bound = leb_iff (length targets) (ran res) in
    (λ h. (bound.0 (reason.0 h).0, (reason.0 h).1), λ h. reason.1 (bound.1 h.0, h.1))
