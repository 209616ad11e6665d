-- ===== src/Ratchet/Shift.antt =====
-- The regime bookkeeping of `Update`: a floor of another regime goes to the archive, and nothing else
-- moves.
use pg_fuzz.Base.{
  ℕ, ◌≡◌, refl, ◌∙◌, ap, inl, inr, true, false, [], ◌∷◌, Option, none, some, Text, Map, lookup,
  lookup_or, lookup-put, lookup-delete, put, Unique, Unique-delete, is_some, eq, eq_iff, eq_refl,
  if◌then◌else◌, Bool-cases, is_empty, arith, or_else,
}
use pg_fuzz.Ratchet.Update.{Shift, stale, shift_one, shift_all, shift}

-- What the maps hold for one target.
pub record Entry : Type 0 where
  pub floor : Option ℕ
  pub regime : Option Text
  pub archived : Map ℕ

abbrev pub entry : Text → Shift → Entry
entry k s = record {
  floor = lookup k s.floors;
  regime = lookup k s.regimes;
  archived = lookup_or [] k s.archive;
}

shift_one-other :
    (rkey t k : Text) (v : ℕ) (s : Shift)
    → eq t k ≡ false
    → entry k (shift_one rkey t v s) ≡ entry k s
unfolding shift_one
shift_one-other rkey t k v s h = elim (Bool-cases (stale rkey (lookup_or [] t s.regimes))) [
  | inr e ↦ rw (e, shift_one)
  | inl e ↦ rw (
    e,
    shift_one,
    lookup-delete t k s.floors,
    lookup-delete t k s.regimes,
    lookup-put t k (put (lookup_or [] t s.regimes) v (lookup_or [] t s.archive)) s.archive,
    h,
  )
]

-- The entry after the target's own round of the loop.
abbrev pub shifted : Text → ℕ → Entry → Entry
shifted rkey v e =
    if stale rkey (or_else e.regime [])
    then record { floor = none; regime = none; archived = put (or_else e.regime []) v e.archived }
    else e

shift_one_self :
    (rkey k : Text) (v : ℕ) (s : Shift)
    → entry k (shift_one rkey k v s) ≡ shifted rkey v (entry k s)
unfolding shift_one
shift_one_self rkey k v s = elim (Bool-cases (stale rkey (lookup_or [] k s.regimes))) [
  | inr e ↦ rw (e, shift_one)
  | inl e ↦ rw (
    e,
    shift_one,
    lookup-delete k k s.floors,
    lookup-delete k k s.regimes,
    lookup-put k k (put (lookup_or [] k s.regimes) v (lookup_or [] k s.archive)) s.archive,
    eq_refl k,
  )
]

not-some : (o : Option ℕ) → is_some o ≡ false → o ≡ none
not-some none h = refl
not-some (some n) h = cc

shift_all-absent :
    (rkey k : Text) (rest : Map ℕ) (s : Shift)
    → lookup k rest ≡ none
    → entry k (shift_all rkey rest s) ≡ entry k s
unfolding shift_all
shift_all-absent rkey k [] s h = refl
shift_all-absent rkey k ((t, v) ∷ rest) s h = elim (Bool-cases (eq t k)) [
  | inl e ↦ absurd (ground arith)
  | inr e ↦ shift_all-absent rkey k rest _ (ground arith) ∙ shift_one-other rkey t k v s e
]

shift_all-present :
    (rkey k : Text) (rest : Map ℕ) (v : ℕ) (s : Shift)
    → Unique rest
    → lookup k rest ≡ some v
    → entry k (shift_all rkey rest s) ≡ shifted rkey v (entry k s)
unfolding shift_all
shift_all-present rkey k [] v s u h = absurd (ground arith)
shift_all-present rkey k ((t, w) ∷ rest) v s u h = elim (Bool-cases (eq t k)) [
  | inl e ↦
      let same = (eq_iff t k).0 e in
      let value : w ≡ v = ground arith in
      let once : lookup k rest ≡ none = not-some _ (rw same at u.0) in
      rw (same, value) (shift_all-absent rkey k rest _ once ∙ shift_one_self rkey k v s)
  | inr e ↦
      shift_all-present rkey k rest v _ u.1 (ground arith)
      ∙ ap (shifted rkey v) (shift_one-other rkey t k w s e)
]

shift_all-Unique :
    (rkey : Text) (rest : Map ℕ) (s : Shift)
    → Unique s.floors
    → Unique (shift_all rkey rest s).floors
unfolding shift_all shift_one
shift_all-Unique rkey [] s u = u
shift_all-Unique rkey ((t, v) ∷ rest) s u =
    shift_all-Unique rkey rest _ (elim (Bool-cases (stale rkey (lookup_or [] t s.regimes))) [
      | inl e ↦ rw (e, shift_one) (Unique-delete t s.floors u)
      | inr e ↦ rw (e, shift_one) u
    ])

pub shift-Unique : (rkey : Text) (s : Shift) → Unique s.floors → Unique (shift rkey s).floors
unfolding shift
shift-Unique rkey s u = elim (Bool-cases (is_empty rkey)) [
  | inl e ↦ rw (e, shift) u
  | inr e ↦ rw (e, shift) (shift_all-Unique rkey s.floors s u)
]

-- A target with no floor is left alone.
pub shift-absent :
    (rkey k : Text) (s : Shift) → lookup k s.floors ≡ none → entry k (shift rkey s) ≡ entry k s
unfolding shift
shift-absent rkey k s h = elim (Bool-cases (is_empty rkey)) [
  | inl e ↦ rw (e, shift)
  | inr e ↦ rw (e, shift) (shift_all-absent rkey k s.floors s h)
]

-- A floor is archived under the regime that earned it when that is another one, and else kept.
pub shift-present :
    (rkey k : Text) (v : ℕ) (s : Shift)
    → Unique s.floors
    → is_empty rkey ≡ false
    → lookup k s.floors ≡ some v
    → entry k (shift rkey s) ≡ shifted rkey v (entry k s)
unfolding shift
shift-present rkey k v s u r h = rw (r, shift) (shift_all-present rkey k s.floors v s u h)

-- Without a regime nothing moves.
pub shift-no_regime : (rkey : Text) (s : Shift) → is_empty rkey ≡ true → shift rkey s ≡ s
unfolding shift
shift-no_regime rkey s r = rw (r, shift)
