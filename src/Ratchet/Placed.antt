-- ===== src/Ratchet/Placed.antt =====
-- Every observation below the line is in one of the two lists that `Distribution` prints.
use pg_fuzz.Base.{
  ℕ, suc, ◌+◌, Bool, not, List, [], ◌∷◌, Text, Map, keep, length, insert_by, sort_by, ◌≡◌, refl, ap,
  ◌∙◌, inl, inr, arith, Bool-cases,
}
use pg_fuzz.Float.{Float}
use pg_fuzz.Ratchet.Distribution.{Ratio, spread_by, below_line, is_known}

length-keep-not :
    {A : Type 0} (p : A → Bool) (xs : List A)
    → length (keep p xs) + length (keep (λ x. not (p x)) xs) ≡ length xs
length-keep-not p [] = omega arith
length-keep-not p (x ∷ xs) = elim (Bool-cases (p x)) [
  | inl e ↦ rw e (omega (arith, length-keep-not p xs))
  | inr e ↦ rw e (omega (arith, length-keep-not p xs))
]

length-insert_by :
    {A : Type 0} (lt : A → A → Bool) (x : A) (ys : List A)
    → length (insert_by lt x ys) ≡ suc (length ys)
length-insert_by lt x [] = refl
length-insert_by lt x (y ∷ ys) = elim (Bool-cases (lt y x)) [
  | inl e ↦ rw e (ap suc (length-insert_by lt x ys))
  | inr e ↦ rw e refl
]

length-sort_by : {A : Type 0} (lt : A → A → Bool) (xs : List A) → length (sort_by lt xs) ≡ length xs
length-sort_by lt [] = refl
length-sort_by lt (x ∷ xs) = length-insert_by lt x (sort_by lt xs) ∙ ap suc (length-sort_by lt xs)

-- The known observations below the line and the others are together as many as there are observations
-- below the line.
pub spread_by-known :
    (f : Float) (tol : f.F) (acks : Map Text) (n : ℕ) (rs : List (Ratio f))
    → length (spread_by f tol acks n rs).known + length (spread_by f tol acks n rs).unknown
      ≡ length (keep (λ (r : Ratio f). f.lt r.ratio tol) rs)
spread_by-known f tol acks n rs =
    length-keep-not (is_known f acks) (below_line f tol rs) ∙ length-sort_by _ _
