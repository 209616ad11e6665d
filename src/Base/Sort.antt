-- ===== src/Base/Sort.antt =====
-- `sort.Slice` with a comparison, as an insertion sort.
use mathlib.Core.Bool.{Bool}
use mathlib.Core.List.{List, [], ◌∷◌, Perm}
use mathlib.Core.List.Perm
use pg_fuzz.Base.Tests.{Bool-cases, if◌then◌else◌}
use mathlib.Core.Logic.{◌⊎◌, inl, inr}
use pg_fuzz.Base.Lists.{All, Any}

module _ {ℓ} {A : Type ℓ} where
  abbrev pub insert_by : (A → A → Bool) → A → List A → List A
  insert_by lt x [] = x ∷ []
  insert_by lt x (y ∷ ys) = if lt y x then y ∷ insert_by lt x ys else x ∷ y ∷ ys

  abbrev pub sort_by : (A → A → Bool) → List A → List A
  sort_by lt [] = []
  sort_by lt (x ∷ xs) = insert_by lt x (sort_by lt xs)

  insert_by-perm : (lt : A → A → Bool) (x : A) (ys : List A) → Perm (insert_by lt x ys) (x ∷ ys)
  insert_by-perm lt x [] = Perm.refl _
  insert_by-perm lt x (y ∷ ys) = elim (Bool-cases (lt y x)) [
    | inl e ↦ rw e (Perm.trans (Perm.cons y (insert_by-perm lt x ys)) (Perm.swap x y ys))
    | inr e ↦ rw e (Perm.refl _)
  ]

  -- The sorted list holds the same elements, as often.
  pub sort_by-perm : (lt : A → A → Bool) (xs : List A) → Perm (sort_by lt xs) xs
  sort_by-perm lt [] = Perm.nil
  sort_by-perm lt (x ∷ xs) =
      Perm.trans (insert_by-perm lt x (sort_by lt xs)) (Perm.cons x (sort_by-perm lt xs))

module _ {A : Type 0} where
  All-insert_by :
      (P : A → Type 0) (lt : A → A → Bool) (x : A) (ys : List A)
      → P x
      → All P ys
      → All P (insert_by lt x ys)
  All-insert_by P lt x [] p a = (p, tt)
  All-insert_by P lt x (y ∷ ys) p (q, a) = elim (Bool-cases (lt y x)) [
    | inl e ↦ rw e (q, All-insert_by P lt x ys p a)
    | inr e ↦ rw e (p, (q, a))
  ]

  pub All-sort_by :
      (P : A → Type 0) (lt : A → A → Bool) (xs : List A) → All P xs → All P (sort_by lt xs)
  All-sort_by P lt [] a = tt
  All-sort_by P lt (x ∷ xs) (p, a) = All-insert_by P lt x (sort_by lt xs) p (All-sort_by P lt xs a)

  Any-insert_by :
      (P : A → Type 0) (lt : A → A → Bool) (x : A) (ys : List A)
      → P x ⊎ Any P ys
      → Any P (insert_by lt x ys)
  Any-insert_by P lt x [] h = h
  Any-insert_by P lt x (y ∷ ys) h = elim (Bool-cases (lt y x)) [
    | inr e ↦ rw e h
    | inl e ↦ rw e (shifted (Any-insert_by P lt x ys) h)
  ]
    where
      shifted :
          (P x ⊎ Any P ys → Any P (insert_by lt x ys))
          → P x ⊎ (P y ⊎ Any P ys)
          → P y ⊎ Any P (insert_by lt x ys)
      shifted ih (inl p) = inr (ih (inl p))
      shifted ih (inr (inl q)) = inl q
      shifted ih (inr (inr a)) = inr (ih (inr a))

  pub Any-sort_by :
      (P : A → Type 0) (lt : A → A → Bool) (xs : List A) → Any P xs → Any P (sort_by lt xs)
  Any-sort_by P lt [] a = elim a [ ]
  Any-sort_by P lt (x ∷ xs) (inl p) = Any-insert_by P lt x (sort_by lt xs) (inl p)
  Any-sort_by P lt (x ∷ xs) (inr a) =
      Any-insert_by P lt x (sort_by lt xs) (inr (Any-sort_by P lt xs a))
