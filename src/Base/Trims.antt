-- ===== src/Base/Trims.antt =====
-- Trimming a text does not change what stands before a separator that is no space, but for the spaces
-- around it.
use Prim.Native.Nat.{ℕ}
use mathlib.Core.Path.{◌≡◌, refl, ap, ◌∙◌, sym, subst}
use mathlib.Core.Logic.{inl, inr}
use mathlib.Core.Bool.{true, false}
use mathlib.Core.List.{[], ◌∷◌, ◌++◌, reverse, reverse-append, reverse-cons}
use mathlib.Core.Option.{Option, none, some}
use native.Mathlib.Omega.{arith}
use pg_fuzz.Base.Tests.{◌==◌, ==_iff, if◌then◌else◌, Bool-cases}
use pg_fuzz.Base.Texts.{Text, is_empty}
use pg_fuzz.Base.Fields.{is_space, trim_left, trim_space, onto_key, cut_at}

abbrev trim_right : Text → Text
trim_right s = reverse (trim_left (reverse s))

trim_left-snoc :
    (xs : Text) (c : ℕ)
    → trim_left (xs ++ c ∷ []) ≡ (
        if is_empty (trim_left xs)
        then (if is_space c then [] else c ∷ [])
        else trim_left xs ++ c ∷ [])
trim_left-snoc [] c = refl
trim_left-snoc (x ∷ xs) c = elim (Bool-cases (is_space x)) [
  | inl e ↦ rw e (trim_left-snoc xs c)
  | inr e ↦ rw e refl
]

full-snoc : (s : Text) (c : ℕ) → is_empty (s ++ c ∷ []) ≡ false
full-snoc [] c = refl
full-snoc (x ∷ s) c = refl

full-reverse : (x : ℕ) (t : Text) → is_empty (reverse (x ∷ t)) ≡ false
full-reverse x t = ap is_empty (reverse-cons x t) ∙ full-snoc (reverse t) x

trim_right-cons :
    (c : ℕ) (s : Text)
    → trim_right (c ∷ s)
      ≡ (if is_empty (trim_right s) then (if is_space c then [] else c ∷ []) else c ∷ trim_right s)
trim_right-cons c s =
    ap (λ t. reverse (trim_left t)) (reverse-cons c s)
    ∙ ap reverse (trim_left-snoc (reverse s) c)
    ∙ turned (trim_left (reverse s))
  where
    turned :
        (t : Text)
        → reverse (if is_empty t then (if is_space c then [] else c ∷ []) else t ++ c ∷ [])
          ≡ (if is_empty (reverse t) then (if is_space c then [] else c ∷ []) else c ∷ reverse t)
    turned [] = elim (Bool-cases (is_space c)) [ inl e ↦ rw e refl | inr e ↦ rw e refl ]
    turned (x ∷ t) =
        reverse-append (x ∷ t) (c ∷ [])
        ∙ sym (
            ap (λ b. if b then (if is_space c then [] else c ∷ []) else c ∷ reverse (x ∷ t))
              (full-reverse x t))

-- What stands before the first separator.
abbrev pub key_of : Option (Text × Text) → Option Text
key_of none = none
key_of (some (k, v)) = some k

abbrev onto : ℕ → Option Text → Option Text
onto c none = none
onto c (some k) = some (c ∷ k)

key_of-onto_key : (c : ℕ) (o : Option (Text × Text)) → key_of (onto_key c o) ≡ onto c (key_of o)
key_of-onto_key c none = refl
key_of-onto_key c (some (k, v)) = refl

empty-is_empty : (s : Text) → is_empty s ≡ true → s ≡ []
empty-is_empty [] h = refl
empty-is_empty (c ∷ s) h = absurd (cc h)

key_of-trim_right :
    (sep : ℕ) (s : Text)
    → is_space sep ≡ false
    → key_of (cut_at sep (trim_right s)) ≡ key_of (cut_at sep s)
unfolding cut_at
key_of-trim_right sep [] h = refl
key_of-trim_right sep (c ∷ s) h =
    let rest = key_of-trim_right sep s h in
    ap (λ t. key_of (cut_at sep t)) (trim_right-cons c s) ∙ elim (Bool-cases (c == sep)) [
      | inl e ↦
          let plain : is_space c ≡ false = rw ((==_iff c sep).0 e) h in
          elim (Bool-cases (is_empty (trim_right s))) [
            | inl b ↦ rw (b, plain, e) refl
            | inr b ↦ rw (b, e) refl
          ]
      | inr e ↦ rw e (elim (Bool-cases (is_empty (trim_right s))) [
        | inl b ↦
            let none_left : trim_right s ≡ [] = empty-is_empty (trim_right s) b in
            let none_before : none ≡ key_of (cut_at sep s) = rw none_left at rest in
            rw (b, key_of-onto_key c (cut_at sep s), ← none_before)
              (elim (Bool-cases (is_space c)) [ inl p ↦ rw p refl | inr p ↦ rw (p, e) refl ])
        | inr b ↦ rw b (
            rw e (
              key_of-onto_key c (cut_at sep (trim_right s))
              ∙ ap (onto c) rest
              ∙ sym (key_of-onto_key c (cut_at sep s))))
      ])
    ]

-- Trimming what is trimmed.
abbrev pub trimmed : Option Text → Option Text
trimmed none = none
trimmed (some k) = some (trim_space k)

trimmed-onto : (c : ℕ) (o : Option Text) → is_space c ≡ true → trimmed (onto c o) ≡ trimmed o
unfolding trim_space
trimmed-onto c none h = refl
trimmed-onto c (some k) h = rw h refl

key_of-trim_left :
    (sep : ℕ) (s : Text)
    → is_space sep ≡ false
    → trimmed (key_of (cut_at sep (trim_left s))) ≡ trimmed (key_of (cut_at sep s))
unfolding cut_at
key_of-trim_left sep [] h = refl
key_of-trim_left sep (c ∷ s) h = elim (Bool-cases (is_space c)) [
  | inr e ↦ rw e refl
  | inl e ↦
      let other : (c == sep) ≡ false = elim (Bool-cases (c == sep)) [
        | inl q ↦
            let space : is_space sep ≡ true =
              subst (λ x. is_space x ≡ true) ((==_iff c sep).0 q) e in
            ground (arith, space, h)
        | inr q ↦ q
      ] in
      rw (e, other)
        (key_of-trim_left sep s h
          ∙ sym (
              ap trimmed (key_of-onto_key c (cut_at sep s))
              ∙ trimmed-onto c (key_of (cut_at sep s)) e))
]

-- The trimmed key of a line is that of the trimmed line.
pub trimmed-cut_at :
    (sep : ℕ) (s : Text)
    → is_space sep ≡ false
    → trimmed (key_of (cut_at sep (trim_space s))) ≡ trimmed (key_of (cut_at sep s))
unfolding trim_space
trimmed-cut_at sep s h =
    ap trimmed (key_of-trim_right sep (trim_left s) h) ∙ key_of-trim_left sep s h
