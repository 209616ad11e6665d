-- ===== src/Base/Splits.antt =====
-- `strings.Split` of a text that grows: only the last field is split on.
use Prim.Native.Nat.{ℕ}
use mathlib.Core.Path.{◌≡◌, refl, ap, ◌∙◌}
use mathlib.Core.Logic.{◌≢◌, inl, inr}
use mathlib.Core.Bool.{false}
use mathlib.Core.List.{List, [], ◌∷◌, ◌++◌}
use pg_fuzz.Base.Tests.{◌==◌, Bool-cases}
use pg_fuzz.Base.Texts.{Text}
use pg_fuzz.Base.Fields.{onto_first, split_on}

ne-onto_first : (c : ℕ) (ts : List Text) → onto_first c ts ≢ []
ne-onto_first c [] h = cc
ne-onto_first c (t ∷ ts) h = cc

pub ne-split_on : (sep : ℕ) (s : Text) → split_on sep s ≢ []
unfolding split_on
ne-split_on sep [] = λ h. cc
ne-split_on sep (c ∷ s) = elim (Bool-cases (c == sep)) [
  | inl e ↦ rw e (λ h. cc)
  | inr e ↦ rw e (ne-onto_first c (split_on sep s))
]

-- The fields of a text, with another text put behind the last.
abbrev glue : ℕ → List Text → Text → List Text
glue sep [] q = split_on sep q
glue sep (l ∷ []) q = split_on sep (l ++ q)
glue sep (l ∷ m ∷ ls) q = l ∷ glue sep (m ∷ ls) q

onto_first-glue :
    (sep c : ℕ) (ts : List Text) (q : Text)
    → (c == sep) ≡ false
    → onto_first c (glue sep ts q) ≡ glue sep (onto_first c ts) q
unfolding split_on
onto_first-glue sep c [] q e = rw e refl
onto_first-glue sep c (l ∷ []) q e = rw e refl
onto_first-glue sep c (l ∷ m ∷ ls) q e = refl

nil-glue :
    (sep : ℕ) (ts : List Text) (q : Text) → ts ≢ [] → [] ∷ glue sep ts q ≡ glue sep ([] ∷ ts) q
nil-glue sep [] q ne = absurd (ne refl)
nil-glue sep (t ∷ ts) q ne = refl

glue-split_on : (sep : ℕ) (p q : Text) → split_on sep (p ++ q) ≡ glue sep (split_on sep p) q
unfolding split_on
glue-split_on sep [] q = refl
glue-split_on sep (c ∷ p) q =
    let rest = glue-split_on sep p q in
    elim (Bool-cases (c == sep)) [
      | inl e ↦ rw e (ap (◌∷◌ []) rest ∙ nil-glue sep (split_on sep p) q (ne-split_on sep p))
      | inr e ↦ rw e (ap (onto_first c) rest ∙ onto_first-glue sep c (split_on sep p) q e)
    ]

glue-last :
    (sep : ℕ) (ls : List Text) (t q : Text)
    → glue sep (ls ++ t ∷ []) q ≡ ls ++ split_on sep (t ++ q)
glue-last sep [] t q = refl
glue-last sep (l ∷ []) t q = refl
glue-last sep (l ∷ m ∷ ls) t q = ap (◌∷◌ l) (glue-last sep (m ∷ ls) t q)

-- Splitting goes on from the last field.
pub split_on-append :
    (sep : ℕ) (p q : Text) (ls : List Text) (t : Text)
    → split_on sep p ≡ ls ++ t ∷ []
    → split_on sep (p ++ q) ≡ ls ++ split_on sep (t ++ q)
split_on-append sep p q ls t h =
    glue-split_on sep p q ∙ ap (λ ts. glue sep ts q) h ∙ glue-last sep ls t q
