-- ===== src/Ratchet/Commas.antt =====
-- The number that `commaInt` prints is read back when its commas are taken out.
use pg_fuzz.Base.{
  zero, decimal_from, ◌/◌, ℕ, suc, ◌+◌, ◌%◌, ◌^◌, ◌<◌, Bool, true, false, not, ◌&&◌, [], ◌∷◌, some,
  Text, length, decimal, atoi, atoi-decimal, ◌==◌, keep, ◌≡◌, refl, ap, ◌∙◌, inl, inr, arith,
  Bool-cases, All, List, ◌≤◌, split_on, onto_first,
}
use pg_fuzz.Ratchet.Show.{grouped, comma_int}

-- The text without its commas.
abbrev pub uncomma : Text → Text
uncomma s = keep (λ c. not (c == b',')) s

uncomma-grouped :
    (first : Bool) (s : Text) → All (λ c. (c == b',') ≡ false) s → uncomma (grouped first s) ≡ s
uncomma-grouped first [] a = refl
uncomma-grouped first (c ∷ s) (h, a) =
    let rest = uncomma-grouped false s a in
    elim (Bool-cases (not first && (length (c ∷ s) % 3 == 0))) [
      | inl e ↦ rw (e, h, rest) refl
      | inr e ↦ rw (e, h, rest) refl
    ]

-- The groups between the commas: one to three digits, and three in each behind the first.
abbrev pub IsGrouped : List Text → Type 0
IsGrouped [] = ⊥
IsGrouped (g ∷ gs) = (0 < length g) × (length g ≤ 3) × All (λ h. length h ≡ 3) gs

-- Behind a part of the digits, the first group is what is left over of the threes.
abbrev LeftOver : ℕ → List Text → Type 0
LeftOver n [] = ⊥
LeftOver n (g ∷ gs) = (length g ≡ n % 3) × All (λ h. length h ≡ 3) gs

onto_first-LeftOver :
    (c n : ℕ) (gs : List Text)
    → (suc n % 3 == 0) ≡ false
    → LeftOver n gs
    → LeftOver (suc n) (onto_first c gs)
onto_first-LeftOver c n (g ∷ gs) e (l, a) = (ground (arith, e, l), a)
onto_first-LeftOver c n [] e h = absurd h

cut-LeftOver :
    (c n : ℕ) (gs : List Text)
    → (suc n % 3 == 0) ≡ true
    → LeftOver n gs
    → LeftOver (suc n) ([] ∷ onto_first c gs)
cut-LeftOver c n (g ∷ gs) e (l, a) = (ground (arith, e), (ground (arith, e, l), a))
cut-LeftOver c n [] e h = absurd h

grouped-LeftOver :
    (s : Text)
    → All (λ c. (c == b',') ≡ false) s
    → LeftOver (length s) (split_on b',' (grouped false s))
unfolding split_on
grouped-LeftOver [] a = (refl, tt)
grouped-LeftOver (c ∷ s) (h, a) = elim (Bool-cases (length (c ∷ s) % 3 == 0)) [
  | inl e ↦ rw (e, h) (cut-LeftOver c (length s) _ e (grouped-LeftOver s a))
  | inr e ↦ rw (e, h) (onto_first-LeftOver c (length s) _ e (grouped-LeftOver s a))
]

onto_first-IsGrouped : (c n : ℕ) (gs : List Text) → LeftOver n gs → IsGrouped (onto_first c gs)
onto_first-IsGrouped c n (g ∷ gs) (l, a) = (omega arith, omega (arith, l), a)
onto_first-IsGrouped c n [] h = absurd h

grouped-IsGrouped :
    (s : Text)
    → All (λ c. (c == b',') ≡ false) s
    → 0 < length s
    → IsGrouped (split_on b',' (grouped true s))
unfolding split_on
grouped-IsGrouped [] a h = absurd (omega arith)
grouped-IsGrouped (c ∷ s) (d, a) h =
    rw d (onto_first-IsGrouped c (length s) _ (grouped-LeftOver s a))

All-decimal_from :
    (fuel n : ℕ) (rest : Text)
    → All (λ c. (c == b',') ≡ false) rest
    → All (λ c. (c == b',') ≡ false) (decimal_from fuel n rest)
All-decimal_from zero n rest a = a
All-decimal_from (suc fuel) n rest a =
    let digit : ((b'0' + n % 10) == b',') ≡ false = ground arith in
    elim (Bool-cases (n / 10 == 0)) [
      | inl e ↦ rw e (digit, a)
      | inr e ↦ rw e (All-decimal_from fuel (n / 10) ((b'0' + n % 10) ∷ rest) (digit, a))
    ]

uncomma-comma_int : (n : ℕ) → uncomma (comma_int n) ≡ decimal n
unfolding comma_int decimal
uncomma-comma_int n = uncomma-grouped true (decimal n) (All-decimal_from (suc n) n [] tt)

length-decimal_from : (fuel n : ℕ) (rest : Text) → length rest ≤ length (decimal_from fuel n rest)
length-decimal_from zero n rest = omega arith
length-decimal_from (suc fuel) n rest = elim (Bool-cases (n / 10 == 0)) [
  | inl e ↦ rw e (omega arith)
  | inr e ↦ rw e (omega (arith, length-decimal_from fuel (n / 10) ((b'0' + n % 10) ∷ rest)))
]

length-decimal : (n : ℕ) → 0 < length (decimal n)
unfolding decimal
length-decimal n = elim (Bool-cases (n / 10 == 0)) [
  | inl e ↦ rw e (omega arith)
  | inr e ↦ rw e (omega (arith, length-decimal_from n (n / 10) ((b'0' + n % 10) ∷ [])))
]

comma_int-IsGrouped : (n : ℕ) → IsGrouped (split_on b',' (comma_int n))
unfolding comma_int decimal
comma_int-IsGrouped n =
    grouped-IsGrouped (decimal n) (All-decimal_from (suc n) n [] tt) (length-decimal n)

-- What is printed for a count of an `int`, without its commas, is read back as the count; and of the
-- groups between the commas the first has one to three digits, and each of the others three.
pub atoi-comma_int :
    (n : ℕ)
    → n < 2 ^ 63
    → (atoi (uncomma (comma_int n)) ≡ some n) × IsGrouped (split_on b',' (comma_int n))
atoi-comma_int n h = (ap atoi (uncomma-comma_int n) ∙ atoi-decimal n h, comma_int-IsGrouped n)
