-- ===== src/Base/Scans.antt =====
-- The lines that a `bufio.Scanner` gives: what follows the last newline is a line only if it is not
-- empty. The carriage return that it drops from a line is left, since its callers trim the line.
use Prim.Native.Nat.{ℕ}
use mathlib.Core.Path.{◌≡◌, refl, ap, ◌∙◌}
use mathlib.Core.Logic.{◌≢◌, ◌⊎◌, inl, inr}
use mathlib.Core.Bool.{Bool, false, ◌||◌}
use mathlib.Core.List.{List, [], ◌∷◌, ◌++◌, append_assoc}
use native.Mathlib.Omega.{arith}
use pg_fuzz.Base.Tests.{◌==◌, if◌then◌else◌, Bool-cases}
use pg_fuzz.Base.Texts.{Text}
use pg_fuzz.Base.Lists.{All}
use pg_fuzz.Base.Fields.{onto_first, split_on}

unfoldable pub scan_lines : Text → List Text
scan_lines [] = []
scan_lines (c ∷ cs) =
    let rest = scan_lines cs in if c == b'\n' then [] ∷ rest else onto_first c rest

abbrev pub has_newline : Text → Bool
has_newline [] = false
has_newline (c ∷ cs) = (c == b'\n') || has_newline cs

-- `strings.Join(lines, "\n")`.
abbrev pub join_lines : List Text → Text
join_lines [] = []
join_lines (l ∷ []) = l
join_lines (l ∷ m ∷ ls) = l ++ (b'\n' ∷ join_lines (m ∷ ls))

scan_lines-line :
    (l rest : Text) → has_newline l ≡ false → scan_lines (l ++ (b'\n' ∷ rest)) ≡ l ∷ scan_lines rest
unfolding scan_lines
scan_lines-line [] rest h = refl
scan_lines-line (c ∷ l) rest h = elim (Bool-cases (c == b'\n')) [
  | inl e ↦ ground (arith, h, e)
  | inr e ↦ rw (e, scan_lines-line l rest (ground (arith, h, e))) refl
]

-- Lines that are joined, with a newline at the end, are read back.
pub scan_lines-join_lines :
    (ls : List Text)
    → ls ≢ []
    → All (λ l. has_newline l ≡ false) ls
    → scan_lines (join_lines ls ++ b'\n' ∷ []) ≡ ls
unfolding scan_lines
scan_lines-join_lines [] ne a = absurd (ne refl)
scan_lines-join_lines (l ∷ []) ne a = scan_lines-line l [] a.0
scan_lines-join_lines (l ∷ m ∷ ls) ne (h, a) =
    ap scan_lines (append_assoc l (b'\n' ∷ join_lines (m ∷ ls)) (b'\n' ∷ []))
    ∙ scan_lines-line l (join_lines (m ∷ ls) ++ b'\n' ∷ []) h
    ∙ ap (◌∷◌ l) (scan_lines-join_lines (m ∷ ls) (λ e. cc) a)

-- Whether two splits of a text are the same, up to an empty line at the end.
abbrev SameLines : List Text → List Text → Type 0
SameLines ls ms = (ls ≡ ms) ⊎ (ls ≡ ms ++ [] ∷ [])

onto_first-SameLines :
    (c : ℕ) (ls ms : List Text) → SameLines ls ms → SameLines (onto_first c ls) (onto_first c ms)
onto_first-SameLines c ls ms (inl h) = inl (ap (onto_first c) h)
onto_first-SameLines c ls [] (inr h) = inl (ap (onto_first c) h)
onto_first-SameLines c ls (m ∷ ms) (inr h) = inr (ap (onto_first c) h)

-- A split gives the same lines, and an empty one behind a final newline or for the empty text.
pub split_on-scan_lines :
    (s : Text) → (split_on b'\n' s ≡ scan_lines s) ⊎ (split_on b'\n' s ≡ scan_lines s ++ [] ∷ [])
unfolding split_on scan_lines
split_on-scan_lines [] = inr refl
split_on-scan_lines (c ∷ s) = elim (Bool-cases (c == b'\n')) [
  | inl e ↦ elim (split_on-scan_lines s) [
    | inl h ↦ rw e (inl (ap (◌∷◌ []) h))
    | inr h ↦ rw e (inr (ap (◌∷◌ []) h))
  ]
  | inr e ↦ rw e (onto_first-SameLines c (split_on b'\n' s) (scan_lines s) (split_on-scan_lines s))
]

All-onto_first :
    (c : ℕ) (ls : List Text)
    → (c == b'\n') ≡ false
    → All (λ l. has_newline l ≡ false) ls
    → All (λ l. has_newline l ≡ false) (onto_first c ls)
All-onto_first c [] e a = (ground (arith, e), tt)
All-onto_first c (l ∷ ls) e (h, a) = (ground (arith, e, h), a)

-- A field holds no separator.
pub split_on_free : (s : Text) → All (λ l. has_newline l ≡ false) (split_on b'\n' s)
unfolding split_on
split_on_free [] = (refl, tt)
split_on_free (c ∷ s) = elim (Bool-cases (c == b'\n')) [
  | inl e ↦ rw e (refl, split_on_free s)
  | inr e ↦ rw e (All-onto_first c (split_on b'\n' s) e (split_on_free s))
]
