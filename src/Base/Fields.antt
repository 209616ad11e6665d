-- ===== src/Base/Fields.antt =====
-- Go's string functions that the program reads its files with: `strings.Split` on one byte,
-- `strings.TrimSpace` (of ASCII), `strings.HasPrefix`, `strings.Cut` on one byte, `strconv.Atoi` of
-- the numbers that are not negative, and the decimal form of `fmt.Sprint`.
use Prim.Native.Nat.{ℕ, zero, suc, ◌+◌, ◌-◌, ◌*◌, ◌/◌, ◌%◌, ◌^◌}
use mathlib.Core.Path.{◌≡◌}
use mathlib.Core.Logic.{◌↔◌, inl, inr}
use mathlib.Core.Bool.{Bool, true, false, ◌&&◌, ◌||◌}
use mathlib.Core.List.{List, [], ◌∷◌, reverse}
use mathlib.Core.Option.{Option, none, some}
use native.Mathlib.Omega.{arith}
use pg_fuzz.Base.Lists.{Any}
use pg_fuzz.Base.Tests.{◌==◌, leb, if◌then◌else◌}
use pg_fuzz.Base.Texts.{Text, eq, eq_iff, is_empty}

-- Puts a byte before the first field.
abbrev pub onto_first : ℕ → List Text → List Text
onto_first c [] = (c ∷ []) ∷ []
onto_first c (t ∷ ts) = (c ∷ t) ∷ ts

-- `strings.Split(s, sep)`: one field more than there are separators.
unfoldable pub split_on : ℕ → Text → List Text
split_on sep [] = [] ∷ []
split_on sep (c ∷ cs) =
    let rest = split_on sep cs in if c == sep then [] ∷ rest else onto_first c rest

abbrev pub is_space : ℕ → Bool
is_space c = (c == b' ') || (leb 9 c && leb c 13)

abbrev pub trim_left : Text → Text
trim_left [] = []
trim_left (c ∷ cs) = let rest = trim_left cs in if is_space c then rest else c ∷ cs

-- `strings.TrimSpace`.
unfoldable pub trim_space : Text → Text
trim_space s = reverse (trim_left (reverse (trim_left s)))

-- `strings.HasPrefix(s, prefix)`.
unfoldable pub has_prefix : Text → Text → Bool
has_prefix s [] = true
has_prefix [] (x ∷ xs) = false
has_prefix (y ∷ ys) (x ∷ xs) = (x == y) && has_prefix ys xs

-- `strings.HasSuffix(s, suffix)`.
abbrev pub has_suffix : Text → Text → Bool
has_suffix [] sub = is_empty sub
has_suffix (c ∷ s) sub = eq (c ∷ s) sub || has_suffix s sub

abbrev pub is_digit : ℕ → Bool
is_digit c = leb b'0' c && leb c b'9'

-- `strings.Contains(s, sub)`.
unfoldable pub contains : Text → Text → Bool
unfolding has_prefix
contains [] sub = has_prefix [] sub
contains (c ∷ s) sub = has_prefix (c ∷ s) sub || contains s sub

abbrev pub onto_key : ℕ → Option (Text × Text) → Option (Text × Text)
onto_key c none = none
onto_key c (some (k, v)) = some (c ∷ k, v)

-- `strings.Cut(s, sep)`: what stands before and behind the first separator.
unfoldable pub cut_at : ℕ → Text → Option (Text × Text)
cut_at sep [] = none
cut_at sep (c ∷ cs) =
    let rest = cut_at sep cs in if c == sep then some ([], cs) else onto_key c rest

abbrev pub digits_from : ℕ → Text → Option ℕ
digits_from acc [] = some acc
digits_from acc (c ∷ cs) =
    let rest = digits_from (acc * 10 + (c - b'0')) cs in
    if leb b'0' c && leb c b'9' then rest else none

abbrev pub in_int : Option ℕ → Option ℕ
in_int none = none
in_int (some n) = if leb n (2 ^ 63 - 1) then some n else none

-- `strconv.Atoi`, where it gives a number that is not negative. `-0` is left out: every caller asks
-- for a number above nothing.
unfoldable pub atoi : Text → Option ℕ
atoi [] = none
atoi (c ∷ []) = in_int (digits_from 0 (c ∷ []))
atoi (c ∷ d ∷ cs) = in_int (digits_from 0 (if c == b'+' then d ∷ cs else c ∷ d ∷ cs))

abbrev pub decimal_from : ℕ → ℕ → Text → Text
decimal_from zero n rest = rest
decimal_from (suc fuel) n rest =
    let digits = (b'0' + n % 10) ∷ rest in
    let more = decimal_from fuel (n / 10) digits in if n / 10 == 0 then digits else more

-- The decimal form. A number has no more digits than its size, so the fuel is enough.
unfoldable pub decimal : ℕ → Text
decimal n = decimal_from (suc n) n []

-- A Go `map[string]bool` that only gains entries, as the list of its keys.
unfoldable pub holds : Text → List Text → Bool
holds k [] = false
holds k (t ∷ ts) = eq t k || holds k ts

pub holds_iff : (k : Text) (ts : List Text) → (holds k ts ≡ true) ↔ Any (λ t. t ≡ k) ts
unfolding holds
holds_iff k [] = ground arith
holds_iff k (t ∷ ts) =
    let rest = holds_iff k ts in
    (
      λ h. ground (arith, eq_iff t k, rest.0),
      elim [ inl e ↦ ground (arith, eq_iff t k) | inr m ↦ ground (arith, rest.1 m) ],
    )
