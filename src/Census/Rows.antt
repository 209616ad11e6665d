-- ===== src/Census/Rows.antt =====
-- internal/census/census.go: the rows of the census, busiest first.
use pg_fuzz.Base.{
  is_digit, ℕ, Bool, true, false, not, ◌&&◌, ◌||◌, List, [], ◌∷◌, ◌++◌, Option, none, some, Text,
  Map, codes, contains, has_prefix, is_empty, holds, keep, keys, length, take, leb, ltb, less,
  lookup_or, map, sort_by, cut_at, total, ◌==◌, if◌then◌else◌,
}
use pg_fuzz.Census.Builder.{Builder}

pub record Row : Type 0 where
  pub signature : Text
  pub hits : ℕ
  pub workspaces : List Text
  pub families : List Text
  pub targets : List Text
  pub oriole_only : Bool
  pub oriole_ws : List Text
  pub vanilla_ws : List Text
  pub in_oriole_db : Bool
  pub sources : List Text
  pub asan : ℕ
  pub ubsan : ℕ

-- `reFamily`: letters, then digits.
abbrev is_letter : ℕ → Bool
is_letter c = leb b'a' c && leb c b'z'

abbrev leading : (ℕ → Bool) → Text → Text
leading p [] = []
leading p (c ∷ s) = let rest = leading p s in if p c then c ∷ rest else []

abbrev behind : (ℕ → Bool) → Text → Text
behind p [] = []
behind p (c ∷ s) = let rest = behind p s in if p c then rest else c ∷ s

abbrev before_dash : Text → Option (Text × Text) → Text
before_dash ws none = ws
before_dash ws (some (k, v)) = if is_empty k then ws else k

unfoldable pub family : Text → Text
family ws =
    let letters = leading is_letter ws in
    let digits = leading is_digit (behind is_letter ws) in
    if not (is_empty letters) && not (is_empty digits)
    then letters ++ digits
    else before_dash ws (cut_at b'-' ws)

abbrev pub is_oriole : Text → Bool
is_oriole ws = has_prefix ws (codes "oriole")

abbrev pub none_of : List Text → Bool
none_of [] = true
none_of (w ∷ ws) = false

-- A set of the list's elements.
abbrev distinct_of : List Text → List Text
distinct_of [] = []
distinct_of (t ∷ ts) = let rest = distinct_of ts in if holds t rest then rest else t ∷ rest

abbrev any_contains : List Text → Text → Bool
any_contains [] sub = false
any_contains (s ∷ ss) sub = contains s sub || any_contains ss sub

abbrev first_four : List Text → List Text
first_four ss = if ltb 4 (length ss) then take 4 ss else ss

unfoldable pub row_of : Builder → Text → Map ℕ → Row
row_of b sig per =
    let wss = keys per in
    let oriole = keep is_oriole wss in
    let vanilla = keep (λ ws. not (is_oriole ws)) wss in
    let srcs = lookup_or [] sig b.sources in
    record {
      signature = sig;
      hits = total per;
      workspaces = sort_by less wss;
      families = sort_by less (distinct_of (map family wss));
      targets = sort_by less (lookup_or [] sig b.targets);
      oriole_only = not (none_of oriole) && none_of vanilla;
      oriole_ws = sort_by less oriole;
      vanilla_ws = sort_by less vanilla;
      in_oriole_db = any_contains srcs (codes "orioledb");
      sources = first_four (sort_by less srcs);
      asan = 0;
      ubsan = 0;
    }

abbrev pub row_list : Builder → Map (Map ℕ) → List Row
row_list b [] = []
row_list b ((sig, per) ∷ m) = row_of b sig per ∷ row_list b m

abbrev pub row_before : Row → Row → Bool
row_before x y = if x.hits == y.hits then less x.signature y.signature else ltb y.hits x.hits

unfoldable pub census_rows : Builder → List Row
census_rows b = sort_by row_before (row_list b b.per_ws)
