-- ===== src/Census/Extract.antt =====
-- internal/census/census.go: the signatures of a line. The matches of the regular expressions of
-- `Extract` are an argument; what is made of them is not.
use pg_fuzz.Base.{
  is_digit, ℕ, Bool, true, false, not, ◌&&◌, ◌||◌, List, [], ◌∷◌, ◌++◌, Option, none, some, Text,
  codes, contains, has_prefix, is_empty, length, drop, take, leb, ltb, trim_space, ◌==◌,
  if◌then◌else◌,
}
use mathlib.Core.List.{reverse}

abbrev drop_slashes : Text → Text
drop_slashes [] = []
drop_slashes (c ∷ s) = let rest = drop_slashes s in if c == b'/' then rest else c ∷ s

abbrev to_slash : Text → Text
to_slash [] = []
to_slash (c ∷ s) = let rest = to_slash s in if c == b'/' then [] else c ∷ rest

abbrev or_slash : Text → Text
or_slash [] = codes "/"
or_slash (c ∷ s) = c ∷ s

-- `filepath.Base`.
unfoldable pub base_name : Text → Text
base_name path =
    if is_empty path then codes "." else or_slash (reverse (to_slash (drop_slashes (reverse path))))

-- The groups of each expression, in the order of the matches.
pub record Matches : Type 0 where
  pub asserts : List (Text × Text × Text)
  pub undefined : List (Text × Text × Text)
  pub address : List (Text × Text × Text)
  pub fuzzer : List Text
  pub panics : List (Text × Text)

-- A signature and its source file.
abbrev pub Sig : Type 0
Sig = Text × Text

-- `reDigits.ReplaceAllString(s, "N")`, behind a digit or not.
abbrev collapse_from : Bool → Text → Text
collapse_from inside [] = []
collapse_from inside (c ∷ s) =
    let rest = collapse_from (is_digit c) s in
    if is_digit c then (if inside then rest else b'N' ∷ rest) else c ∷ rest

unfoldable pub collapse : Text → Text
collapse s = collapse_from false s

abbrev cut_90 : Text → Text
cut_90 s = if ltb 90 (length s) then take 90 s else s

abbrev assert_sigs : List (Text × Text × Text) → List Sig
assert_sigs [] = []
assert_sigs ((p, file, line) ∷ ms) =
    (codes "Assert(" ++ (p ++ (codes ") " ++ (base_name file ++ (codes ":" ++ line)))), file)
    ∷ assert_sigs ms

abbrev undefined_sigs : List (Text × Text × Text) → List Sig
undefined_sigs [] = []
undefined_sigs ((file, line, msg) ∷ ms) =
    (
      codes "UBSAN "
          ++ (base_name file ++ (codes ":" ++ (line ++ (codes " " ++ cut_90 (collapse msg))))),
      file,
    )
    ∷ undefined_sigs ms

abbrev address_sigs : List (Text × Text × Text) → List Sig
address_sigs [] = []
address_sigs ((kind, file, f) ∷ ms) =
    (codes "ASAN " ++ (kind ++ (codes " " ++ (base_name file ++ (codes " in " ++ f)))), file)
    ∷ address_sigs ms

abbrev fuzzer_sigs : List Text → List Sig
fuzzer_sigs [] = []
fuzzer_sigs (m ∷ ms) = (codes "libFuzzer " ++ m, []) ∷ fuzzer_sigs ms

abbrev panic_sigs : List (Text × Text) → List Sig
panic_sigs [] = []
panic_sigs ((kind, text) ∷ ms) =
    (kind ++ (codes " " ++ collapse (trim_space text)), []) ∷ panic_sigs ms

unfoldable pub extract : Matches → List Sig
extract m =
    assert_sigs m.asserts
    ++ (undefined_sigs m.undefined
        ++ (address_sigs m.address ++ (fuzzer_sigs m.fuzzer ++ panic_sigs m.panics)))

-- `ExtractLeak`, of the frame that its expression finds.
unfoldable pub extract_leak : Option Text → Option Text
extract_leak none = none
extract_leak (some frame) = some (codes "LEAK in " ++ frame)

-- `interesting`: whether the line has one of the markers.
abbrev pub markers : List Text
markers =
    codes "TRAP:"
    ∷ codes "runtime error:"
    ∷ codes "AddressSanitizer"
    ∷ codes "libFuzzer"
    ∷ codes "DEDUP_TOKEN"
    ∷ codes "PANIC:"
    ∷ codes "FATAL:"
    ∷ codes "_fuzzer -"
    ∷ []

abbrev any_marker : Text → List Text → Bool
any_marker line [] = false
any_marker line (m ∷ ms) = contains line m || any_marker line ms

unfoldable pub interesting : Text → Bool
interesting line = any_marker line markers

abbrev is_white : ℕ → Bool
is_white c = (c == b' ') || ((c == b'\n') || ((c == b'\t') || ((c == b'\r') || (c == 12))))

abbrev drop_blanks : Text → Text
drop_blanks [] = []
drop_blanks (c ∷ s) = let rest = drop_blanks s in if is_white c then rest else c ∷ s

abbrev is_banner_byte : ℕ → Bool
is_banner_byte c = (leb b'a' c && leb c b'z') || ((c == b'_') || is_digit c)

abbrev all_name : Text → Bool
all_name [] = true
all_name (c ∷ s) = is_banner_byte c && all_name s

abbrev short_of : Text → Text → Text
short_of sub s = if has_prefix s sub then drop (length sub) s else []

-- The name, turned round, ends in `_fuzzer` and has a byte before it.
abbrev banner_name : Text → Option Text
banner_name turned =
    if not (is_empty (short_of (reverse (codes "_fuzzer")) turned)) && all_name turned
    then some (reverse turned)
    else none

-- `reBanner` on a line: the target's name.
unfoldable pub banner_of : Text → Option Text
banner_of line =
    if has_prefix line (codes "---- ")
    then banner_name
        (short_of (codes "---- ") (drop_blanks (reverse (drop (length (codes "---- ")) line))))
    else none
