-- ===== src/Workspace/Image.antt =====
-- `BaseOSVersion` of internal/workspace/workspace.go, with the scanner's own limit on a line.
use pg_fuzz.Base.{
  Text, List, [], ◌∷◌, Option, none, some, codes, eq, is_empty, has_prefix, trim_space, scan_lines,
  length, drop, ltb, ◌||◌, ◌&&◌, ◌*◌, ◌==◌, not, if◌then◌else◌, or_else,
}
use mathlib.Core.List.{reverse}

-- The lines before the first that is too long for a scanner with no buffer of its own.
abbrev scanned : List Text → List Text
scanned [] = []
scanned (l ∷ ls) = let rest = scanned ls in if ltb (length l) (64 * 1024) then l ∷ rest else []

abbrev unquote_left : Text → Text
unquote_left [] = []
unquote_left (c ∷ s) =
    let rest = unquote_left s in if (c == b'"') || (c == b'\'') then rest else c ∷ s

-- `strings.Trim(v, "\"'")`.
unfoldable pub unquote : Text → Text
unquote s = reverse (unquote_left (reverse (unquote_left s)))

abbrev version_key : Text
version_key = codes "base_os_version:"

abbrev default_os : Text
default_os = codes "ubuntu-24-04"

unfoldable pub os_line : Text → Option Text
os_line l =
    let line = trim_space l in
    let v = unquote (trim_space (drop (length version_key) line)) in
    if has_prefix line version_key && (not (is_empty v) && not (eq v (codes "legacy")))
    then some v
    else none

abbrev first_os : List Text → Text
first_os [] = default_os
first_os (l ∷ ls) = let rest = first_os ls in or_else (os_line l) rest

unfoldable pub base_os_version : Option Text → Text
base_os_version none = default_os
base_os_version (some s) = first_os (scanned (scan_lines s))
