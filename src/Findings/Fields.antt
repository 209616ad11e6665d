-- ===== src/Findings/Fields.antt =====
-- `Field` of internal/findings/findings.go: the value of a `**Name:**` line. Its expression begins at a
-- line, and the spaces behind the name may be newlines, so that a field with no value takes the next
-- line that has text.
use pg_fuzz.Base.{
  ℕ, Bool, true, false, ◌&&◌, ◌||◌, [], ◌∷◌, ◌++◌, Option, none, some, Text, codes, has_prefix,
  trim_space, length, drop, ◌==◌, is_empty, if◌then◌else◌,
}

-- `\s`.
abbrev is_gap : ℕ → Bool
is_gap c = (c == b' ') || (c == b'\n') || (c == b'\t') || (c == b'\r') || (c == 12)

abbrev skip_blank : Text → Text
skip_blank [] = []
skip_blank (c ∷ s) = let rest = skip_blank s in if is_gap c then rest else c ∷ s

abbrev pub first_line : Text → Text
first_line [] = []
first_line (c ∷ s) = let rest = first_line s in if c == b'\n' then [] else c ∷ rest

-- The text without `**`.
abbrev unbold_from : Bool → Text → Text
unbold_from held [] = if held then b'*' ∷ [] else []
unbold_from held (c ∷ s) =
    let kept = unbold_from false s in
    let star = unbold_from true s in
    if c == b'*'
    then (if held then kept else star)
    else (if held then b'*' ∷ c ∷ kept else c ∷ kept)

abbrev only_newlines : Text → Bool
only_newlines [] = true
only_newlines (c ∷ s) = (c == b'\n') && only_newlines s

-- What `(.+)$` takes behind the spaces. With no text left, a colon behind the bold is the value if
-- nothing but newlines follow it, and a space if any.
abbrev value_text : Bool → Text → Text
value_text colon s =
    let text = skip_blank s in
    if is_empty text then (if colon && only_newlines s then b':' ∷ [] else []) else first_line text

abbrev after_bold : Text → Text
after_bold [] = []
after_bold (c ∷ s) = if c == b':' then value_text true s else value_text false (c ∷ s)

abbrev drop_colon : Text → Text
drop_colon [] = []
drop_colon (c ∷ s) = if c == b':' then s else c ∷ s

abbrev close_bold : Text → Option Text
close_bold s = if has_prefix s (codes "**") then some (after_bold (drop 2 s)) else none

-- The expression, at the start of a line.
unfoldable pub value_at : Text → Text → Option Text
value_at name s =
    let open_bold = codes "**" ++ name in
    if has_prefix s open_bold then close_bold (drop_colon (drop (length open_bold) s)) else none

abbrev or_next : Option Text → Option Text → Option Text
or_next (some v) rest = some v
or_next none rest = rest

-- The first match, at the start of the text or behind a newline.
unfoldable pub find_value : Bool → Text → Text → Option Text
find_value at_start name [] = none
find_value at_start name (c ∷ s) =
    let rest = find_value (c == b'\n') name s in
    if at_start then or_next (value_at name (c ∷ s)) rest else rest

abbrev cleaned : Option Text → Text
cleaned none = []
cleaned (some v) = trim_space (unbold_from false v)

unfoldable pub field : Text → Text → Text
field md name = cleaned (find_value true name md)
