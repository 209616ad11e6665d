-- ===== src/Ratchet/Show.antt =====
-- go/internal/ratchet/analysis.go: the helpers of its reports, and the reader of the acknowledgements.
-- A count is a natural number.
use pg_fuzz.Base.{
  ℕ, ◌%◌, Bool, true, false, not, ◌&&◌, ◌||◌, List, [], ◌∷◌, ◌++◌, Option, none, some, Text, Map,
  codes, lookup_or, put, keys, sort_by, less, eq, is_empty, length, take, split_on, trim_space,
  has_prefix, decimal, ltb, ◌==◌, keep, if◌then◌else◌,
}

-- The loop of `commaInt`, over what is left of the digits.
abbrev pub grouped : Bool → Text → Text
grouped first [] = []
grouped first (c ∷ s) =
    let rest = grouped false s in
    if not first && (length (c ∷ s) % 3 == 0) then b',' ∷ c ∷ rest else c ∷ rest

-- `commaInt`, of a count.
unfoldable pub comma_int : ℕ → Text
comma_int n = grouped true (decimal n)

-- `byCountDesc`: the keys, the largest count first, and ties in the order of the alphabet.
abbrev pub count_before : Map ℕ → Text → Text → Bool
count_before m a b =
    if lookup_or 0 a m == lookup_or 0 b m then less a b else ltb (lookup_or 0 b m) (lookup_or 0 a m)

unfoldable pub by_count_desc : Map ℕ → List Text
by_count_desc m = sort_by (count_before m) (keys m)

-- `sinceOK`.
unfoldable pub since_ok : Text → Text → Bool
since_ok mtime since = is_empty since || not (less mtime since)

-- `cut16`.
unfoldable pub cut_16 : Text → Text
cut_16 s = if ltb 16 (length s) then take 16 s else s

abbrev last_or : Text → List Text → Text
last_or d [] = d
last_or d (t ∷ ts) = last_or t ts

abbrev ends : List Text → Text × Text
ends [] = (codes "?", codes "?")
ends (t ∷ ts) = (cut_16 t, cut_16 (last_or t ts))

-- `span`.
unfoldable pub span : List Text → Text × Text
span ts = ends (sort_by less (keep (λ t. not (is_empty t)) ts))

-- `sinceNote`.
unfoldable pub since_note : Text → Text
since_note since = if is_empty since then [] else codes " at or after " ++ since

abbrev first_field : List Text → Text
first_field [] = []
first_field (t ∷ ts) = t

-- One line of `LoadAcks`.
unfoldable pub ack_line : Text → Map Text → Map Text
ack_line line acks =
    if is_empty (trim_space line) || has_prefix line (codes "#")
    then acks
    else put (first_field (split_on b'\t' line)) line acks

abbrev ack_lines : List Text → Map Text → Map Text
ack_lines [] acks = acks
ack_lines (l ∷ ls) acks = ack_lines ls (ack_line l acks)

-- `LoadAcks`: the entries, and whether the file could be read.
unfoldable pub load_acks : Option Text → Map Text × Bool
load_acks none = ([], false)
load_acks (some s) = (ack_lines (split_on b'\n' s) [], true)

abbrev no_names : List Text → Bool
no_names [] = true
no_names (t ∷ ts) = false

-- `Show`: each workspace with its targets in the order in which they are printed.
abbrev shown_names : Text → List Text → List Text
shown_names only wss =
    let chosen = keep (λ ws. is_empty only || eq ws only) wss in
    if not (is_empty only) && no_names chosen then only ∷ [] else chosen

abbrev shown : Map (Map ℕ) → List Text → List (Text × List Text)
shown floors [] = []
shown floors (ws ∷ wss) = (ws, by_count_desc (lookup_or [] ws floors)) ∷ shown floors wss

unfoldable pub show : Text → Map (Map ℕ) → List (Text × List Text)
show only floors = shown floors (sort_by less (shown_names only (keys floors)))
