-- ===== src/Workspace/Edit.antt =====
-- `Set` of internal/workspace/workspace.go: the text that it writes to the temporary file, which it
-- then renames.
use pg_fuzz.Base.{
  Text, List, [], ◌∷◌, Bool, true, false, Option, none, some, eq, is_empty, trim_space, cut_at,
  keep, split_on, key_of, trimmed, join_lines, ◌++◌, ◌&&◌, not, if◌then◌else◌,
}

abbrev pub names_key : Text → Option Text → Bool
names_key k none = false
names_key k (some j) = eq j k

-- Whether the line assigns the key, as `Set` reads it: with no regard for comments.
unfoldable pub drops : Text → Text → Bool
drops k l = names_key k (trimmed (key_of (cut_at b'=' l)))

abbrev pub is_none : List Text → Bool
is_none [] = true
is_none (l ∷ ls) = false

unfoldable pub drop_blank : List Text → List Text
drop_blank [] = []
drop_blank (l ∷ ls) =
    let rest = drop_blank ls in if is_none rest && is_empty (trim_space l) then [] else l ∷ rest

unfoldable pub kept_lines : Text → Option Text → List Text
kept_lines k none = []
kept_lines k (some s) = drop_blank (keep (λ l. not (drops k l)) (split_on b'\n' s))

unfoldable pub conf_entry : Text → Text → Text
conf_entry k v = k ++ (b'=' ∷ v)

unfoldable pub set : Text → Text → Option Text → Text
set k v file = join_lines (kept_lines k file ++ conf_entry k v ∷ []) ++ b'\n' ∷ []
