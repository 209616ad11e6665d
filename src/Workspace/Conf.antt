-- ===== src/Workspace/Conf.antt =====
-- `Conf`, `Load` and `Key` of internal/workspace/workspace.go. The base name of the directory is an
-- argument, and the scanner's limit is the one that `Load` sets.
use pg_fuzz.Base.{
  Text, Map, List, [], ◌∷◌, Option, none, some, codes, is_empty, has_prefix, trim_space, cut_at,
  scan_lines, put, lookup_or, length, leb, any_of, ◌||◌, ◌++◌, ◌*◌, ◌==◌, map, if◌then◌else◌, ℕ,
}

pub record Conf : Type 0 where
  pub path : Text
  pub name : Text
  pub project : Text
  pub ref : Text
  pub sanitizer : Text
  pub raw : Map Text

pub data LoadError : Type 0 where
  no_workspace : LoadError
  line_too_long : LoadError

pub data Loaded : Type 0 where
  loaded : Conf → Loaded
  failed : LoadError → Loaded

abbrev trim_both : Option (Text × Text) → Option (Text × Text)
trim_both none = none
trim_both (some (k, v)) = some (trim_space k, trim_space v)

-- What one line of the file assigns; a comment and a line with no `=` assign nothing.
unfoldable pub conf_line : Text → Option (Text × Text)
conf_line l =
    let line = trim_space l in
    if is_empty line || has_prefix line (codes "#") then none else trim_both (cut_at b'=' line)

abbrev pub assign : Option (Text × Text) → Map Text → Map Text
assign none m = m
assign (some (k, v)) m = put k v m

unfoldable pub read_conf : List Text → Map Text → Map Text
read_conf [] m = m
read_conf (l ∷ ls) m = read_conf ls (assign (conf_line l) m)

-- The longest line that the scanner's buffer takes is a byte shorter.
abbrev pub max_line : ℕ
max_line = 4 * 1024 * 1024

unfoldable pub project_of : Text → Map Text → Text
project_of name raw =
    let project = lookup_or [] (codes "project") raw in
    if is_empty project then codes "pgfuzz-" ++ name else project

unfoldable pub load_conf : Text → Text → Option Text → Loaded
load_conf dir name none = failed no_workspace
load_conf dir name (some s) =
    let lines = scan_lines s in
    let raw = read_conf lines [] in
    if any_of (λ l. leb max_line (length l)) lines
    then failed line_too_long
    else loaded (record {
      path = dir;
      name = name;
      project = project_of name raw;
      ref = lookup_or [] (codes "ref") raw;
      sanitizer = lookup_or [] (codes "sanitizer") raw;
      raw = raw;
    })

-- `strings.ReplaceAll(ref, "/", "-")`.
abbrev flatten : Text → Text
flatten ref = map (λ c. if c == b'/' then b'-' else c) ref

unfoldable pub key : Text → Text → Text → Text
key ref sanitizer engine = flatten ref ++ (codes "__" ++ (sanitizer ++ (codes "__" ++ engine)))
