-- ===== src/Findings/Plans.antt =====
-- internal/findings/reverify.go: how a finding is checked again. What the finding's directory holds is
-- an argument: whether it has files of a kind, and the files of its three directories.
use pg_fuzz.Base.{
  has_suffix, ℕ, Bool, false, ◌&&◌, ◌||◌, List, [], ◌∷◌, ◌++◌, Text, codes, is_empty, has_prefix,
  holds, is_space, leb, length, take, ltb, sort_by, less, not, if◌then◌else◌, ◌==◌,
}
use mathlib.Core.List.{reverse}
use pg_fuzz.Findings.Areas.{Finding}

pub data Vehicle : Type 0 where
  unknown lib_fuzzer sql storage_scenario : Vehicle

unfoldable pub vehicle_text : Vehicle → Text
vehicle_text lib_fuzzer = codes "libfuzzer"
vehicle_text sql = codes "sql"
vehicle_text storage_scenario = codes "scenario"
vehicle_text unknown = codes "unknown"

pub record Plan : Type 0 where
  pub finding : Text
  pub target : Text
  pub vehicle : Vehicle
  pub workspace : Text
  pub artifacts : List Text
  pub skip : Text

-- `MaxArtifacts`.
abbrev pub max_artifacts : ℕ
max_artifacts = 12

-- What a directory holds: the files of it, of `reproducer` and of `artifacts`, each with its path.
pub record Held : Type 0 where
  pub has_sql : Bool
  pub has_seed : Bool
  pub files : List (Text × Text)

abbrev is_artifact : Text → Bool
is_artifact n =
    has_prefix n (codes "crash-")
    || (has_prefix n (codes "leak-")
        || (has_prefix n (codes "timeout-") || has_prefix n (codes "oom-")))

abbrev pub paths : List (Text × Text) → List Text
paths [] = []
paths ((n, p) ∷ fs) = let rest = paths fs in if is_artifact n then p ∷ rest else rest

unfoldable pub artifacts_in : Held → List Text
artifacts_in d =
    let out = sort_by less (paths d.files) in
    if ltb max_artifacts (length out) then take max_artifacts out else out

-- `strings.Fields`, with an empty word between two spaces.
abbrev onto_word : ℕ → List Text → List Text
onto_word c [] = (c ∷ []) ∷ []
onto_word c (w ∷ ws) = (c ∷ w) ∷ ws

abbrev words : Text → List Text
words [] = [] ∷ []
words (c ∷ s) = let rest = words s in if is_space c then [] ∷ rest else onto_word c rest

abbrev in_set : ℕ → Text → Bool
in_set c [] = false
in_set c (d ∷ ds) = (c == d) || in_set c ds

abbrev strip_left : Text → Text
strip_left [] = []
strip_left (c ∷ s) =
    let rest = strip_left s in if in_set c (codes "`*,.;:()[]") then rest else c ∷ s

-- `strings.Trim` of the marks around a word.
abbrev strip : Text → Text
strip s = reverse (strip_left (reverse (strip_left s)))

abbrev first_word : (Text → Bool) → List Text → Text
first_word p [] = []
first_word p (w ∷ ws) = let rest = first_word p ws in if p (strip w) then strip w else rest

unfoldable pub found_target : Finding → Text
found_target f = first_word (λ w. has_suffix w (codes "_fuzzer")) (words f.found_by)

abbrev is_lower_digit : ℕ → Bool
is_lower_digit c = (leb b'a' c && leb c b'z') || (leb b'0' c && leb c b'9')

-- `^[a-z0-9]+[a-z0-9-]*-(add|und|cov|asan)$`.
abbrev workspace_tail : Text → Bool
workspace_tail [] = false
workspace_tail (c ∷ s) =
    holds (c ∷ s) (codes "-add" ∷ codes "-und" ∷ codes "-cov" ∷ codes "-asan" ∷ [])
    || ((is_lower_digit c || (c == b'-')) && workspace_tail s)

unfoldable pub is_workspace : Text → Bool
is_workspace [] = false
is_workspace (c ∷ s) = is_lower_digit c && workspace_tail s

unfoldable pub workspace_of : Finding → Text
workspace_of f = first_word is_workspace (words f.found_by)

abbrev pub vehicle_of : Text → Held → Vehicle
vehicle_of target d =
    if not (is_empty target)
    then lib_fuzzer
    else if d.has_sql
    then sql
    else if d.has_seed
    then storage_scenario
    else unknown

abbrev pub no_artifact : List Text → Text
no_artifact [] = codes "no recorded artifact to run"
no_artifact (a ∷ as') = []

abbrev pub with_artifacts : Vehicle → Held → Plan → Plan
with_artifacts lib_fuzzer d p = record p {
  artifacts = artifacts_in d;
  skip = no_artifact (artifacts_in d);
}
with_artifacts unknown d p = p
with_artifacts sql d p = p
with_artifacts storage_scenario d p = p

abbrev pub with_workspace : Held → Plan → Plan
with_workspace d p =
    if is_empty p.workspace
    then record p { skip = codes "no workspace on this host can run " ++ p.target }
    else with_artifacts p.vehicle d p

abbrev pub plan_with : Vehicle → Finding → Held → Text → Plan → Plan
plan_with unknown f d ws p = record p {
  skip = codes "the write-up does not say how to reproduce it";
}
plan_with lib_fuzzer f d ws p = with_workspace d (record p { vehicle = lib_fuzzer; workspace = ws })
plan_with sql f d ws p = with_workspace d (record p { vehicle = sql; workspace = ws })
plan_with storage_scenario f d ws p =
    with_workspace d (record p { vehicle = storage_scenario; workspace = ws })

abbrev pub bare_plan : Finding → Plan
bare_plan f = record {
  finding = f.name;
  target = found_target f;
  vehicle = unknown;
  workspace = [];
  artifacts = [];
  skip = [];
}

unfoldable pub plan_for : Finding → Held → (Text → Text) → Plan
plan_for f d ws_for =
    plan_with (vehicle_of (found_target f) d) f d (ws_for (workspace_of f)) (bare_plan f)
