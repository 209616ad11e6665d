-- ===== src/Findings/Areas.antt =====
-- internal/findings/findings.go: the area of a finding, from the name of its directory, and the counts
-- per area and per target.
use pg_fuzz.Base.{
  has_suffix, ℕ, suc, Bool, true, false, ◌&&◌, ◌||◌, List, [], ◌∷◌, Option, none, some, Text, Map,
  codes, is_empty, has_prefix, trim_space, lookup, bump, leb, ◌==◌, if◌then◌else◌,
}

pub data Area : Type 0 where
  storage core harness extensions : Area

-- Its text.
unfoldable pub area_text : Area → Text
area_text storage = codes "storage engine"
area_text core = codes "PostgreSQL core"
area_text harness = codes "harness & tooling"
area_text extensions = codes "third-party extensions"

abbrev pub areas : List Area
areas = storage ∷ core ∷ harness ∷ extensions ∷ []

pub record Finding : Type 0 where
  pub name : Text
  pub area : Area
  pub title : Text
  pub status : Text
  pub found_by : Text
  pub cause : Text
  pub artifacts : ℕ
  pub override : Text

-- `Override`.
abbrev pub overrides : Map (Area × Text)
overrides =
    (
      codes "orioledb-vacuum-error-path-leak",
      (
        core,
        codes
            "attribution overturned to upstream PostgreSQL 2026-08-16; the directory name predates that and was never changed",
      ),
    )
    ∷ []

abbrev ext_prefixes : List Text
ext_prefixes = codes "credcheck" ∷ codes "mchar" ∷ codes "orafce" ∷ codes "extension-funcs" ∷ []

abbrev harness_prefixes : List Text
harness_prefixes =
    codes "budget-spent"
    ∷ codes "harness-"
    ∷ codes "oss-fuzz-harness"
    ∷ codes "timeout-never"
    ∷ codes "simple-query-executes"
    ∷ codes "slow-units"
    ∷ codes "encoding-fuzzer"
    ∷ []

abbrev any_prefix : Text → List Text → Bool
any_prefix name [] = false
any_prefix name (p ∷ ps) = has_prefix name p || any_prefix name ps

abbrev area_by_name : Text → Area
area_by_name name =
    if has_prefix name (codes "orioledb-")
    then storage
    else if any_prefix name ext_prefixes
    then extensions
    else if any_prefix name harness_prefixes
    then harness
    else core

abbrev overridden : Option (Area × Text) → Area → Area
overridden none a = a
overridden (some (a, why)) b = a

unfoldable pub area_of : Text → Area
area_of name = overridden (lookup name overrides) (area_by_name name)

abbrev pub area_eq : Area → Area → Bool
area_eq storage storage = true
area_eq core core = true
area_eq harness harness = true
area_eq extensions extensions = true
area_eq a b = false

-- `ByArea`, as the count of one area.
unfoldable pub by_area : List Finding → Area → ℕ
by_area [] a = 0
by_area (f ∷ fs) a = if area_eq f.area a then suc (by_area fs a) else by_area fs a

-- The expression of `ByTarget`: letters and underlines that end in `_fuzzer` with something before it,
-- and a backquote on either side or not.
abbrev drop_quote : Text → Text
drop_quote [] = []
drop_quote (c ∷ s) = if c == b'`' then s else c ∷ s

abbrev is_target_byte : ℕ → Bool
is_target_byte c = (leb b'a' c && leb c b'z') || (c == b'_')

-- What is left is the name and, behind it, at most a backquote; none where it is not.
abbrev name_to_quote : Text → Option Text
name_to_quote [] = some []
name_to_quote (c ∷ s) =
    let rest = name_to_quote s in
    if is_target_byte c
    then (elim rest [ none ↦ none | some t ↦ some (c ∷ t) ])
    else (if (c == b'`') && is_empty s then some [] else none)

abbrev ends_behind : Text → Text → Bool
ends_behind [] sub = false
ends_behind (c ∷ s) sub = has_suffix s sub

abbrev is_target : Option Text → Option Text
is_target none = none
is_target (some t) = if ends_behind t (codes "_fuzzer") then some t else none

unfoldable pub target_name : Text → Option Text
target_name v = is_target (name_to_quote (drop_quote v))

pub record Targets : Type 0 where
  pub per : Map ℕ
  pub systemic : ℕ
  pub unattributed : ℕ

abbrev count_target : Option Text → Targets → Targets
count_target none c = record c { systemic = suc c.systemic }
count_target (some t) c = record c { per = bump t c.per }

-- One round of the loop of `ByTarget`.
unfoldable pub by_target_one : Text → Targets → Targets
by_target_one found_by c =
    let v = trim_space found_by in
    if is_empty v
    then record c { unattributed = suc c.unattributed }
    else if has_prefix v (codes "systemic")
    then record c { systemic = suc c.systemic }
    else if has_prefix v (codes "unknown")
    then record c { unattributed = suc c.unattributed }
    else count_target (target_name v) c

abbrev pub by_target_from : List Finding → Targets → Targets
by_target_from [] c = c
by_target_from (f ∷ fs) c = by_target_from fs (by_target_one f.found_by c)

unfoldable pub by_targets : List Finding → Targets
by_targets fs = by_target_from fs (record { per = []; systemic = 0; unattributed = 0 })
