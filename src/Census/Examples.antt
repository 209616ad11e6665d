-- ===== src/Census/Examples.antt =====
-- The census at concrete inputs.
use pg_fuzz.Base.{
  ◌<◌, true, false, List, [], ◌∷◌, Option, none, some, Text, codes, contains, has_prefix,
  trim_space, bump, eq, keys, cut_at, All, Any, if◌then◌else◌, ◌≡◌, refl,
}
use pg_fuzz.Census.Extract.{
  Matches, extract, extract_leak, interesting, banner_of, base_name, collapse,
}
use pg_fuzz.Census.Builder.{empty, record_sig, count_units}
use pg_fuzz.Census.Read.{see, Reader, read_report, add_line, add_reader, add_reader_as}
use pg_fuzz.Census.Rows.{Row, family, census_rows}
use pg_fuzz.Census.Split.{sanitizer_of, asan, other}
use pg_fuzz.Census.Hits.{Hit, record_all, hits_of, Counts, census_rows-Counts}
use pg_fuzz.Census.Leaks.{UnmarkedOpening, add_reader-tokens}

abbrev opening : Text
opening = codes "==12==ERROR: LeakSanitizer: detected memory leaks"

abbrev token : Text
token = codes "DEDUP_TOKEN: malloc--palloc"

abbrev leak_log : List Text
leak_log = opening ∷ token ∷ []

abbrev no_match : Text → Matches
no_match l = record { asserts = []; undefined = []; address = []; fuzzer = []; panics = [] }

abbrev frame : Text → Option Text
frame l = if eq l token then some (codes "palloc") else none

abbrev start : Reader
start = record { target = []; inside = false; built = empty }

-- The reader of one target's log records the leak.
leak_recorded :
    keys
      (add_reader_as no_match frame (codes "pg17") (codes "t_fuzzer") leak_log false empty).per_ws
    ≡ codes "LEAK in palloc" ∷ []
unfolding add_reader_as read_report see contains has_prefix extract extract_leak record_sig bump
    trim_space
leak_recorded = refl

-- The reader of a log of many targets does not.
leak_dropped : keys (add_reader no_match frame (codes "pg17") leak_log start).built.per_ws ≡ []
unfolding add_reader add_line interesting banner_of read_report see contains has_prefix extract
    trim_space
leak_dropped = refl

opening_unmarked : All UnmarkedOpening leak_log
unfolding interesting contains has_prefix
opening_unmarked = ((λ h. refl), ((λ h. cc), tt))

add_reader-tokens_example :
    add_reader no_match frame (codes "pg17") leak_log start
    ≡ add_reader no_match (λ l. none) (codes "pg17") leak_log start
add_reader-tokens_example =
    add_reader-tokens no_match frame (codes "pg17") leak_log start opening_unmarked refl

banner_test : banner_of (codes "---- numeric_fuzzer ---- ") ≡ some (codes "numeric_fuzzer")
unfolding banner_of has_prefix
banner_test = refl

extract_test :
    extract (record {
      asserts = (codes "n > 0", codes "/src/a/numeric.c", codes "12") ∷ [];
      undefined = [];
      address = [];
      fuzzer = [];
      panics = (codes "FATAL", codes "invalid type 26 ") ∷ [];
    })
    ≡ (codes "Assert(n > 0) numeric.c:12", codes "/src/a/numeric.c")
      ∷ (codes "FATAL invalid type N", [])
      ∷ []
unfolding extract base_name collapse trim_space
extract_test = refl

family_test : family (codes "pg17-10-add") ≡ codes "pg17"
unfolding family cut_at
family_test = refl

sanitizer_test : sanitizer_of (codes "gt-pg17") ((codes "gt-pg17", codes "address") ∷ []) ≡ asan
unfolding sanitizer_of
sanitizer_test = refl

sanitizer_other_test : sanitizer_of (codes "gt-pg17") [] ≡ other
unfolding sanitizer_of
sanitizer_other_test = refl

units_test :
    (count_units (codes "pg17") (codes "t_fuzzer") (3 ∷ 4 ∷ []) empty).units
    ≡ (codes "pg17", (codes "t_fuzzer", 7) ∷ []) ∷ []
unfolding count_units
units_test = refl

abbrev hit : Text → Text → Hit
hit ws sig = record { ws = ws; target = []; sig = sig; src = [] }

abbrev hits : List Hit
hits =
    hit (codes "oriole17") (codes "A")
    ∷ hit (codes "pg17") (codes "B")
    ∷ hit (codes "oriole17") (codes "A")
    ∷ []

census_rows-Counts_example :
    All (Counts hits) (census_rows (record_all hits empty))
    × ((sig : Text)
        → 0 < hits_of (λ ws. true) sig hits
        → Any (λ (r : Row). r.signature ≡ sig) (census_rows (record_all hits empty)))
census_rows-Counts_example = census_rows-Counts hits
