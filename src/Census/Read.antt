-- ===== src/Census/Read.antt =====
-- internal/census/census.go: the readers of a log, line by line, and the scope of a leak report. What
-- the regular expressions find in a line is an argument.
use pg_fuzz.Base.{
  Bool, true, false, List, [], ◌∷◌, Option, none, some, Text, codes, contains, has_prefix,
  trim_space, if◌then◌else◌,
}
use pg_fuzz.Census.Extract.{Matches, extract, extract_leak, interesting, banner_of}
use pg_fuzz.Census.Builder.{Builder, record_sig, record_each}

-- `see`: the scope after the line, and whether a token on this line is a leak's.
unfoldable pub see : Text → Bool → Bool × Bool
see line inside =
    if contains line (codes "LeakSanitizer: detected memory leaks")
    then (true, true)
    else if contains line (codes "runtime error:")
    then (false, false)
    else if has_prefix (trim_space line) (codes "SUMMARY:")
    then (false, inside)
    else (inside, inside)

-- The state of `AddReader`: the target of the last banner, the scope and the builder.
pub record Reader : Type 0 where
  pub target : Text
  pub inside : Bool
  pub built : Builder

module _ (find : Text → Matches) (frame : Text → Option Text) where
  abbrev pub record_leak : Text → Text → Option Text → Builder → Builder
  record_leak ws target none b = b
  record_leak ws target (some sig) b = record_sig ws target sig [] b

  -- What both readers do with a line.
  unfoldable pub read_report : Text → Text → Text → Bool → Builder → Builder
  read_report ws target line in_leak b =
      let b' = record_each ws target (extract (find line)) b in
      if in_leak then record_leak ws target (extract_leak (frame line)) b' else b'

  -- `AddReaderAs`.
  unfoldable pub add_reader_as : Text → Text → List Text → Bool → Builder → Builder
  add_reader_as ws target [] inside b = b
  add_reader_as ws target (l ∷ ls) inside b =
      add_reader_as ws target ls (see l inside).0 (read_report ws target l (see l inside).1 b)

  abbrev on_banner : Text → Text → Reader → Option Text → Reader
  on_banner ws l r (some t) = record r { target = t }
  on_banner ws l r none = record {
    target = r.target;
    inside = (see l r.inside).0;
    built = read_report ws r.target l (see l r.inside).1 r.built;
  }

  unfoldable pub add_line : Text → Text → Reader → Reader
  add_line ws l r = if interesting l then on_banner ws l r (banner_of l) else r

  -- `AddReader`.
  unfoldable pub add_reader : Text → List Text → Reader → Reader
  add_reader ws [] r = r
  add_reader ws (l ∷ ls) r = add_reader ws ls (add_line ws l r)

  -- `Add`, of the matches in a whole text.
  unfoldable pub add : Text → Text → Text → Builder → Builder
  add ws target text b = record_each ws target (extract (find text)) b

  -- `AddSweep`. Its expression has no flag for many lines, so it finds a banner only where that is
  -- the whole text, and then nothing behind it.
  unfoldable pub add_sweep : Text → Text → Builder → Builder
  add_sweep ws text b = elim (banner_of text) [ none ↦ add ws [] text b | some t ↦ add ws t [] b ]
