-- ===== src/Breakdown/Scan.antt =====
-- go/internal/breakdown/breakdown.go: `scanLog`. What the regular expressions and `Classify` give on a
-- line is a `LogLine`: the components are those of its frames that have one.
use pg_fuzz.Base.{
  ℕ, ◌+◌, Bool, true, false, List, [], ◌∷◌, Text, Map, lookup_or, put, holds, if◌then◌else◌,
}

pub data LogLine : Type 0 where
  crash_start : LogLine
  -- `SUMMARY` or `stat::`.
  report_end : LogLine
  frames : List Text → LogLine

abbrev pub Credits : Type 0
Credits = Map (Map ℕ)

-- `out[c][target]`.
abbrev pub credits_of : Credits → Text → Text → ℕ
credits_of out c target = lookup_or 0 target (lookup_or [] c out)

-- The closure `credit`.
unfoldable pub credit : Text → List Text → Credits → Credits
credit target [] out = out
credit target (c ∷ cs) out =
    credit target cs (put c (put target (credits_of out c target + 1) (lookup_or [] c out)) out)

abbrev pub touch : Text → List Text → List Text
touch c touched = if holds c touched then touched else c ∷ touched

unfoldable pub touch_all : List Text → List Text → List Text
touch_all [] touched = touched
touch_all (c ∷ cs) touched = touch_all cs (touch c touched)

-- The loop over the lines, and the credit behind it.
unfoldable pub scan : Text → Bool → List Text → List LogLine → Credits → Credits
scan target in_report touched [] out = credit target touched out
scan target in_report touched (crash_start ∷ ls) out =
    scan target true [] ls (credit target touched out)
scan target in_report touched (report_end ∷ ls) out =
    let closed = scan target false [] ls (credit target touched out) in
    let skipped = scan target in_report touched ls out in if in_report then closed else skipped
scan target in_report touched (frames cs ∷ ls) out =
    let inside = scan target in_report (touch_all cs touched) ls out in
    let skipped = scan target in_report touched ls out in if in_report then inside else skipped

-- `scanLog`.
unfoldable pub scan_log : List LogLine → Text → Credits → Credits
scan_log ls target out = scan target false [] ls out
