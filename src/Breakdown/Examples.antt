-- ===== src/Breakdown/Examples.antt =====
-- A log of two reports, the first of which has two frames in the core.
use pg_fuzz.Base.{◌+◌, ◌≡◌, refl, List, [], ◌∷◌, codes, holds}
use pg_fuzz.Breakdown.Credits.{reports_in, touching, scan_log-touching}
use pg_fuzz.Breakdown.Scan.{
  LogLine, crash_start, report_end, frames, credits_of, credit, touch_all, scan, scan_log,
}

abbrev log : List LogLine
log =
    frames (codes "ext:dblink" ∷ [])
    ∷ crash_start
    ∷ frames (codes "core" ∷ codes "core" ∷ [])
    ∷ report_end
    ∷ crash_start
    ∷ frames (codes "core" ∷ codes "plugin:oriole" ∷ [])
    ∷ []

two_in_core : credits_of (scan_log log (codes "numeric") []) (codes "core") (codes "numeric") ≡ 2
unfolding scan_log scan credit touch_all holds
two_in_core = refl

scan_log-touching_example :
    credits_of (scan_log log (codes "numeric") []) (codes "core") (codes "numeric")
    ≡ credits_of [] (codes "core") (codes "numeric") + touching (codes "core") (reports_in log)
scan_log-touching_example = scan_log-touching (codes "core") (codes "numeric") log []
