-- ===== src/Corpus/Sweep.antt =====
-- go/internal/corpus/autocap.go: `ParseSweepForCap`. What the substring tests and the regular
-- expressions give on a line, once its colour codes are stripped, is a `CapLine`; a line that passes
-- the filter on the raw bytes is `relevant`.
use pg_fuzz.Base.{
  ℕ, ◌+◌, Bool, false, not, ◌&&◌, List, [], ◌∷◌, Option, none, some, Text, Map, lookup, lookup_or,
  put, ◌==◌, if◌then◌else◌, or_else, is_some,
}

pub record TargetLog : Type 0 where
  pub budget : ℕ
  pub files : ℕ
  pub inited : Option ℕ
  pub done : Option ℕ
  pub replay_rate : ℕ
  pub rate : ℕ
  pub new_units : ℕ

abbrev pub no_log : TargetLog
no_log = record {
  budget = 0;
  files = 0;
  inited = none;
  done = none;
  replay_rate = 0;
  rate = 0;
  new_units = 0;
}

abbrev same_count : Option ℕ → Option ℕ → Bool
same_count (some a) (some b) = a == b
same_count _ _ = false

-- `TargetLog.Locked`: the run ended where the replay did.
unfoldable pub locked : TargetLog → Bool
locked t = same_count t.inited t.done

pub record CapLine : Type 0 where
  pub relevant : Bool
  pub banner : Option Text
  pub has_max_total : Bool
  pub max_total : Option ℕ
  pub has_files : Bool
  pub files_found : Option ℕ
  pub has_inited : Bool
  pub hash : Option ℕ
  pub exec_s : Option ℕ
  pub has_done : Bool
  pub has_new_units : Bool
  pub has_average : Bool
  pub trailing : Option ℕ

abbrev or_kept : Option ℕ → Option ℕ → Option ℕ
or_kept none old = old
or_kept (some v) old = some v

-- The switch on a line of a target's section.
unfoldable pub apply_line : TargetLog → CapLine → TargetLog
apply_line t l =
    if l.has_max_total && (t.budget == 0)
    then record t { budget = or_else l.max_total t.budget }
    else if l.has_files && (t.files == 0)
    then record t { files = or_else l.files_found t.files }
    else if l.has_inited && not (is_some t.inited)
    then record t { inited = or_kept l.hash t.inited; replay_rate = or_else l.exec_s t.replay_rate }
    else if l.has_done && not (is_some t.done)
    then record t { done = or_kept l.hash t.done }
    else if l.has_new_units
    then record t { new_units = t.new_units + or_else l.trailing 0 }
    else if l.has_average && (t.rate == 0)
    then record t { rate = or_else l.trailing t.rate }
    else t

-- A banner opens the section of its target, which is made if it is not there.
abbrev pub open_section : Text → Map TargetLog → Map TargetLog
open_section t per = if is_some (lookup t per) then per else put t no_log per

-- The switch, on the target whose section is open.
abbrev pub apply_to : Option Text → CapLine → Map TargetLog → Map TargetLog
apply_to none l per = per
apply_to (some t) l per = put t (apply_line (lookup_or no_log t per) l) per

-- The loop. `cur` is the target whose section is open, if one is.
unfoldable pub scan_sweep : List CapLine → Option Text → Map TargetLog → Map TargetLog
scan_sweep [] cur per = per
scan_sweep (l ∷ ls) cur per =
    let skipped = scan_sweep ls cur per in
    let within = scan_sweep ls cur (apply_to cur l per) in
    let opened : Map TargetLog = elim l.banner [
      | none ↦ within
      | some t ↦ scan_sweep ls (some t) (open_section t per)
    ] in
    if not l.relevant then skipped else opened

-- `ParseSweepForCap`.
unfoldable pub parse_sweep_for_cap : List CapLine → Map TargetLog
parse_sweep_for_cap ls = scan_sweep ls none []
