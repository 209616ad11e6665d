-- ===== src/Gate/Ubsan.antt =====
-- go/internal/gate/gate.go: `UBSan`, which fails a site that nobody has accepted.
use pg_fuzz.Base.{
  Bool, true, false, ◌&&◌, ◌||◌, List, [], ◌∷◌, ◌++◌, Text, codes, eq, if◌then◌else◌, is_empty,
  any_of, holds, decimal,
}
use pg_fuzz.Gate.Verdict.{Verdict, finding, fail_with, unattributed, not_accepted}
use pg_fuzz.Logs.Stats.{UbSite}

-- One row of the accept-list.
pub record Accepted : Type 0 where
  pub function : Text
  pub scope : List Text
  pub site : Text
  pub class : Text

-- The verdict and the keys already reported.
pub record Seen : Type 0 where
  pub verdict : Verdict
  pub keys : List Text

-- `u.File + ":" + fmt.Sprint(u.Line)`.
abbrev pub place_of : UbSite → Text
place_of u = u.file ++ (b':' ∷ decimal u.line)

-- `path.Match(pat, s)` gives true, and no error: Go's glob matcher is a parameter.
module _ (glob : Text → Text → Bool) where
  -- `inScope`: the one that `UBSan` asks.
  unfoldable pub in_scope : List Accepted → Text → Text → Bool
  in_scope accepted fn ws =
      any_of (λ a. eq a.function fn && any_of (λ g. eq g (codes "*") || glob g ws) a.scope) accepted

  -- `InScope`: the one that withdrawal and the positive control ask.
  unfoldable pub applies : Accepted → Text → Bool
  applies a ws = elim a.scope [
    | [] ↦ true
    | g ∷ gs ↦ any_of (λ g. is_empty g || eq g (codes "*") || glob g ws) (g ∷ gs)
  ]

  unfoldable pub report_site : Text → Seen → Verdict → Seen
  report_site key s v = if holds key s.keys then s else record { verdict = v; keys = key ∷ s.keys }

  -- One round of the loop over the sites.
  unfoldable pub judge_site : List Accepted → Text → UbSite → Seen → Seen
  unfolding report_site
  judge_site accepted ws u s =
      if is_empty u.function
      then report_site (place_of u) s (fail_with (unattributed (place_of u) u.text) s.verdict)
      else if in_scope accepted u.function ws
      then s
      else report_site u.function s
          (fail_with (not_accepted u.function u.file u.line u.class u.text) s.verdict)

  unfoldable pub judge_sites : List Accepted → Text → List UbSite → Seen → Seen
  judge_sites accepted ws [] s = s
  judge_sites accepted ws (u ∷ us) s = judge_sites accepted ws us (judge_site accepted ws u s)

  -- `UBSan`, on the sites of a run.
  unfoldable pub ubsan : List UbSite → Text → List Accepted → Verdict
  ubsan sites ws accepted =
      (judge_sites accepted ws sites (record {
        verdict = record { name = codes "ubsan"; failed = false; detail = []; about = finding };
        keys = [];
      })).verdict
