-- ===== src/Logs/Stats.antt =====
-- go/internal/logs/logs.go: the figures of one target's run, and what they say of it.
-- Every figure is read by a regular expression of digits, so it is a natural number; an Atoi beyond
-- an int is not modelled.
use pg_fuzz.Base.{
  contains, ℕ, ◌-◌, ◌/◌, Bool, false, ◌&&◌, ◌||◌, List, [], ◌∷◌, Text, codes, ltb, ◌==◌,
  if◌then◌else◌,
}
use pg_fuzz.Float.{Float}

pub record UbSite : Type 0 where
  pub function : Text
  pub file : Text
  pub line : ℕ
  pub class : Text
  pub text : Text

module _ (f : Float) where
  open f use {F}

  pub record Stats : Type 0 where
    pub target : Text
    pub inited : ℕ
    pub done : ℕ
    pub execs : ℕ
    pub partial : Bool
    pub new_units : ℕ
    pub slowest_unit : ℕ
    pub peak_rss : ℕ
    pub cov : ℕ
    pub ft : ℕ
    pub corpus : ℕ
    pub timeout : ℕ
    pub runs : ℕ
    pub seconds : ℕ
    pub rate : F
    pub ub : List UbSite
    pub crashes : List Text
    pub banner : Bool
    pub aborted : Bool
    pub avg_rate : ℕ
    pub stat_execs : ℕ
    pub progress_execs : ℕ

  -- `Stats.ReplayOnly`. The source's difference may be negative, and is then below any quotient.
  unfoldable pub replay_only : Stats → Bool
  replay_only s =
      ltb 0 s.done
      && ltb 0 s.inited
      && (s.new_units == 0)
      && (ltb s.done s.inited || ltb (s.done - s.inited) (s.inited / 100))

-- Whether the target ever became a fuzzer.
pub data Startup : Type 0 where
  no_evidence died inited fuzzed : Startup

unfoldable pub startup_text : Startup → Text
startup_text died = codes "died before libFuzzer started"
startup_text inited = codes "started but never fuzzed"
startup_text fuzzed = codes "fuzzed"
startup_text no_evidence = codes "no evidence either way"

module _ (f : Float) where
  -- `Stats.Startup`.
  unfoldable pub startup : Stats f → Startup
  startup s =
      if ltb 0 s.execs || ltb 0 s.done
      then fuzzed
      else if ltb 0 s.inited || s.banner
      then inited
      else if s.aborted
      then died
      else no_evidence

-- `classify`: the kind of an undefined behaviour, from its message.
unfoldable pub classify : Text → Text
unfolding contains
classify text =
    if contains text (codes "signed integer overflow") || contains text (codes "negation of")
    then codes "signed-overflow"
    else if contains text (codes "shift exponent")
    then codes "shift"
    else if contains text (codes "null pointer")
    then codes "null-deref"
    else if contains text (codes "out of bounds")
    then codes "out-of-bounds"
    else codes "other"

has_slash : Text → Bool
has_slash [] = false
has_slash (c ∷ p) = (c == b'/') || has_slash p

-- `base`: what follows the last slash.
unfoldable pub base : Text → Text
unfolding has_slash
base [] = []
base (c ∷ p) = if has_slash (c ∷ p) then base p else c ∷ p
