-- ===== src/Corpus/Caps.antt =====
-- go/internal/corpus/autocap.go: `Autocap`, which decides whose corpus is capped.
use pg_fuzz.Base.{
  ℕ, max, Bool, not, ◌&&◌, ◌||◌, List, [], ◌∷◌, ◌++◌, Option, none, some, Text, Map, codes, decimal,
  lookup, keys, less, sort_by, holds, ltb, ◌==◌, if◌then◌else◌,
}
use pg_fuzz.Corpus.Sweep.{TargetLog, locked}
use pg_fuzz.Float.{Float}

module _ (f : Float) where
  open f use {F, of_nat, mul, div, to_nat, lt}

  pub record AutocapOptions : Type 0 where
    pub fraction : F
    pub warn_fraction : F
    pub floor : ℕ
    pub all : Bool
    pub skip : List Text

  pub record CapDecision : Type 0 where
    pub target : Text
    pub files : ℕ
    pub rate : ℕ
    pub replay_seconds : F
    pub budget : ℕ
    pub cap : ℕ
    pub live : ℕ
    pub locked : Bool
    pub at_risk : Bool
    pub act : Bool

  -- `CapDecision.State`.
  unfoldable pub state_of : CapDecision → Text
  state_of d =
      let s =
        if d.locked then codes "LOCKED" else if d.at_risk then codes "at-risk" else codes "ok" in
      if d.act then s ++ (codes ": " ++ (decimal d.live ++ (codes " -> " ++ decimal d.cap))) else s

  -- The rate of the replay, or the run's where that is not known.
  abbrev pub rate_of : TargetLog → ℕ
  rate_of d = if d.replay_rate == 0 then d.rate else d.replay_rate

  abbrev pub cap_of : AutocapOptions → TargetLog → ℕ
  cap_of o d = max (to_nat (mul (mul o.fraction (of_nat d.budget)) (of_nat (rate_of d)))) o.floor

  abbrev pub is_at_risk : AutocapOptions → TargetLog → Bool
  is_at_risk o d =
      lt (mul o.warn_fraction (of_nat d.budget)) (div (of_nat d.files) (of_nat (rate_of d)))

  -- The decision on one target, of so many files.
  unfoldable pub decide : AutocapOptions → Text → TargetLog → ℕ → CapDecision
  decide o t d live = record {
    target = t;
    files = d.files;
    rate = rate_of d;
    replay_seconds = div (of_nat d.files) (of_nat (rate_of d));
    budget = d.budget;
    cap = cap_of o d;
    live = live;
    locked = locked d;
    at_risk = is_at_risk o d;
    act = (locked d || (is_at_risk o d || o.all)) && ltb (cap_of o d) live;
  }

  -- A target whose log does not say enough is passed over.
  abbrev pub is_judgeable : TargetLog → Bool
  is_judgeable d = not ((d.files == 0) || ((rate_of d == 0) || (d.budget == 0)))

  -- `countFiles` of a target's corpus is a function of the target.
  module _ (count_files : Text → ℕ) where
    unfoldable pub decide_on :
        AutocapOptions → Text → Option TargetLog → List CapDecision → List CapDecision
    unfolding decide
    decide_on o t none rest = rest
    decide_on o t (some d) rest =
        if holds t o.skip
        then rest
        else if is_judgeable d
        then decide o t d (count_files t) ∷ rest
        else rest

    unfoldable pub decide_all : Map TargetLog → AutocapOptions → List Text → List CapDecision
    unfolding decide_on
    decide_all per o [] = []
    decide_all per o (t ∷ ts) = decide_on o t (lookup t per) (decide_all per o ts)

    -- `Autocap`.
    unfoldable pub autocap : Map TargetLog → AutocapOptions → List CapDecision
    unfolding decide_all
    autocap per o = decide_all per o (sort_by less (keys per))
