-- ===== src/Logs/Attributed.antt =====
-- The totals of a target are those of its own sections.
use pg_fuzz.Base.{
  subst, ℕ, true, false, List, [], ◌∷◌, Option, none, some, Text, Map, eq, eq_iff, is_empty,
  is_some, lookup, lookup_or, or_else, if◌then◌else◌, ◌≡◌, refl, ap, ◌∙◌, sym, inl, inr, arith,
  Bool-cases,
}
use pg_fuzz.Float.{Float}
use pg_fuzz.Logs.Sweep.{
  SweepLine, fuzzing, execs_line, new_line, average_line, done_line, other_line, SweepState,
  at_start, sweep_line, sweep_lines, SweepStats, sweep_rate, stats_at, stats_of, parse_sweep,
  credit_line,
}
use pg_fuzz.Logs.Sections.{
  own, has_execs, sum_execs, sum_new, sum_average, sum_runs, most_secs, Has, Has-refl,
  credit_line-other, credit_line-own,
}

Has-nil :
    (t : Text) (s s1 s2 : SweepState) (ms : List SweepLine)
    → Has t s [] s1
    → Has t s1 ms s2
    → Has t s ms s2
Has-nil t s s1 s2 ms (a, b, c, d, e, f) (g, h, i, j, k, l) =
    (ground (arith, a, g), omega arith, omega arith, omega arith, omega arith, omega arith)

Has-cons :
    (t : Text) (l : SweepLine) (s s1 s2 : SweepState) (ms : List SweepLine)
    → Has t s (l ∷ []) s1
    → Has t s1 ms s2
    → Has t s (l ∷ ms) s2
Has-cons t (fuzzing name) s s1 s2 ms h k = Has-nil t s s1 s2 ms h k
Has-cons t other_line s s1 s2 ms h k = Has-nil t s s1 s2 ms h k
Has-cons t (execs_line n) s s1 s2 ms (a, b, c, d, e, f) (g, h, i, j, k, l) =
    (ground (arith, a, g), omega arith, omega arith, omega arith, omega arith, omega arith)
Has-cons t (new_line n) s s1 s2 ms (a, b, c, d, e, f) (g, h, i, j, k, l) =
    (ground (arith, a, g), omega arith, omega arith, omega arith, omega arith, omega arith)
Has-cons t (average_line n) s s1 s2 ms (a, b, c, d, e, f) (g, h, i, j, k, l) =
    (ground (arith, a, g), omega arith, omega arith, omega arith, omega arith, omega arith)
Has-cons t (done_line n secs) s s1 s2 ms (a, b, c, d, e, f) (g, h, i, j, k, l) =
    (ground (arith, a, g), omega arith, omega arith, omega arith, omega arith, omega arith)

-- A line that is no banner, as the loop takes it.
abbrev stepped : SweepLine → SweepState → SweepState
stepped l s = if is_empty s.target then s else credit_line s.target l s

credit_line-target :
    (t : Text) (l : SweepLine) (s : SweepState) → (credit_line t l s).target ≡ s.target
credit_line-target t (fuzzing name) s = refl
credit_line-target t (execs_line n) s = refl
credit_line-target t (new_line n) s = refl
credit_line-target t (average_line n) s = refl
credit_line-target t (done_line n secs) s = refl
credit_line-target t other_line s = refl

stepped-target : (l : SweepLine) (s : SweepState) → (stepped l s).target ≡ s.target
stepped-target l s = elim (Bool-cases (is_empty s.target)) [
  | inl e ↦ ap (λ b. (if b then s else credit_line s.target l s).target) e
  | inr e ↦
      ap (λ b. (if b then s else credit_line s.target l s).target) e
      ∙ credit_line-target s.target l s
]

stepped-other :
    (t : Text) (l : SweepLine) (s : SweepState) → eq s.target t ≡ false → Has t s [] (stepped l s)
stepped-other t l s h = elim (Bool-cases (is_empty s.target)) [
  | inl e ↦
      subst (λ b. Has t s [] (if b then s else credit_line s.target l s)) (sym e) (Has-refl t s)
  | inr e ↦
      subst (λ b. Has t s [] (if b then s else credit_line s.target l s)) (sym e)
        (credit_line-other s.target t l s h)
]

stepped-own :
    (t : Text) (l : SweepLine) (s : SweepState)
    → is_empty t ≡ false
    → eq s.target t ≡ true
    → Has t s (l ∷ []) (stepped l s)
stepped-own t l s n h =
    let same : t ≡ s.target = sym ((eq_iff s.target t).0 h) in
    let full : is_empty s.target ≡ false = subst (λ (k : Text). is_empty k ≡ false) same n in
    subst (λ b. Has t s (l ∷ []) (if b then s else credit_line s.target l s)) (sym full)
      (subst (λ (k : Text). Has t s (l ∷ []) (credit_line k l s)) same (credit_line-own t l s))

stepped-Has :
    (t : Text) (l : SweepLine) (s s2 : SweepState) (ls : List SweepLine)
    → is_empty t ≡ false
    → Has t (stepped l s) (own t (stepped l s).target ls) s2
    → Has t s (if eq s.target t then l ∷ own t s.target ls else own t s.target ls) s2
stepped-Has t l s s2 ls n h =
    let rest : Has t (stepped l s) (own t s.target ls) s2 =
      subst (λ (k : Text). Has t (stepped l s) (own t k ls) s2) (stepped-target l s) h in
    elim (Bool-cases (eq s.target t)) [
      | inl e ↦
          subst (λ b. Has t s (if b then l ∷ own t s.target ls else own t s.target ls) s2) (sym e)
            (Has-cons t l s (stepped l s) s2 (own t s.target ls) (stepped-own t l s n e) rest)
      | inr e ↦
          subst (λ b. Has t s (if b then l ∷ own t s.target ls else own t s.target ls) s2) (sym e)
            (Has-nil t s (stepped l s) s2 (own t s.target ls) (stepped-other t l s e) rest)
    ]

sweep_lines-Has :
    (t : Text) (ls : List SweepLine) (s : SweepState)
    → is_empty t ≡ false
    → Has t s (own t s.target ls) (sweep_lines ls s)
unfolding sweep_lines sweep_line
sweep_lines-Has t [] s n = Has-refl t s
sweep_lines-Has t (fuzzing name ∷ ls) s n = sweep_lines-Has t ls (record s { target = name }) n
sweep_lines-Has t (other_line ∷ ls) s n = sweep_lines-Has t ls s n
sweep_lines-Has t (execs_line k ∷ ls) s n =
    stepped-Has t (execs_line k) s (sweep_lines ls (stepped (execs_line k) s)) ls n
      (sweep_lines-Has t ls (stepped (execs_line k) s) n)
sweep_lines-Has t (new_line k ∷ ls) s n =
    stepped-Has t (new_line k) s (sweep_lines ls (stepped (new_line k) s)) ls n
      (sweep_lines-Has t ls (stepped (new_line k) s) n)
sweep_lines-Has t (average_line k ∷ ls) s n =
    stepped-Has t (average_line k) s (sweep_lines ls (stepped (average_line k) s)) ls n
      (sweep_lines-Has t ls (stepped (average_line k) s) n)
sweep_lines-Has t (done_line k secs ∷ ls) s n =
    stepped-Has t (done_line k secs) s (sweep_lines ls (stepped (done_line k secs) s)) ls n
      (sweep_lines-Has t ls (stepped (done_line k secs) s) n)

map_stats : (f : Float) → SweepState → Text → Option ℕ → Option (SweepStats f)
map_stats f s t none = none
map_stats f s t (some e) = some (stats_at f s t e)

lookup-stats_of :
    (f : Float) (s : SweepState) (t : Text) (m : Map ℕ)
    → lookup t (stats_of f s m) ≡ map_stats f s t (lookup t m)
unfolding map_stats
lookup-stats_of f s t [] = refl
lookup-stats_of f s t ((j, e) ∷ m) = elim (Bool-cases (eq j t)) [
  | inl q ↦ rw q (ap (λ (k : Text). some (stats_at f s k e)) ((eq_iff j t).0 q))
  | inr q ↦ rw q (lookup-stats_of f s t m)
]

-- What is read of a target: the sums over its own lines, or nothing where none counts executions.
abbrev pub totals_of : (f : Float) → List SweepLine → Option (SweepStats f)
totals_of f ls =
    if has_execs ls
    then some (record {
      execs = sum_execs ls;
      new_units = sum_new ls;
      rate = sweep_rate f (sum_runs ls) (most_secs ls) (sum_average ls);
    })
    else none

map_stats-totals_of :
    (f : Float) (s : SweepState) (t : Text) (o : Option ℕ) (mine : List SweepLine)
    → is_some o ≡ has_execs mine
    → or_else o 0 ≡ sum_execs mine
    → lookup_or 0 t s.new_units ≡ sum_new mine
    → lookup_or 0 t s.average ≡ sum_average mine
    → lookup_or 0 t s.runs ≡ sum_runs mine
    → lookup_or 0 t s.secs ≡ most_secs mine
    → map_stats f s t o ≡ totals_of f mine
unfolding map_stats
map_stats-totals_of f s t none mine seen execs new average runs secs = rw (← seen) refl
map_stats-totals_of f s t (some e) mine seen execs new average runs secs =
    rw (← seen) (rw (execs, new, average, runs, secs) refl)

-- What `ParseSweep` gives for a target is what the lines of the target's own sections give, wherever
-- they stand in the log: the executions, the new units, the runs and the averages summed, and the
-- longest of its runs for their time; nothing where none of these lines counts executions.
pub parse_sweep-own :
    (f : Float) (t : Text) (ls : List SweepLine)
    → is_empty t ≡ false
    → lookup t (parse_sweep f ls) ≡ totals_of f (own t [] ls)
unfolding parse_sweep
parse_sweep-own f t ls n =
    let s : SweepState = sweep_lines ls at_start in
    let (seen, execs, new, average, runs, secs) = sweep_lines-Has t ls at_start n in
    lookup-stats_of f s t s.execs
    ∙ map_stats-totals_of f s t (lookup t s.execs) (own t [] ls) seen (omega (arith, execs))
        (omega (arith, new)) (omega (arith, average)) (omega (arith, runs)) (omega (arith, secs))
