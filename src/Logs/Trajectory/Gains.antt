-- ===== src/Logs/Trajectory/Gains.antt =====
-- What `Summarise` says of the points, in whatever order the workers wrote them.
use pg_fuzz.Base.{
  ℕ, ◌+◌, ◌≤◌, ◌<◌, max, ◌≡◌, ◌≢◌, refl, ◌⊎◌, inl, inr, List, [], ◌∷◌, some, All, Any, ltb,
  Bool-cases, arith,
}
use pg_fuzz.Float.{Float}
use pg_fuzz.Logs.Trajectory.Order.{
  Ascending, All-of-sort_points, Any-of-sort_points, sort_points-Ascending,
}
use pg_fuzz.Logs.Trajectory.{
  Point, Walk, sort_points, walk_one, walk, Trajectory, start, summary, summarise,
}

-- The loop from a state `w` to `t`. A state whose best is its coverage moves its edge only where the
-- coverage rises.
record Walked (w t : Walk) (ps : List Point) : Type 0 where
  grows : (w.cov ≤ t.cov) × (w.ft ≤ t.ft) × (w.last_exec_seen ≤ t.last_exec_seen)
  bounds : All (λ p. (p.cov ≤ t.cov) × (p.ft ≤ t.ft) × (p.execs ≤ t.last_exec_seen)) ps
  still : t.cov ≡ w.cov → t.last_new_edge_at ≡ w.last_new_edge_at
  first : All (λ p. p.cov ≡ t.cov → t.last_new_edge_at ≤ p.execs) ps
  reached :
      ((t.last_new_edge_at ≡ w.last_new_edge_at) × (t.cov ≡ w.cov))
      ⊎ Any (λ p. (p.cov ≡ t.cov) × (p.execs ≡ t.last_new_edge_at)) ps

walk_one_best :
    (w : Walk) (p : Point) → w.best ≡ some w.cov → (walk_one w p).best ≡ some (walk_one w p).cov
unfolding walk_one
walk_one_best w p e = ground arith

-- Either the point raises the coverage, and the edge is its own, or neither moves.
walk_one_cases :
    (w : Walk) (p : Point)
    → w.best ≡ some w.cov
    → ((w.cov < p.cov) × ((walk_one w p).cov ≡ p.cov) × ((walk_one w p).last_new_edge_at ≡ p.execs))
      ⊎ ((p.cov ≤ w.cov)
          × ((walk_one w p).cov ≡ w.cov)
          × ((walk_one w p).last_new_edge_at ≡ w.last_new_edge_at))
unfolding walk_one
walk_one_cases w p e = elim (Bool-cases (ltb w.cov p.cov)) [
  | inl up ↦ inl (ground arith, ground arith, ground arith)
  | inr down ↦ inr (ground arith, ground arith, ground arith)
]

walk_one_counts :
    (w : Walk) (p : Point)
    → ((walk_one w p).ft ≡ max w.ft p.ft)
      × ((walk_one w p).last_exec_seen ≡ max w.last_exec_seen p.execs)
unfolding walk_one
walk_one_counts w p = (refl, refl)

Walked-cons :
    (w t : Walk) (p : Point) (ps : List Point)
    → w.best ≡ some w.cov
    → w.last_new_edge_at ≤ p.execs
    → Walked (walk_one w p) t ps
    → Walked w t (p ∷ ps)
Walked-cons w t p ps e h r = elim (walk_one_cases w p e) [
  | inl up ↦ record {
    grows = omega (arith, r.grows, up, walk_one_counts w p);
    bounds = (omega (arith, r.grows, up, walk_one_counts w p), r.bounds);
    still = λ same. absurd (omega (arith, r.grows, up));
    first = (λ same. omega (arith, up, r.still (omega (arith, up))), r.first);
    reached = elim r.reached [
      | inl stay ↦ inr (inl (omega (arith, stay, up), omega (arith, stay, up)))
      | inr there ↦ inr (inr there)
    ];
  }
  | inr down ↦ record {
    grows = omega (arith, r.grows, down, walk_one_counts w p);
    bounds = (omega (arith, r.grows, down, walk_one_counts w p), r.bounds);
    still = λ same. omega (arith, down, r.still (omega (arith, down)));
    first = (λ same. omega (arith, down, r.still (omega (arith, down, r.grows))), r.first);
    reached = elim r.reached [
      | inl stay ↦ inl (omega (arith, stay, down), omega (arith, stay, down))
      | inr there ↦ inr (inr there)
    ];
  }
]

All-edge :
    (w : Walk) (p : Point) (ps : List Point)
    → w.best ≡ some w.cov
    → All (λ q. p.execs ≤ q.execs) ps
    → All (λ q. w.last_new_edge_at ≤ q.execs) ps
    → All (λ q. (walk_one w p).last_new_edge_at ≤ q.execs) ps
All-edge w p ps e a h = elim (walk_one_cases w p e) [ inl up ↦ rw up.2 a | inr down ↦ rw down.2 h ]

walk-Walked :
    (w : Walk) (ps : List Point)
    → w.best ≡ some w.cov
    → Ascending ps
    → All (λ p. w.last_new_edge_at ≤ p.execs) ps
    → Walked w (walk w ps) ps
unfolding walk
walk-Walked w [] e a h = record {
  grows = omega arith;
  bounds = tt;
  still = λ _. refl;
  first = tt;
  reached = inl (refl, refl);
}
walk-Walked w (p ∷ ps) e (a, as') (h, hs) =
    Walked-cons w _ p ps e h
      (walk-Walked (walk_one w p) ps (walk_one_best w p e) as' (All-edge w p ps e a hs))

-- What a trajectory says of its points.
pub record Describes (f : Float) (t : Trajectory f) (ps : List Point) : Type 0 where
  -- No point is above its figures.
  pub bounds : All (λ p. (p.cov ≤ t.cov) × (p.ft ≤ t.ft) × (p.execs ≤ t.last_exec_seen)) ps
  -- It starts at a point than which none has executed less, and what it gained is the rest.
  pub starts :
      Any (λ p. (p.cov ≡ t.cov_start) × (p.ft ≡ t.ft_start) × All (λ q. p.execs ≤ q.execs) ps) ps
  pub gained :
      (t.cov_start + t.cov_gained_in_run ≡ t.cov) × (t.ft_start + t.ft_gained_in_run ≡ t.ft)
  -- The last new edge is the earliest point that has its coverage.
  pub reached : Any (λ p. (p.cov ≡ t.cov) × (p.execs ≡ t.last_new_edge_at)) ps
  pub first : All (λ p. p.cov ≡ t.cov → t.last_new_edge_at ≤ p.execs) ps
  pub within : t.last_new_edge_at ≤ t.last_exec_seen

edge-within :
    (edge cov ft last : ℕ) (ps : List Point)
    → Any (λ p. (p.cov ≡ cov) × (p.execs ≡ edge)) ps
    → All (λ p. (p.cov ≤ cov) × (p.ft ≤ ft) × (p.execs ≤ last)) ps
    → edge ≤ last
edge-within edge cov ft last [] h a = absurd h
edge-within edge cov ft last (p ∷ ps) (inl h) a = omega arith
edge-within edge cov ft last (p ∷ ps) (inr h) (a, as') = edge-within edge cov ft last ps h as'

no_points : (ps : List Point) → All (λ _. ⊥) ps → ps ≡ []
no_points [] h = refl
no_points (p ∷ ps) h = absurd h.0

-- Where the loop starts once the first point is read.
first_walk :
    (f : Float) (p : Point)
    → ((walk_one (start f) p).cov ≡ p.cov)
      × ((walk_one (start f) p).ft ≡ p.ft)
      × ((walk_one (start f) p).last_exec_seen ≡ p.execs)
      × ((walk_one (start f) p).last_new_edge_at ≡ p.execs)
      × ((walk_one (start f) p).best ≡ some (walk_one (start f) p).cov)
unfolding walk_one
first_walk f p = (omega arith, omega arith, omega arith, refl, ground arith)

module _ (f : Float) where
  -- The sorted points, with what carries a property of them over to the points as they came.
  summary-Describes :
      (qs ps : List Point)
      → qs ≢ []
      → Ascending qs
      → ((P : Point → Type 0) → All P qs → All P ps)
      → ((P : Point → Type 0) → Any P qs → Any P ps)
      → Describes f (summary f qs) ps
  unfolding summary walk walk_one
  summary-Describes [] ps ne asc all any = absurd (ne refl)
  summary-Describes (q ∷ qs) ps ne (a, as') all any =
      let w = walk_one (start f) q in
      let (c, t, l, g, best) = first_walk f q in
      let r = walk-Walked w qs best as' (rw g a) in
      let bounds : All
          (λ p.
            (p.cov ≤ (walk w qs).cov)
            × (p.ft ≤ (walk w qs).ft)
            × (p.execs ≤ (walk w qs).last_exec_seen))
          (q ∷ qs) =
        ((omega (arith, r.grows), omega (arith, r.grows), omega (arith, r.grows)), r.bounds) in
      let reached : Any (λ p. (p.cov ≡ (walk w qs).cov) × (p.execs ≡ (walk w qs).last_new_edge_at))
          (q ∷ qs) =
        elim r.reached [
          | inl stay ↦ inl (omega (arith, stay), omega (arith, stay))
          | inr there ↦ inr there
        ] in
      record {
        bounds = all _ bounds;
        starts = any _ (inl (refl, refl, all _ (omega arith, a)));
        gained = (omega (arith, r.grows), omega (arith, r.grows));
        reached = any _ reached;
        first =
            all (λ p. p.cov ≡ (walk w qs).cov → (walk w qs).last_new_edge_at ≤ p.execs)
              (λ e. omega (arith, r.still (omega arith)), r.first);
        within = edge-within _ _ _ _ (q ∷ qs) reached bounds;
      }

  -- Of at least one point, the summary has the greatest coverage, features and executions; it starts
  -- at a point of the fewest executions and its gains are what is on top of that; and its last new
  -- edge is where the greatest coverage is first reached.
  pub summarise-Describes : (ps : List Point) → ps ≢ [] → Describes f (summarise f ps) ps
  unfolding summarise
  summarise-Describes ps ne =
      summary-Describes (sort_points ps) ps
        (λ e. ne (no_points ps (All-of-sort_points (λ _. ⊥) ps (rw e tt))))
        (sort_points-Ascending ps) (λ P. All-of-sort_points P ps) (λ P. Any-of-sort_points P ps)
