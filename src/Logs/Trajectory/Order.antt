-- ===== src/Logs/Trajectory/Order.antt =====
-- The sorted points: the same points, ascending.
use pg_fuzz.Base.{ℕ, ◌≤◌, ◌⊎◌, inl, inr, List, [], ◌∷◌, All, Any, ltb, Bool-cases, arith}
use pg_fuzz.Logs.Trajectory.{Point, insert_down, sort_down, turn, sort_points}

-- Each point has executed at most what the later ones have.
abbrev pub Ascending : List Point → Type 0
Ascending [] = Unit
Ascending (p ∷ ps) = All (λ q. p.execs ≤ q.execs) ps × Ascending ps

abbrev Descending : List Point → Type 0
Descending [] = Unit
Descending (p ∷ ps) = All (λ q. q.execs ≤ p.execs) ps × Descending ps

-- What holds of every point of the list holds of every point of the sorted list, and back.
module _ (P : Point → Type 0) where
  All-insert_down : (p : Point) (qs : List Point) → P p → All P qs → All P (insert_down p qs)
  unfolding insert_down
  All-insert_down p [] h hs = (h, tt)
  All-insert_down p (q ∷ qs) h (k, ks) = elim (Bool-cases (ltb p.execs q.execs)) [
    | inl e ↦ rw e (k, All-insert_down p qs h ks)
    | inr e ↦ rw e (h, (k, ks))
  ]

  All-of-insert_down : (p : Point) (qs : List Point) → All P (insert_down p qs) → P p × All P qs
  unfolding insert_down
  All-of-insert_down p [] h = h
  All-of-insert_down p (q ∷ qs) h = elim (Bool-cases (ltb p.execs q.execs)) [
    | inl e ↦
        let (k, rest) = rw e at h in
        let (own, others) = All-of-insert_down p qs rest in (own, (k, others))
    | inr e ↦ rw e at h
  ]

  All-of-sort_down : (done ps : List Point) → All P (sort_down done ps) → All P done × All P ps
  unfolding sort_down
  All-of-sort_down done [] h = (h, tt)
  All-of-sort_down done (p ∷ ps) h =
      let (before, after) = All-of-sort_down (insert_down p done) ps h in
      let (own, others) = All-of-insert_down p done before in (others, (own, after))

  All-turn : (ps onto : List Point) → All P ps → All P onto → All P (turn ps onto)
  unfolding turn
  All-turn [] onto h k = k
  All-turn (p ∷ ps) onto (h, hs) k = All-turn ps (p ∷ onto) hs (h, k)

  All-of-turn : (ps onto : List Point) → All P (turn ps onto) → All P ps × All P onto
  unfolding turn
  All-of-turn [] onto h = (tt, h)
  All-of-turn (p ∷ ps) onto h =
      let (later, (own, earlier)) = All-of-turn ps (p ∷ onto) h in ((own, later), earlier)

  pub All-of-sort_points : (ps : List Point) → All P (sort_points ps) → All P ps
  unfolding sort_points
  All-of-sort_points ps h = (All-of-sort_down [] ps (All-of-turn (sort_down [] ps) [] h).0).1

  Any-of-insert_down : (p : Point) (qs : List Point) → Any P (insert_down p qs) → P p ⊎ Any P qs
  unfolding insert_down
  Any-of-insert_down p [] h = h
  Any-of-insert_down p (q ∷ qs) h = elim (Bool-cases (ltb p.execs q.execs)) [
    | inl e ↦
        let there : P q ⊎ Any P (insert_down p qs) = rw e at h in
        elim there [
          | inl k ↦ inr (inl k)
          | inr k ↦ elim (Any-of-insert_down p qs k) [ inl a ↦ inl a | inr b ↦ inr (inr b) ]
        ]
    | inr e ↦ rw e at h
  ]

  Any-of-sort_down : (done ps : List Point) → Any P (sort_down done ps) → Any P done ⊎ Any P ps
  unfolding sort_down
  Any-of-sort_down done [] h = inl h
  Any-of-sort_down done (p ∷ ps) h = elim (Any-of-sort_down (insert_down p done) ps h) [
    | inl before ↦ elim (Any-of-insert_down p done before) [
      | inl own ↦ inr (inl own)
      | inr other ↦ inl other
    ]
    | inr after ↦ inr (inr after)
  ]

  Any-of-turn : (ps onto : List Point) → Any P (turn ps onto) → Any P ps ⊎ Any P onto
  unfolding turn
  Any-of-turn [] onto h = inr h
  Any-of-turn (p ∷ ps) onto h = elim (Any-of-turn ps (p ∷ onto) h) [
    | inl later ↦ inl (inr later)
    | inr (inl own) ↦ inl (inl own)
    | inr (inr earlier) ↦ inr earlier
  ]

  pub Any-of-sort_points : (ps : List Point) → Any P (sort_points ps) → Any P ps
  unfolding sort_points
  Any-of-sort_points ps h = elim (Any-of-turn (sort_down [] ps) [] h) [
    | inl inside ↦ elim (Any-of-sort_down [] ps inside) [
      | inl none ↦ absurd none
      | inr there ↦ there
    ]
    | inr none ↦ absurd none
  ]

All-weaken :
    (m n : ℕ) (ps : List Point) → m ≤ n → All (λ q. q.execs ≤ m) ps → All (λ q. q.execs ≤ n) ps
All-weaken m n [] h k = tt
All-weaken m n (p ∷ ps) h (k, ks) = (omega arith, All-weaken m n ps h ks)

insert_down-Descending :
    (p : Point) (qs : List Point) → Descending qs → Descending (insert_down p qs)
unfolding insert_down
insert_down-Descending p [] d = (tt, tt)
insert_down-Descending p (q ∷ qs) (d, ds) = elim (Bool-cases (ltb p.execs q.execs)) [
  | inl e ↦ rw e (
    All-insert_down (λ r. r.execs ≤ q.execs) p qs (ground arith) d,
    insert_down-Descending p qs ds,
  )
  | inr e ↦ rw e ((ground arith, All-weaken q.execs p.execs qs (ground arith) d), (d, ds))
]

sort_down-Descending : (done ps : List Point) → Descending done → Descending (sort_down done ps)
unfolding sort_down
sort_down-Descending done [] d = d
sort_down-Descending done (p ∷ ps) d =
    sort_down-Descending (insert_down p done) ps (insert_down-Descending p done d)

-- Every point of the descending list is at most every point of the ascending one.
Under : List Point → List Point → Type 0
Under ps onto = All (λ p. All (λ q. p.execs ≤ q.execs) onto) ps

Under-cons :
    (p : Point) (ps onto : List Point)
    → All (λ q. q.execs ≤ p.execs) ps
    → Under ps onto
    → Under ps (p ∷ onto)
unfolding Under
Under-cons p [] onto h u = tt
Under-cons p (q ∷ ps) onto (h, hs) (u, us) = ((h, u), Under-cons p ps onto hs us)

turn-Ascending :
    (ps onto : List Point)
    → Descending ps
    → Ascending onto
    → Under ps onto
    → Ascending (turn ps onto)
unfolding turn Under
turn-Ascending [] onto d a u = a
turn-Ascending (p ∷ ps) onto (d, ds) a (u, us) =
    turn-Ascending ps (p ∷ onto) ds (u, a) (Under-cons p ps onto d us)

Under-nil : (ps : List Point) → Under ps []
unfolding Under
Under-nil [] = tt
Under-nil (p ∷ ps) = (tt, Under-nil ps)

-- The points that `sortPoints` gives are in ascending order of their execution counts.
pub sort_points-Ascending : (ps : List Point) → Ascending (sort_points ps)
unfolding sort_points
sort_points-Ascending ps =
    turn-Ascending (sort_down [] ps) [] (sort_down-Descending [] ps tt) tt (Under-nil _)
