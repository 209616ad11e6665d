-- ===== src/Fuzz/Pool.antt =====
-- What holds of the pool of a soak at any time.
use pg_fuzz.Base.{
  ℕ, zero, suc, ◌+◌, ◌%◌, ◌≤◌, ◌≡◌, refl, ap, inl, inr, true, false, List, [], ◌∷◌, some, Text, eq,
  eq_iff, holds, length, get_elem?, or_else, Bool-cases, arith,
}
use pg_fuzz.Fuzz.Schedule.{
  Phase, waiting, holding_token, stopped, Pool, pick_from, pick, land_target, clamp, Step, acquire,
  launch, exhaust, expire, stop, land, release, Reach, begun, stepped,
}

-- No target stands twice.
abbrev pub Distinct : List Text → Type 0
Distinct [] = Unit
Distinct (t ∷ ts) = (holds t ts ≡ false) × Distinct ts

-- The token that the loop holds.
abbrev pub held : Phase → ℕ
held waiting = 0
held holding_token = 1
held stopped = 0

-- No target runs twice at once, every token is accounted for, and no more are out than there are.
pub record IsSafe (most : ℕ) (p : Pool) : Type 0 where
  pub distinct : Distinct p.in_flight
  pub counted : p.tokens ≡ length p.in_flight + p.landed + held p.phase
  pub bounded : p.tokens ≤ most

pick_from-holds :
    (targets in_flight : List Text) (next k left : ℕ) (t : Text) (n : ℕ)
    → pick_from targets in_flight next k left ≡ some (t, n)
    → holds t in_flight ≡ false
unfolding pick_from
pick_from-holds targets in_flight next k zero t n h = absurd (cc h)
pick_from-holds targets in_flight next k (suc left) t n h =
    let c = or_else (get_elem? targets ((next + k) % length targets)) [] in
    elim (Bool-cases (holds c in_flight)) [
      | inl e ↦ pick_from-holds targets in_flight next (k + 1) left t n (rw e at h)
      | inr e ↦
          let found : some (c, (next + k + 1) % length targets) ≡ some (t, n) = rw e at h in
          let same : c ≡ t = cc found in rw (← same) e
    ]

pick-holds :
    (targets : List Text) (p : Pool) (t : Text) (n : ℕ)
    → pick targets p ≡ some (t, n)
    → holds t p.in_flight ≡ false
unfolding pick
pick-holds targets p t n h = pick_from-holds targets p.in_flight p.next 0 (length targets) t n h

holds-land_target :
    (s t : Text) (ts : List Text) → holds s ts ≡ false → holds s (land_target t ts) ≡ false
unfolding holds
holds-land_target s t [] h = refl
holds-land_target s t (u ∷ us) h = ground (arith, h, holds-land_target s t us)

land_target-absent : (t : Text) (ts : List Text) → holds t ts ≡ false → land_target t ts ≡ ts
unfolding holds
land_target-absent t [] h = refl
land_target-absent t (u ∷ us) h = elim (Bool-cases (eq u t)) [
  | inl e ↦ ground (arith, h, e)
  | inr e ↦ rw e (ap (◌∷◌ u) (land_target-absent t us (ground (arith, h, e))))
]

Distinct-land_target : (t : Text) (ts : List Text) → Distinct ts → Distinct (land_target t ts)
Distinct-land_target t [] d = tt
Distinct-land_target t (u ∷ us) (h, d) = elim (Bool-cases (eq u t)) [
  | inl e ↦ rw e (Distinct-land_target t us d)
  | inr e ↦ rw e (holds-land_target u t us h, Distinct-land_target t us d)
]

length-land_target :
    (t : Text) (ts : List Text)
    → Distinct ts
    → holds t ts ≡ true
    → length (land_target t ts) + 1 ≡ length ts
unfolding holds
length-land_target t [] d h = absurd (cc h)
length-land_target t (u ∷ us) (a, d) h = elim (Bool-cases (eq u t)) [
  | inl e ↦
      let absent : holds t us ≡ false = rw (← (eq_iff u t).0 e) a in
      rw (e, land_target-absent t us absent) (omega arith)
  | inr e ↦
      let rest = length-land_target t us d (ground (arith, h, e)) in rw e (omega (arith, rest))
]

Step-IsSafe :
    (targets : List Text) {conc : ℕ} {p q : Pool}
    → Step targets conc p q
    → IsSafe (clamp conc targets) p
    → IsSafe (clamp conc targets) q
Step-IsSafe targets (acquire p w h) s = record {
  distinct = s.distinct;
  counted = omega (arith, s.counted, ap held w);
  bounded = omega arith;
}
Step-IsSafe targets (launch p t n w h) s = record {
  distinct = (pick-holds targets p t n h, s.distinct);
  counted = omega (arith, s.counted, ap held w);
  bounded = s.bounded;
}
Step-IsSafe targets (exhaust p w h) s = record {
  distinct = s.distinct;
  counted = omega (arith, s.counted, ap held w);
  bounded = omega (arith, s.bounded);
}
Step-IsSafe targets (expire p w) s = record {
  distinct = s.distinct;
  counted = omega (arith, s.counted, ap held w);
  bounded = omega (arith, s.bounded);
}
Step-IsSafe targets (stop p w) s = record {
  distinct = s.distinct;
  counted = omega (arith, s.counted, ap held w);
  bounded = s.bounded;
}
Step-IsSafe targets (land p t h) s = record {
  distinct = Distinct-land_target t p.in_flight s.distinct;
  counted = omega (arith, s.counted, length-land_target t p.in_flight s.distinct h);
  bounded = s.bounded;
}
Step-IsSafe targets (release p h) s = record {
  distinct = s.distinct;
  counted = omega (arith, s.counted);
  bounded = omega (arith, s.bounded);
}

-- In every pool that a soak can reach no target is in flight twice; the tokens that are out are those
-- of the targets in flight, of the goroutines that have landed and of the loop; and they are no more
-- than the number asked for, taken down to that of the targets, and then up to one.
pub Reach-IsSafe :
    {targets : List Text} {conc : ℕ} {p : Pool}
    → Reach targets conc p
    → IsSafe (clamp conc targets) p
Reach-IsSafe begun = record { distinct = tt; counted = refl; bounded = omega arith }
Reach-IsSafe (stepped r s) = Step-IsSafe _ s (Reach-IsSafe r)
