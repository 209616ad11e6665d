-- ===== src/Fuzz/Progress.antt =====
-- The pool of a soak never gives up while a target is free: with no target named twice, a token in
-- the loop's hand always finds one.
use native.Mathlib.Nat.{mod-lt, mod-eq_of_lt, mod-add-mod, add-mod_right}
use pg_fuzz.Base.{
  ℕ, zero, suc, ◌+◌, ◌-◌, ◌%◌, ◌≤◌, ◌<◌, ◌≡◌, ◌≢◌, ap, ◌∙◌, sym, inl, inr, true, false, List, [],
  ◌∷◌, none, Text, eq, eq_iff, eq_refl, holds, length, get_elem?, or_else, leb, ◌==◌, All,
  Bool-cases, arith,
}
use pg_fuzz.Fuzz.Pool.{Distinct, held, Reach-IsSafe}
use pg_fuzz.Fuzz.Schedule.{holding_token, Pool, pick_from, pick, land_target, Reach}

abbrev target_at : List Text → ℕ → Text
target_at targets i = or_else (get_elem? targets i) []

-- Every round of the loop over `k` met a target in flight.
pick_from-none :
    (targets in_flight : List Text) (next k left j : ℕ)
    → pick_from targets in_flight next k left ≡ none
    → j < left
    → holds (target_at targets ((next + (k + j)) % length targets)) in_flight ≡ true
unfolding pick_from
pick_from-none targets in_flight next k zero j h l = absurd (omega arith)
pick_from-none targets in_flight next k (suc left) j h l =
    let c = target_at targets ((next + k) % length targets) in
    elim (Bool-cases (holds c in_flight)) [
      | inr e ↦ absurd (cc (rw e at h))
      | inl e ↦ elim (Bool-cases (j == 0)) [
        | inl first ↦ let same : next + (k + j) ≡ next + k = ground arith in rw same e
        | inr later ↦
            let shifted : next + (k + j) ≡ next + (k + 1 + (j - 1)) = ground arith in
            rw shifted (
              pick_from-none targets in_flight next (k + 1) left (j - 1) (rw e at h) (ground arith))
      ]
    ]

-- Every position is met: `next + k` runs through all remainders.
remainder : (next n i : ℕ) → i < n → (k : ℕ) × (k < n) × ((next + k) % n ≡ i)
remainder next n i h =
    let r = next % n in
    let small : next % n < n = mod-lt next (omega arith) in
    elim (Bool-cases (leb (next % n) i)) [
      | inl e ↦
          let sum : next % n + (i - next % n) ≡ i = ground arith in
          (
            i - next % n,
            ground arith,
            sym (mod-add-mod next n (i - next % n)) ∙ ap (λ x. x % n) sum ∙ mod-eq_of_lt h,
          )
      | inr e ↦
          let sum : next % n + (i + n - next % n) ≡ i + n = ground arith in
          (
            i + n - next % n,
            ground arith,
            sym (mod-add-mod next n (i + n - next % n))
                ∙ ap (λ x. x % n) sum
                ∙ add-mod_right i n
                ∙ mod-eq_of_lt h,
          )
    ]

pick-none :
    (targets : List Text) (p : Pool) (i : ℕ)
    → pick targets p ≡ none
    → i < length targets
    → holds (target_at targets i) p.in_flight ≡ true
unfolding pick
pick-none targets p i h l =
    let (k, below, at) = remainder p.next (length targets) i l in
    let met = pick_from-none targets p.in_flight p.next 0 (length targets) k h below in
    let plain : p.next + (0 + k) ≡ p.next + k = omega arith in rw (plain, at) at met

-- A list that holds every position's target holds every target.
All-positions :
    (targets ts : List Text)
    → ((i : ℕ) → i < length targets → holds (target_at targets i) ts ≡ true)
    → All (λ t. holds t ts ≡ true) targets
All-positions [] ts h = tt
All-positions (t ∷ targets) ts h =
    (h 0 (omega arith), All-positions targets ts (λ i l. h (suc i) (omega arith)))

length-land_target_lt : (t : Text) (ts : List Text) → length (land_target t ts) ≤ length ts
length-land_target_lt t [] = omega arith
length-land_target_lt t (u ∷ us) = ground (arith, length-land_target_lt t us)

land_target-shorter :
    (t : Text) (ts : List Text) → holds t ts ≡ true → length (land_target t ts) < length ts
unfolding holds
land_target-shorter t [] h = absurd (cc h)
land_target-shorter t (u ∷ us) h =
    ground (arith, h, length-land_target_lt t us, land_target-shorter t us)

holds-land_target_other :
    (s t : Text) (ts : List Text)
    → eq t s ≡ false
    → holds s ts ≡ true
    → holds s (land_target t ts) ≡ true
unfolding holds
holds-land_target_other s t [] e h = absurd (cc h)
holds-land_target_other s t (u ∷ us) e h = elim (Bool-cases (eq u t)) [
  | inl same ↦
      let other : eq u s ≡ false = rw ((eq_iff u t).0 same) e in
      rw same (holds-land_target_other s t us e (ground (arith, h, other)))
  | inr differs ↦ rw differs (ground (arith, h, holds-land_target_other s t us e))
]

All-land_target :
    (t : Text) (us ts : List Text)
    → holds t us ≡ false
    → All (λ s. holds s ts ≡ true) us
    → All (λ s. holds s (land_target t ts) ≡ true) us
unfolding holds
All-land_target t [] ts h a = tt
All-land_target t (u ∷ us) ts h (b, a) =
    let other : eq t u ≡ false = ground (arith, h, eq_iff t u, eq_refl t) in
    (holds-land_target_other u t ts other b, All-land_target t us ts (ground (arith, h)) a)

-- The pigeonhole principle.
length-All-holds :
    (us ts : List Text) → Distinct us → All (λ u. holds u ts ≡ true) us → length us ≤ length ts
length-All-holds [] ts d a = omega arith
length-All-holds (u ∷ us) ts (h, d) (b, a) =
    let rest = length-All-holds us (land_target u ts) d (All-land_target u us ts h a) in
    omega (arith, rest, land_target-shorter u ts b)

-- In every pool that a soak can reach, of at least one target and with none named twice, the loop
-- finds a target to start whenever it has a token: it never ends for want of one.
pub pick-Reach :
    {targets : List Text} {conc : ℕ} (p : Pool)
    → Distinct targets
    → 0 < length targets
    → Reach targets conc p
    → p.phase ≡ holding_token
    → pick targets p ≢ none
pick-Reach {targets = targets} {conc = conc} p d some_target r w h =
    let safe = Reach-IsSafe r in
    let all =
      length-All-holds targets p.in_flight d
        (All-positions targets p.in_flight (λ i l. pick-none targets p i h l)) in
    ground (arith, safe.counted, safe.bounded, ap held w, all)
