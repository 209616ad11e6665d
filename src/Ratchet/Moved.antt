-- ===== src/Ratchet/Moved.antt =====
-- What the loop of a reseed does to the floors.
use pg_fuzz.Base.{
  holds, ◌||◌, ℕ, Bool, true, false, List, [], ◌∷◌, Option, none, some, Text, Map, lookup,
  lookup_or, put, lookup-put, eq, eq_iff, eq_refl, ◌==◌, if◌then◌else◌, ◌≡◌, ◌≢◌, ◌⊎◌, refl, ap,
  ◌∙◌, sym, inl, inr, arith, Bool-cases, Option-cases,
}
use pg_fuzz.Ratchet.Reseed.{Moves, reseed_one, reseed_all, set_floor}

-- The floor of a target in a workspace.
abbrev pub floor_at : Text → Text → Map (Map ℕ) → Option ℕ
floor_at ws t floors = lookup t (lookup_or [] ws floors)

pub floor_at-put :
    (w ws t target : Text) (n : ℕ) (floors : Map (Map ℕ))
    → floor_at ws t (put w (put target n (lookup_or [] w floors)) floors) ≡ (
        if eq w ws
        then (if eq target t then some n else floor_at ws t floors)
        else floor_at ws t floors)
floor_at-put w ws t target n floors = elim (Bool-cases (eq w ws)) [
  | inr e ↦ rw (lookup-put w ws (put target n (lookup_or [] w floors)) floors, e) refl
  | inl e ↦
      rw (lookup-put w ws (put target n (lookup_or [] w floors)) floors, e)
        (lookup-put target t n (lookup_or [] w floors)
          ∙ ap (λ (v : Text). if eq target t then some n else floor_at v t floors)
              ((eq_iff w ws).0 e))
]

-- The floor that a target is to have: the best count of the directory, where the workspace has a
-- floor and a directory and some round qualifies.
abbrev pub best_or : Option Text → (Text → ℕ) → ℕ → ℕ
best_or none best old = old
best_or (some dir) best old = if best dir == 0 then old else best dir

abbrev pub new_floor : Bool → Option Text → (Text → ℕ) → Option ℕ → Option ℕ
new_floor same dir best none = none
new_floor same dir best (some old) = some (if same then best_or dir best old else old)

new_floor_twice :
    (same : Bool) (dir : Option Text) (best : Text → ℕ) (o : Option ℕ)
    → new_floor same dir best (new_floor same dir best o) ≡ new_floor same dir best o
new_floor_twice same dir best none = refl
new_floor_twice same none best (some old) = ground arith
new_floor_twice same (some d) best (some old) = ground arith

-- A round of the loop does nothing, or sets one floor and lists the change.
abbrev pub OneMove : Text → Map Text → (Text → ℕ) → Text → Moves → Type 0
OneMove target dirs best w m =
    (old : ℕ) × (n : ℕ) × (floor_at w target m.floors ≡ some old)
    × (best_or (lookup w dirs) best old ≡ n)
    × (n ≢ old)
    × (reseed_one target dirs best w m ≡ set_floor w target old n m)

abbrev pub NoMove : Text → Map Text → (Text → ℕ) → Text → Moves → Type 0
NoMove target dirs best w m =
    (reseed_one target dirs best w m ≡ m)
    × (new_floor true (lookup w dirs) best (floor_at w target m.floors)
        ≡ floor_at w target m.floors)

pub reseed_one-cases :
    (target : Text) (dirs : Map Text) (best : Text → ℕ) (w : Text) (m : Moves)
    → NoMove target dirs best w m ⊎ OneMove target dirs best w m
unfolding reseed_one
reseed_one-cases target dirs best w m = elim (Option-cases (floor_at w target m.floors)) [
  | inl e ↦ inl (rw e (refl, refl))
  | inr (old, e) ↦ elim (Option-cases (lookup w dirs)) [
    | inl d ↦ inl (rw (e, d) (refl, refl))
    | inr (dir, d) ↦ elim (Bool-cases (best dir == 0)) [
      | inl z ↦ inl (rw (e, d, z) (refl, refl))
      | inr z ↦ elim (Bool-cases (best dir == old)) [
        | inl q ↦ inl (rw (e, d, z, q) (refl, ground (arith, q)))
        | inr q ↦
            inr
              (old, best dir, e, rw (d, z) refl, (λ k. ground (arith, k, q)), rw (e, d, z, q) refl)
      ]
    ]
  ]
]

new_floor_other :
    (dir : Option Text) (best : Text → ℕ) (o : Option ℕ) → new_floor false dir best o ≡ o
new_floor_other dir best none = refl
new_floor_other dir best (some old) = refl

pub reseed_one-floor :
    (target : Text) (dirs : Map Text) (best : Text → ℕ) (w ws t : Text) (m : Moves)
    → floor_at ws t (reseed_one target dirs best w m).floors ≡ (
        if eq w ws
        then new_floor (eq target t) (lookup ws dirs) best (floor_at ws t m.floors)
        else floor_at ws t m.floors)
reseed_one-floor target dirs best w ws t m = elim (Bool-cases (eq w ws)) [
  | inr e ↦ elim (reseed_one-cases target dirs best w m) [
    | inl (same, kept) ↦ rw e (ap (λ (k : Moves). floor_at ws t k.floors) same)
    | inr (old, n, o, b, ne, moved) ↦ rw e (
        ap (λ (k : Moves). floor_at ws t k.floors) moved
        ∙ floor_at-put w ws t target n m.floors
        ∙ rw e refl)
  ]
  | inl e ↦ rw e (rw (← (eq_iff w ws).0 e) (here (Bool-cases (eq target t))))
]
  where
    here :
        ((eq target t ≡ true) ⊎ (eq target t ≡ false))
        → floor_at w t (reseed_one target dirs best w m).floors
          ≡ new_floor (eq target t) (lookup w dirs) best (floor_at w t m.floors)
    here (inl q) = rw q (
        rw (← (eq_iff target t).0 q) (elim (reseed_one-cases target dirs best w m) [
          | inl (same, kept) ↦ ap (λ (k : Moves). floor_at w target k.floors) same ∙ sym kept
          | inr (old, n, o, b, ne, moved) ↦
              ap (λ (k : Moves). floor_at w target k.floors) moved
              ∙ floor_at-put w w target target n m.floors
              ∙ rw (eq_refl w, eq_refl target, o, b) refl
        ]))
    here (inr q) =
        rw (q, new_floor_other (lookup w dirs) best (floor_at w t m.floors))
          (elim (reseed_one-cases target dirs best w m) [
            | inl (same, kept) ↦ ap (λ (k : Moves). floor_at w t k.floors) same
            | inr (old, n, o, b, ne, moved) ↦
                ap (λ (k : Moves). floor_at w t k.floors) moved
                ∙ floor_at-put w w t target n m.floors
                ∙ rw (eq_refl w, q) refl
          ])

pub reseed_all-floor :
    (target : Text) (dirs : Map Text) (best : Text → ℕ) (wss : List Text) (ws t : Text) (m : Moves)
    → floor_at ws t (reseed_all target dirs best wss m).floors ≡ (
        if holds ws wss
        then new_floor (eq target t) (lookup ws dirs) best (floor_at ws t m.floors)
        else floor_at ws t m.floors)
unfolding reseed_all holds
reseed_all-floor target dirs best [] ws t m = refl
reseed_all-floor target dirs best (w ∷ wss) ws t m =
    reseed_all-floor target dirs best wss ws t (reseed_one target dirs best w m)
    ∙ ap
        (λ (o : Option ℕ).
          if holds ws wss then new_floor (eq target t) (lookup ws dirs) best o else o)
        (reseed_one-floor target dirs best w ws t m)
    ∙ again (Bool-cases (eq w ws)) (Bool-cases (holds ws wss))
  where
    again :
        ((eq w ws ≡ true) ⊎ (eq w ws ≡ false))
        → ((holds ws wss ≡ true) ⊎ (holds ws wss ≡ false))
        → (if holds ws wss
            then new_floor (eq target t) (lookup ws dirs) best (
                if eq w ws
                then new_floor (eq target t) (lookup ws dirs) best (floor_at ws t m.floors)
                else floor_at ws t m.floors)
            else (if eq w ws
                then new_floor (eq target t) (lookup ws dirs) best (floor_at ws t m.floors)
                else floor_at ws t m.floors))
          ≡ (if eq w ws || holds ws wss
              then new_floor (eq target t) (lookup ws dirs) best (floor_at ws t m.floors)
              else floor_at ws t m.floors)
    again (inl e) (inl h) =
        rw (e, h) (new_floor_twice (eq target t) (lookup ws dirs) best (floor_at ws t m.floors))
    again (inl e) (inr h) = rw (e, h) refl
    again (inr e) (inl h) = rw (e, h) refl
    again (inr e) (inr h) = rw (e, h) refl
