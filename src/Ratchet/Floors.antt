-- ===== src/Ratchet/Floors.antt =====
-- The floors of the counts under `Update`, for a baseline that has the target's floor.
use pg_fuzz.Base.{
  ℕ, ◌≤◌, ◌≡◌, ◌⊎◌, inl, inr, false, List, [], ◌∷◌, Option, none, some, Text, Map, lookup,
  lookup_or, lookup-put, Unique, Unique-put, eq, eq_iff, eq_refl, ltb, if◌then◌else◌, Option-cases,
  Bool-cases, All, Any, ◌∙◌, is_empty, arith,
}
use pg_fuzz.Float.{Float}
use pg_fuzz.Ratchet.Defs.{Observation}
use pg_fuzz.Ratchet.Update.{Ledger, restore, settle, settle_one, settle_all}

-- There is a floor, and it is at least `v`.
abbrev pub AtLeast : ℕ → Option ℕ → Type 0
AtLeast v none = ⊥
AtLeast v (some w) = v ≤ w

restore-keeps :
    (rkey t k : Text) (arch : Map (Map ℕ)) (m : Map ℕ) (v : ℕ)
    → AtLeast v (lookup k m)
    → AtLeast v (lookup k (restore rkey t arch m))
unfolding restore
restore-keeps rkey t k arch m v h = elim (Option-cases (lookup t m)) [
  | inr (old, e) ↦ rw (e, restore) h
  | inl e ↦ elim (Option-cases (lookup rkey (lookup_or [] t arch))) [
    | inl a ↦ rw (e, restore, a) h
    | inr (p, a) ↦ rw (e, restore, a, lookup-put t k p m) (ground (arith, eq_iff t k))
  ]
]

settle-keeps :
    (t k : Text) (execs v : ℕ) (l : Ledger)
    → AtLeast v (lookup k l.floors)
    → AtLeast v (lookup k (settle t execs (lookup t l.floors) l).floors)
unfolding settle
settle-keeps t k execs v l h = elim (Option-cases (lookup t l.floors)) [
  | inl e ↦ rw (e, settle, lookup-put t k execs l.floors) (ground (arith, eq_iff t k))
  | inr (old, e) ↦ rw (e, settle) (ground (arith, lookup-put t k execs l.floors, eq_iff t k))
]

settle-reaches :
    (t : Text) (execs : ℕ) (l : Ledger)
    → AtLeast execs (lookup t (settle t execs (lookup t l.floors) l).floors)
unfolding settle
settle-reaches t execs l = elim (Option-cases (lookup t l.floors)) [
  | inl e ↦ rw (e, settle, lookup-put t t execs l.floors, eq_refl t) (omega arith)
  | inr (old, e) ↦ rw (e, settle) (ground (arith, lookup-put t t execs l.floors, eq_refl t))
]

restore-other :
    (rkey t k : Text) (arch : Map (Map ℕ)) (m : Map ℕ)
    → eq t k ≡ false
    → lookup k (restore rkey t arch m) ≡ lookup k m
unfolding restore
restore-other rkey t k arch m h = elim (Option-cases (lookup t m)) [
  | inr (old, e) ↦ rw (e, restore)
  | inl e ↦ elim (Option-cases (lookup rkey (lookup_or [] t arch))) [
    | inl a ↦ rw (e, restore, a)
    | inr (p, a) ↦ rw (e, restore, a, lookup-put t k p m, h)
  ]
]

settle-other :
    (t k : Text) (execs : ℕ) (l : Ledger)
    → eq t k ≡ false
    → lookup k (settle t execs (lookup t l.floors) l).floors ≡ lookup k l.floors
unfolding settle
settle-other t k execs l h = elim (Option-cases (lookup t l.floors)) [
  | inl e ↦ rw (e, settle, lookup-put t k execs l.floors, h)
  | inr (old, e) ↦ rw (e, settle) (ground (arith, lookup-put t k execs l.floors))
]

restore-Unique :
    (rkey t : Text) (arch : Map (Map ℕ)) (m : Map ℕ) → Unique m → Unique (restore rkey t arch m)
unfolding restore
restore-Unique rkey t arch m u = elim (Option-cases (lookup t m)) [
  | inr (old, e) ↦ rw (e, restore) u
  | inl e ↦ elim (Option-cases (lookup rkey (lookup_or [] t arch))) [
    | inl a ↦ rw (e, restore, a) u
    | inr (p, a) ↦ rw (e, restore, a) (Unique-put t p m u)
  ]
]

settle-Unique :
    (t : Text) (execs : ℕ) (l : Ledger)
    → Unique l.floors
    → Unique (settle t execs (lookup t l.floors) l).floors
unfolding settle
settle-Unique t execs l u = elim (Option-cases (lookup t l.floors)) [
  | inl e ↦ rw (e, settle) (Unique-put t execs l.floors u)
  | inr (old, e) ↦
      rw (e, settle)
        (elim (Bool-cases (ltb old execs)) [
          | inl b ↦ rw b (Unique-put t execs l.floors u)
          | inr b ↦ rw b u
        ])
]

module _ (rkey : Text) (arch : Map (Map ℕ)) where
  -- With a regime, each target of the loop is stamped with it, and no stamp is lost.
  abbrev pub IsStamped : Text → Ledger → Type 0
  IsStamped k l = lookup k l.regimes ≡ some rkey

  settle_one-regimes :
      (t k : Text) (execs : ℕ) (l : Ledger)
      → is_empty rkey ≡ false
      → lookup k (settle_one rkey arch t execs l).regimes
        ≡ (if eq t k then some rkey else lookup k l.regimes)
  unfolding settle_one settle
  settle_one-regimes t k execs l h =
      rw (← lookup-put t k rkey l.regimes) (ground (arith, lookup-put t k rkey l.regimes))

  settle_one-keeps :
      (t k : Text) (execs v : ℕ) (l : Ledger)
      → AtLeast v (lookup k l.floors)
      → AtLeast v (lookup k (settle_one rkey arch t execs l).floors)
  unfolding settle_one
  settle_one-keeps t k execs v l h =
      settle-keeps t k execs v _ (restore-keeps rkey t k arch l.floors v h)

  settle_one-reaches :
      (t : Text) (execs : ℕ) (l : Ledger)
      → AtLeast execs (lookup t (settle_one rkey arch t execs l).floors)
  unfolding settle_one
  settle_one-reaches t execs l = settle-reaches t execs _

  -- What was archived under this regime is the record to beat.
  settle_one-recalls :
      (t : Text) (execs v : ℕ) (l : Ledger)
      → lookup t l.floors ≡ none
      → lookup rkey (lookup_or [] t arch) ≡ some v
      → AtLeast v (lookup t (settle_one rkey arch t execs l).floors)
  unfolding settle_one
  settle_one-recalls t execs v l e a =
      settle-keeps t t execs v _
        (rw (e, restore, a, lookup-put t t v l.floors, eq_refl t) (omega arith))

  settle_one-other :
      (t k : Text) (execs : ℕ) (l : Ledger)
      → eq t k ≡ false
      → lookup k (settle_one rkey arch t execs l).floors ≡ lookup k l.floors
  unfolding settle_one
  settle_one-other t k execs l h =
      settle-other t k execs _ h ∙ restore-other rkey t k arch l.floors h

  settle_one-Unique :
      (t : Text) (execs : ℕ) (l : Ledger)
      → Unique l.floors
      → Unique (settle_one rkey arch t execs l).floors
  unfolding settle_one
  settle_one-Unique t execs l u = settle-Unique t execs _ (restore-Unique rkey t arch l.floors u)

  module _ (f : Float) where
    pub settle_all-keeps :
        (obs : List (Observation f)) (k : Text) (v : ℕ) (l : Ledger)
        → AtLeast v (lookup k l.floors)
        → AtLeast v (lookup k (settle_all f rkey arch obs l).floors)
    unfolding settle_all
    settle_all-keeps [] k v l h = h
    settle_all-keeps (o ∷ obs) k v l h =
        settle_all-keeps obs k v _ (settle_one-keeps o.target k o.execs v l h)

    pub settle_all-reaches :
        (obs : List (Observation f)) (l : Ledger)
        → All (λ o. AtLeast o.execs (lookup o.target (settle_all f rkey arch obs l).floors)) obs
    unfolding settle_all
    settle_all-reaches [] l = tt
    settle_all-reaches (o ∷ obs) l = (
      settle_all-keeps obs o.target o.execs _ (settle_one-reaches o.target o.execs l),
      settle_all-reaches obs _,
    )

    pub settle_all-recalls :
        (obs : List (Observation f)) (k : Text) (v : ℕ) (l : Ledger)
        → lookup k l.floors ≡ none
        → lookup rkey (lookup_or [] k arch) ≡ some v
        → Any (λ o. o.target ≡ k) obs
        → AtLeast v (lookup k (settle_all f rkey arch obs l).floors)
    unfolding settle_all
    settle_all-recalls [] k v l e a seen = absurd seen
    settle_all-recalls (o ∷ obs) k v l e a (inl here) =
        settle_all-keeps obs k v _ (rw here (settle_one-recalls k o.execs v l e a))
    settle_all-recalls (o ∷ obs) k v l e a (inr later) = elim (Bool-cases (eq o.target k)) [
      | inl same ↦
          settle_all-keeps obs k v _
            (rw ((eq_iff o.target k).0 same) (settle_one-recalls k o.execs v l e a))
      | inr other ↦
          settle_all-recalls obs k v _ (settle_one-other o.target k o.execs l other ∙ e) a later
    ]

    pub settle_all-stamps :
        (obs : List (Observation f)) (k : Text) (l : Ledger)
        → is_empty rkey ≡ false
        → IsStamped k l ⊎ Any (λ o. o.target ≡ k) obs
        → IsStamped k (settle_all f rkey arch obs l)
    unfolding settle_all
    settle_all-stamps [] k l r (inl h) = h
    settle_all-stamps [] k l r (inr h) = absurd h
    settle_all-stamps (o ∷ obs) k l r (inl h) =
        settle_all-stamps obs k _ r (inl (settle_one-regimes o.target k o.execs l r ∙ ground arith))
    settle_all-stamps (o ∷ obs) k l r (inr (inl h)) =
        settle_all-stamps obs k _ r
          (inl (settle_one-regimes o.target k o.execs l r ∙ rw (h, eq_refl k)))
    settle_all-stamps (o ∷ obs) k l r (inr (inr h)) = settle_all-stamps obs k _ r (inr h)

    -- A target that starts with no floor ends with none, or with the regime's stamp.
    pub settle_all-fresh :
        (obs : List (Observation f)) (k : Text) (l : Ledger)
        → is_empty rkey ≡ false
        → lookup k l.floors ≡ none
        → (lookup k (settle_all f rkey arch obs l).floors ≡ none)
          ⊎ IsStamped k (settle_all f rkey arch obs l)
    unfolding settle_all
    settle_all-fresh [] k l r h = inl h
    settle_all-fresh (o ∷ obs) k l r h = elim (Bool-cases (eq o.target k)) [
      | inl same ↦
          inr (
            settle_all-stamps obs k _ r (inl (settle_one-regimes o.target k o.execs l r ∙ rw same)))
      | inr other ↦ settle_all-fresh obs k _ r (settle_one-other o.target k o.execs l other ∙ h)
    ]

    pub settle_all-Unique :
        (obs : List (Observation f)) (l : Ledger)
        → Unique l.floors
        → Unique (settle_all f rkey arch obs l).floors
    unfolding settle_all
    settle_all-Unique [] l u = u
    settle_all-Unique (o ∷ obs) l u =
        settle_all-Unique obs _ (settle_one-Unique o.target o.execs l u)
