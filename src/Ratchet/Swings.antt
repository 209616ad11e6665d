-- ===== src/Ratchet/Swings.antt =====
-- The swings that are ranked are those of the targets that every round of a workspace has.
use pg_fuzz.Base.{
  subst, leb_iff, ltb_iff, eq_refl, holds-keys, ◌⊎◌, ℕ, ◌<◌, ◌≤◌, Bool, true, false, ◌||◌, List, [],
  ◌∷◌, ◌++◌, Text, eq, holds, keep, keys, length, less, lookup_or, sort_by, All, Any, All-sort_by,
  ltb, if◌then◌else◌, ◌≡◌, refl, ap, ◌∙◌, sym, inl, inr, arith, Bool-cases,
}
use pg_fuzz.Float.{Float}
use pg_fuzz.Ratchet.Variance.{
  SeriesRow, max_int, rows_of, in_every, lowest, highest, Swing, swing, swings_in, swings_over,
  spread_of, narrower, Spread, ranked, variance, common, recorded_twice, row_names,
}

-- A count of the target in a row.
abbrev pub count_in : Text → SeriesRow → ℕ
count_in t r = lookup_or 0 t r.execs

larger : (a hi : ℕ) → (hi ≤ (if ltb hi a then a else hi)) × (a ≤ (if ltb hi a then a else hi))
larger a hi = ground arith

smaller : (a lo : ℕ) → ((if ltb a lo then a else lo) ≤ lo) × ((if ltb a lo then a else lo) ≤ a)
smaller a lo = ground arith

highest_bounds :
    (t : Text) (rs : List SeriesRow) (hi : ℕ)
    → (hi ≤ highest t rs hi) × All (λ r. count_in t r ≤ highest t rs hi) rs
unfolding highest
highest_bounds t [] hi = (omega arith, tt)
highest_bounds t (r ∷ rs) hi =
    let next : ℕ = if ltb hi (count_in t r) then count_in t r else hi in
    let (a, b) = highest_bounds t rs next in
    (
      omega (arith, a, (larger (count_in t r) hi).0),
      (omega (arith, a, (larger (count_in t r) hi).1), b),
    )

lowest_bounds :
    (t : Text) (rs : List SeriesRow) (lo : ℕ)
    → (lowest t rs lo ≤ lo) × All (λ r. lowest t rs lo ≤ count_in t r) rs
unfolding lowest
lowest_bounds t [] lo = (omega arith, tt)
lowest_bounds t (r ∷ rs) lo =
    let next : ℕ = if ltb (count_in t r) lo then count_in t r else lo in
    let (a, b) = lowest_bounds t rs next in
    (
      omega (arith, a, (smaller (count_in t r) lo).0),
      (omega (arith, a, (smaller (count_in t r) lo).1), b),
    )

pick : (b : Bool) (x y : ℕ) → ((if b then x else y) ≡ x) ⊎ ((if b then x else y) ≡ y)
pick true x y = inl refl
pick false x y = inr refl

highest_attained :
    (t : Text) (rs : List SeriesRow) (hi : ℕ)
    → (highest t rs hi ≡ hi) ⊎ Any (λ r. count_in t r ≡ highest t rs hi) rs
unfolding highest
highest_attained t [] hi = inl refl
highest_attained t (r ∷ rs) hi =
    elim (highest_attained t rs (if ltb hi (count_in t r) then count_in t r else hi)) [
      | inr a ↦ inr (inr a)
      | inl e ↦ elim (pick (ltb hi (count_in t r)) (count_in t r) hi) [
        | inl q ↦ inr (inl (sym (e ∙ q)))
        | inr q ↦ inl (e ∙ q)
      ]
    ]

lowest_attained :
    (t : Text) (rs : List SeriesRow) (lo : ℕ)
    → (lowest t rs lo ≡ lo) ⊎ Any (λ r. count_in t r ≡ lowest t rs lo) rs
unfolding lowest
lowest_attained t [] lo = inl refl
lowest_attained t (r ∷ rs) lo =
    elim (lowest_attained t rs (if ltb (count_in t r) lo then count_in t r else lo)) [
      | inr a ↦ inr (inr a)
      | inl e ↦ elim (pick (ltb (count_in t r) lo) (count_in t r) lo) [
        | inl q ↦ inr (inl (sym (e ∙ q)))
        | inr q ↦ inl (e ∙ q)
      ]
    ]

All-keep :
    (p : Text → Bool) (P : Text → Type 0) (xs : List Text)
    → ((x : Text) → p x ≡ true → P x)
    → All P (keep p xs)
All-keep p P [] h = tt
All-keep p P (x ∷ xs) h = elim (Bool-cases (p x)) [
  | inl e ↦ rw e (h x e, All-keep p P xs h)
  | inr e ↦ rw e (All-keep p P xs h)
]

All-held : (xs : List Text) → All (λ t. holds t xs ≡ true) xs
unfolding holds
All-held [] = tt
All-held (x ∷ xs) = (ground (arith, eq_refl x), wider xs (All-held xs))
  where
    wider :
        (ys : List Text)
        → All (λ t. holds t xs ≡ true) ys
        → All (λ t. (eq x t || holds t xs) ≡ true) ys
    wider [] a = tt
    wider (y ∷ ys) (h, a) = (ground (arith, h), wider ys a)

All-keep_both :
    (p : Text → Bool) (P Q : Text → Type 0) (xs : List Text)
    → ((x : Text) → P x → p x ≡ true → Q x)
    → All P xs
    → All Q (keep p xs)
All-keep_both p P Q [] h a = tt
All-keep_both p P Q (x ∷ xs) h (b, a) = elim (Bool-cases (p x)) [
  | inl e ↦ rw e (h x b e, All-keep_both p P Q xs h a)
  | inr e ↦ rw e (All-keep_both p P Q xs h a)
]

common-in_every : (rs : List SeriesRow) → All (λ t. in_every t rs ≡ true) (common rs)
common-in_every [] = tt
common-in_every (r ∷ rs) =
    All-keep_both (λ t. in_every t rs) (λ t. holds t (keys r.execs) ≡ true)
      (λ t. in_every t (r ∷ rs) ≡ true) (keys r.execs)
      (λ t h e. ground (arith, holds-keys t r.execs, h, e)) (All-held (keys r.execs))

All-append {ℓ} :
    {A : Type ℓ} (P : A → Type 0) (xs ys : List A) → All P xs → All P ys → All P (xs ++ ys)
All-append P [] ys a b = b
All-append P (x ∷ xs) ys (h, a) b = (h, All-append P xs ys a b)

-- What a swing says of the rounds of its workspace.
abbrev pub IsSwing : (f : Float) → List SeriesRow → Swing f → Type 0
IsSwing f all x =
    let rs = rows_of x.ws all in
    (2 ≤ length rs)
    × (in_every x.target rs ≡ true)
    × (0 < x.hi)
    × All (λ r. (x.lo ≤ count_in x.target r) × (count_in x.target r ≤ x.hi)) rs
    × Any (λ r. count_in x.target r ≡ x.hi) rs
    × ((x.lo ≡ max_int) ⊎ Any (λ r. count_in x.target r ≡ x.lo) rs)
    × (x.ratio ≡ f.div (f.of_nat x.lo) (f.of_nat x.hi))

both_bounds :
    (t : Text) (lo hi : ℕ) (rs : List SeriesRow)
    → All (λ r. lo ≤ count_in t r) rs
    → All (λ r. count_in t r ≤ hi) rs
    → All (λ r. (lo ≤ count_in t r) × (count_in t r ≤ hi)) rs
both_bounds t lo hi [] a b = tt
both_bounds t lo hi (r ∷ rs) (h, a) (k, b) = ((h, k), both_bounds t lo hi rs a b)

swing-IsSwing :
    (f : Float) (all : List SeriesRow) (ws t : Text)
    → 2 ≤ length (rows_of ws all)
    → in_every t (rows_of ws all) ≡ true
    → 0 < highest t (rows_of ws all) 0
    → IsSwing f all
        (swing f ws t (lowest t (rows_of ws all) max_int) (highest t (rows_of ws all) 0))
swing-IsSwing f all ws t two every pos = (
  two,
  every,
  pos,
  both_bounds t (lowest t (rows_of ws all) max_int) (highest t (rows_of ws all) 0) (rows_of ws all)
      (lowest_bounds t (rows_of ws all) max_int).1 (highest_bounds t (rows_of ws all) 0).1,
  elim (highest_attained t (rows_of ws all) 0) [
    | inl e ↦ absurd (omega (arith, e, pos))
    | inr a ↦ a
  ],
  lowest_attained t (rows_of ws all) max_int,
  refl,
)

swings_in-IsSwing :
    (f : Float) (all : List SeriesRow) (ws : Text) (ts : List Text)
    → 2 ≤ length (rows_of ws all)
    → All (λ t. in_every t (rows_of ws all) ≡ true) ts
    → All (IsSwing f all) (swings_in f ws (rows_of ws all) ts)
swings_in-IsSwing f all ws [] two a = tt
swings_in-IsSwing f all ws (t ∷ ts) two (every, a) =
    let rest = swings_in-IsSwing f all ws ts two a in
    elim (Bool-cases (ltb 0 (highest t (rows_of ws all) 0))) [
      | inl e ↦ rw e (
        swing-IsSwing f all ws t two every ((ltb_iff 0 (highest t (rows_of ws all) 0)).0 e),
        rest,
      )
      | inr e ↦ rw e rest
    ]

swings_over-IsSwing :
    (f : Float) (all : List SeriesRow) (wss : List Text)
    → All (λ ws. recorded_twice all ws ≡ true) wss
    → All (IsSwing f all) (swings_over f all wss)
swings_over-IsSwing f all [] a = tt
swings_over-IsSwing f all (ws ∷ wss) (h, a) =
    All-append (IsSwing f all) (swings_in f ws (rows_of ws all) (common (rows_of ws all)))
      (swings_over f all wss)
      (swings_in-IsSwing f all ws (common (rows_of ws all))
        ((leb_iff 2 (length (rows_of ws all))).0 h) (common-in_every (rows_of ws all)))
      (swings_over-IsSwing f all wss a)

-- Each swing that `Variance` ranks is of a workspace with two rounds at least and of a target that
-- every one of these rounds has: its ends bound the counts of all of them, the upper end is one of
-- these counts and above nothing, the lower end is one of them unless it is the largest `int`, and its
-- ratio is the one by the other.
pub variance-IsSwing :
    (f : Float) (all : List SeriesRow) (only : Text) (xs : List (Swing f))
    → variance f all only ≡ ranked xs
    → All (IsSwing f all) xs
unfolding variance
variance-IsSwing f all only xs h =
    spread (sort_by less (keep (recorded_twice all) (row_names only all)))
      (swings_over f all (sort_by less (keep (recorded_twice all) (row_names only all))))
      (swings_over-IsSwing f all (sort_by less (keep (recorded_twice all) (row_names only all))) (
        All-sort_by (λ ws. recorded_twice all ws ≡ true) less
          (keep (recorded_twice all) (row_names only all))
          (All-keep (recorded_twice all) (λ ws. recorded_twice all ws ≡ true) (row_names only all)
            (λ ws e. e))))
      h
  where
    swings : Spread f → List (Swing f)
    swings (ranked ys) = ys
    swings other = []

    spread :
        (wss : List Text) (ys : List (Swing f))
        → All (IsSwing f all) ys
        → spread_of f wss ys ≡ ranked xs
        → All (IsSwing f all) xs
    spread [] ys a e = absurd (cc)
    spread (ws ∷ wss) [] a e = absurd (cc)
    spread (ws ∷ wss) (y ∷ ys) a e =
        subst (λ (zs : List (Swing f)). All (IsSwing f all) zs) (ap swings e)
          (All-sort_by (IsSwing f all) (narrower f) (y ∷ ys) a)
