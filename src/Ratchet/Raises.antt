-- ===== src/Ratchet/Raises.antt =====
-- What `Update` does to a workspace's record: nothing is lowered, the round's own numbers are
-- reached, a floor of another regime is archived, and the regime is stamped.
use pg_fuzz.Base.{
  ℕ, ◌≡◌, ◌∙◌, ap, ◌⊎◌, inl, inr, true, false, List, [], Option, none, some, Text, lookup,
  lookup_or, lookup-put, Unique, eq, eq_iff, eq_refl, Option-cases, Bool-cases, is_empty, arith,
  or_else, All, Any,
}
use pg_fuzz.Float.{Float}
use pg_fuzz.Ratchet.Defs.{Baseline, Observation}
use pg_fuzz.Ratchet.Floors.{
  AtLeast, settle_all-keeps, settle_all-reaches, settle_all-recalls, settle_all-stamps,
  settle_all-fresh, settle_all-Unique,
}
use pg_fuzz.Ratchet.Shift.{shift-absent, shift-present, shift-no_regime, shift-Unique}
use pg_fuzz.Ratchet.Update.{Shift, opened, stale, shift, regime_key, shift_of, ledger_of, update}

stale-swap : (a c : Text) → is_empty a ≡ false → stale a c ≡ true → stale c a ≡ true
stale-swap a c h s = ground (arith, eq_iff a c, eq_iff c a)

stale-is_empty : (a c : Text) → stale a c ≡ true → is_empty c ≡ false
stale-is_empty a c h = ground arith

stale-eq : (a c : Text) → stale a c ≡ true → eq a c ≡ false
stale-eq a c h = ground (arith, eq_iff a c, eq_iff c a)

-- A floor stamped by regime `a` leaves for regime `c`, and what is archived under `c` stays.
recall_of :
    (s : Shift) (a c k : Text) (v w : ℕ)
    → Unique s.floors
    → lookup k s.floors ≡ some w
    → lookup_or [] k s.regimes ≡ a
    → is_empty a ≡ false
    → stale a c ≡ true
    → lookup c (lookup_or [] k s.archive) ≡ some v
    → (lookup k (shift c s).floors ≡ none)
      × (lookup c (lookup_or [] k (shift c s).archive) ≡ some v)
recall_of s a c k v w u e stamp r other kept =
    let moved = shift-present c k w s u (stale-is_empty a c other) e in
    let away : stale c (lookup_or [] k s.regimes) ≡ true = rw stamp (stale-swap a c r other) in
    (
      ap (λ x. x.floor) moved ∙ rw away,
      ap (λ x. lookup c x.archived) moved
          ∙ rw
              (
                away,
                lookup-put (lookup_or [] k s.regimes) c w (lookup_or [] k s.archive),
                stamp,
                stale-eq a c other,
              )
              kept,
    )

module _ (f : Float) where
  -- The floor, the regime and the archive that the baseline has for one target.
  abbrev pub start : Baseline f → Text → Shift
  start b ws = record {
    floors = lookup_or [] ws b.floors;
    regimes = lookup_or [] ws b.regimes;
    archive = lookup_or [] ws b.archive;
    switched = [];
  }

  abbrev pub floor_of : Baseline f → Text → Text → Option ℕ
  floor_of b ws k = lookup k (lookup_or [] ws b.floors)

  abbrev pub regime_of : Baseline f → Text → Text → Text
  regime_of b ws k = lookup_or [] k (lookup_or [] ws b.regimes)

  abbrev pub archived_under : Text → Baseline f → Text → Text → Option ℕ
  archived_under regime b ws k = lookup regime (lookup_or [] k (lookup_or [] ws b.archive))

  -- The baseline after `Update`.
  abbrev pub updated : Baseline f → Text → List (Observation f) → Baseline f
  updated b ws obs = (update f b ws obs).0

  pub floors-updated :
      (b : Baseline f) (ws : Text) (obs : List (Observation f))
      → lookup_or [] ws (updated b ws obs).floors ≡ (ledger_of f b ws obs).floors
  unfolding update
  floors-updated b ws obs = rw (lookup-put ws ws (ledger_of f b ws obs).floors b.floors, eq_refl ws)

  regimes-updated :
      (b : Baseline f) (ws : Text) (obs : List (Observation f))
      → lookup_or [] ws (updated b ws obs).regimes ≡ (ledger_of f b ws obs).regimes
  unfolding update
  regimes-updated b ws obs =
      rw (lookup-put ws ws (ledger_of f b ws obs).regimes b.regimes, eq_refl ws)

  archive-updated :
      (b : Baseline f) (ws : Text) (obs : List (Observation f))
      → lookup_or [] ws (updated b ws obs).archive ≡ (shift_of f b ws obs).archive
  unfolding update
  archive-updated b ws obs =
      rw (lookup-put ws ws (shift_of f b ws obs).archive b.archive, eq_refl ws)

  -- The floor of a target stays in place unless it was earned under another regime.
  kept_by_shift :
      (b : Baseline f) (ws k : Text) (obs : List (Observation f)) (v : ℕ)
      → Unique (lookup_or [] ws b.floors)
      → floor_of b ws k ≡ some v
      → (is_empty (regime_key f obs) ≡ true) ⊎ (stale (regime_key f obs) (regime_of b ws k) ≡ false)
      → lookup k (shift_of f b ws obs).floors ≡ some v
  kept_by_shift b ws k obs v u h same = elim (Bool-cases (is_empty (regime_key f obs))) [
    | inl e ↦ ap (λ s. lookup k s.floors) (shift-no_regime _ (start b ws) e) ∙ h
    | inr e ↦
        let moved = ap (λ e. e.floor) (shift-present (regime_key f obs) k v (start b ws) u e h) in
        let same' : stale (regime_key f obs) (regime_of b ws k) ≡ false = ground arith in
        moved ∙ rw same' h
  ]

  -- In a workspace that has no target twice among its floors: a floor is at least as high after the
  -- round if its target has the regime of the round or none, or if the round has none. And every
  -- observation's target then has a floor of at least what it executed.
  pub update-raises :
      (b : Baseline f) (ws k : Text) (obs : List (Observation f)) (v : ℕ)
      → Unique (lookup_or [] ws b.floors)
      → floor_of b ws k ≡ some v
      → (is_empty (regime_key f obs) ≡ true) ⊎ (stale (regime_key f obs) (regime_of b ws k) ≡ false)
      → AtLeast v (floor_of (updated b ws obs) ws k)
        × All (λ o. AtLeast o.execs (floor_of (updated b ws obs) ws o.target)) obs
  update-raises b ws k obs v u h same = rw (floors-updated b ws obs) (
    settle_all-keeps _ _ f obs k v _ (rw (kept_by_shift b ws k obs v u h same) (omega arith)),
    settle_all-reaches _ _ f obs _,
  )

  -- In a workspace that has no target twice among its floors: a floor that was earned under another
  -- regime than that of the round stands, after the round, in the archive under its own.
  pub update-archives :
      (b : Baseline f) (ws k : Text) (obs : List (Observation f)) (v : ℕ)
      → Unique (lookup_or [] ws b.floors)
      → floor_of b ws k ≡ some v
      → is_empty (regime_key f obs) ≡ false
      → stale (regime_key f obs) (regime_of b ws k) ≡ true
      → archived_under (regime_of b ws k) (updated b ws obs) ws k ≡ some v
  update-archives b ws k obs v u h r other =
      let prev = regime_of b ws k in
      let moved = shift-present (regime_key f obs) k v (start b ws) u r h in
      rw (archive-updated b ws obs) (
        ap (λ e. lookup prev e.archived) moved
        ∙ rw (other, lookup-put prev prev v (lookup_or [] k (start b ws).archive), eq_refl prev))

  -- After a round under a regime, each target that it observed is stamped with that regime.
  pub update-stamps :
      (b : Baseline f) (ws k : Text) (obs : List (Observation f))
      → is_empty (regime_key f obs) ≡ false
      → Any (λ o. o.target ≡ k) obs
      → regime_of (updated b ws obs) ws k ≡ regime_key f obs
  update-stamps b ws k obs r seen =
      rw (regimes-updated b ws obs)
        (ap (λ o. or_else o []) (settle_all-stamps _ _ f obs k _ r (inr seen)))

  Unique-updated :
      (b : Baseline f) (ws : Text) (obs : List (Observation f))
      → Unique (lookup_or [] ws b.floors)
      → Unique (lookup_or [] ws (updated b ws obs).floors)
  Unique-updated b ws obs u =
      rw (floors-updated b ws obs)
        (settle_all-Unique _ _ f obs _ (shift-Unique (regime_key f obs) (start b ws) u))

  -- After a round under another regime a target has no floor, or one with that round's stamp.
  stamped_by_update :
      (b : Baseline f) (ws k : Text) (obs : List (Observation f)) (v w : ℕ)
      → Unique (lookup_or [] ws b.floors)
      → floor_of b ws k ≡ some v
      → is_empty (regime_key f obs) ≡ false
      → stale (regime_key f obs) (regime_of b ws k) ≡ true
      → floor_of (updated b ws obs) ws k ≡ some w
      → regime_of (updated b ws obs) ws k ≡ regime_key f obs
  stamped_by_update b ws k obs v w u h r other e =
      let moved = shift-present (regime_key f obs) k v (start b ws) u r h in
      let gone : lookup k (shift_of f b ws obs).floors ≡ none =
        ap (λ x. x.floor) moved ∙ rw other in
      elim (settle_all-fresh (regime_key f obs) (shift_of f b ws obs).archive f obs k
        (opened (shift_of f b ws obs)) r gone) [
          | inl absent ↦ absurd (cc (absent, e, floors-updated b ws obs))
          | inr stamp ↦ rw (regimes-updated b ws obs) (ap (λ o. or_else o []) stamp)
        ]

  -- The archive still holds the record after the bookkeeping of a second round that is under the
  -- regime which earned it, and the target then has no floor.
  recalled_by_shift :
      (b : Baseline f) (ws k : Text) (obs₁ obs₂ : List (Observation f)) (v : ℕ)
      → Unique (lookup_or [] ws b.floors)
      → floor_of b ws k ≡ some v
      → is_empty (regime_key f obs₁) ≡ false
      → stale (regime_key f obs₁) (regime_of b ws k) ≡ true
      → regime_key f obs₂ ≡ regime_of b ws k
      → (lookup k (shift_of f (updated b ws obs₁) ws obs₂).floors ≡ none)
        × (lookup
              (regime_key f obs₂)
              (lookup_or [] k (shift_of f (updated b ws obs₁) ws obs₂).archive)
            ≡ some v)
  recalled_by_shift b ws k obs₁ obs₂ v u h r other back =
      let b' = updated b ws obs₁ in
      let kept = update-archives b ws k obs₁ v u h r other in
      elim (Option-cases (floor_of (updated b ws obs₁) ws k)) [
        | inl e ↦
            let same = shift-absent (regime_key f obs₂) k (start b' ws) e in
            (
              ap (λ x. x.floor) same ∙ e,
              ap (λ x. lookup (regime_key f obs₂) x.archived) same ∙ rw back kept,
            )
        | inr (w, e) ↦
            let stamp = stamped_by_update b ws k obs₁ v w u h r other e in
            recall_of (start b' ws) (regime_key f obs₁) (regime_key f obs₂) k v w
              (Unique-updated b ws obs₁ u) e stamp r (rw back other) (rw back kept)
      ]

  -- In a workspace that has no target twice among its floors: after a round under another regime and
  -- then one under the floor's own regime that observes its target, the floor is at least as high as
  -- it was.
  pub update-update :
      (b : Baseline f) (ws k : Text) (obs₁ obs₂ : List (Observation f)) (v : ℕ)
      → Unique (lookup_or [] ws b.floors)
      → floor_of b ws k ≡ some v
      → is_empty (regime_key f obs₁) ≡ false
      → stale (regime_key f obs₁) (regime_of b ws k) ≡ true
      → regime_key f obs₂ ≡ regime_of b ws k
      → Any (λ o. o.target ≡ k) obs₂
      → AtLeast v (floor_of (updated (updated b ws obs₁) ws obs₂) ws k)
  update-update b ws k obs₁ obs₂ v u h r other back seen =
      let (gone, there) = recalled_by_shift b ws k obs₁ obs₂ v u h r other back in
      rw (floors-updated (updated b ws obs₁) ws obs₂)
        (settle_all-recalls _ _ f obs₂ k v _ gone there seen)
