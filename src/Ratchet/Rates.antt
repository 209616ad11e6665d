-- ===== src/Ratchet/Rates.antt =====
-- The rate floors under `Update`, and the next round's judgement after it.
use pg_fuzz.Base.{
  ℕ, ◌≡◌, ◌≢◌, refl, ◌⊎◌, inl, inr, true, false, List, [], ◌∷◌, Option, none, some, Text, Map,
  lookup, lookup_or, lookup-put, eq_iff, eq_refl, Option-cases, Bool-cases, is_empty, arith, All,
  Any,
}
use pg_fuzz.Float.{Float}
use pg_fuzz.Ratchet.Defs.{Baseline, Observation, incomparable, no_floor}
use pg_fuzz.Ratchet.Check.{Record, check_one, usable_rate, other_regime, record_of, verdict}
use pg_fuzz.Ratchet.Floors.{AtLeast, settle_all-reaches}
use pg_fuzz.Ratchet.Raises.{updated, update-stamps, floors-updated}
use pg_fuzz.Ratchet.Update.{
  Rates, raise_rate, rate_one, rate_all, rates_of, regime_key, update, opened, shift_of,
}

module _ (f : Float) where
  open f use {F, of_nat, lt, le, lt_trans}

  -- There is a rate floor, and it is `v` or above it.
  abbrev pub RateAtLeast : F → Option F → Type 0
  RateAtLeast v none = ⊥
  RateAtLeast v (some w) = (w ≡ v) ⊎ (lt v w ≡ true)

  raise_rate-keeps :
      (t k : Text) (rate v : F) (r : Rates f)
      → RateAtLeast v (lookup k r.floors)
      → RateAtLeast v (lookup k (raise_rate f t rate (lookup t r.floors) r).floors)
  unfolding raise_rate
  raise_rate-keeps t k rate v r h = elim (Option-cases (lookup t r.floors)) [
    | inl e ↦ rw (e, raise_rate) (ground (arith, lookup-put t k rate r.floors, eq_iff t k))
    | inr (old, e) ↦
        rw (e, raise_rate)
          (ground (arith, lookup-put t k rate r.floors, eq_iff t k, lt_trans v old rate))
  ]

  rate_one-keeps :
      (t k : Text) (rate v : F) (r : Rates f)
      → RateAtLeast v (lookup k r.floors)
      → RateAtLeast v (lookup k (rate_one f t rate r).floors)
  unfolding rate_one
  rate_one-keeps t k rate v r h = elim (Bool-cases (le rate (of_nat 0))) [
    | inl e ↦ rw (e, rate_one) h
    | inr e ↦ rw (e, rate_one) (raise_rate-keeps t k rate v r h)
  ]

  rate_all-keeps :
      (obs : List (Observation f)) (k : Text) (v : F) (r : Rates f)
      → RateAtLeast v (lookup k r.floors)
      → RateAtLeast v (lookup k (rate_all f obs r).floors)
  unfolding rate_all
  rate_all-keeps [] k v r h = h
  rate_all-keeps (o ∷ obs) k v r h =
      rate_all-keeps obs k v _ (rate_one-keeps o.target k o.rate v r h)

  -- A rate floor is never lowered, whatever the regime of the round.
  pub update-keeps_rate :
      (b : Baseline f) (ws k : Text) (obs : List (Observation f)) (v : F)
      → lookup k (lookup_or [] ws b.rate_floors) ≡ some v
      → RateAtLeast v (lookup k (lookup_or [] ws (updated f b ws obs).rate_floors))
  unfolding update
  update-keeps_rate b ws k obs v h =
      rw (lookup-put ws ws (rates_of f b ws obs).floors b.rate_floors, eq_refl ws)
        (rate_all-keeps obs k v _ (rw h (inl refl)))

  floor_seen :
      (obs : List (Observation f)) (k : Text) (m : Map ℕ)
      → Any (λ p. p.target ≡ k) obs
      → All (λ p. AtLeast p.execs (lookup p.target m)) obs
      → (v : ℕ) × (lookup k m ≡ some v)
  floor_seen [] k m seen h = absurd seen
  floor_seen (p ∷ obs) k m (inl e) h = elim (Option-cases (lookup k m)) [
    | inl gone ↦ absurd (rw (e, gone) at h.0)
    | inr there ↦ there
  ]
  floor_seen (p ∷ obs) k m (inr later) h = floor_seen obs k m later h.1

  comparable :
      (r : Record f) (o : Observation f) (v : ℕ)
      → lookup o.target r.floors ≡ some v
      → other_regime f r o ≡ false
      → ((check_one f r o).outcome ≢ incomparable) × ((check_one f r o).outcome ≢ no_floor)
  unfolding check_one verdict
  comparable r o v l s = elim (Option-cases (usable_rate f r o)) [
    | inl u ↦ (λ e. ground arith, λ e. ground arith)
    | inr (rf, u) ↦ (λ e. ground arith, λ e. ground arith)
  ]

  -- After a round under a regime, an observation under that regime of a target that the round
  -- observed is comparable: it is set aside neither for its regime nor for want of a floor.
  pub update-check_one :
      (b : Baseline f) (ws : Text) (obs : List (Observation f)) (acks : Map Text)
      (o : Observation f)
      → is_empty (regime_key f obs) ≡ false
      → Any (λ p. p.target ≡ o.target) obs
      → o.regime ≡ regime_key f obs
      → ((check_one f (record_of f (updated f b ws obs) ws acks) o).outcome ≢ incomparable)
        × ((check_one f (record_of f (updated f b ws obs) ws acks) o).outcome ≢ no_floor)
  update-check_one b ws obs acks o r seen same =
      let (v, there) = floor_seen obs o.target (lookup_or [] ws (updated f b ws obs).floors) seen (
        rw (floors-updated f b ws obs)
          (settle_all-reaches _ _ f obs (opened (shift_of f b ws obs)))) in
      let stamp = update-stamps f b ws o.target obs r seen in
      comparable (record_of f (updated f b ws obs) ws acks) o v there
        (rw (stamp, same, eq_refl (regime_key f obs)) (ground arith))
