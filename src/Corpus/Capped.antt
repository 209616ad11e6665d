-- ===== src/Corpus/Capped.antt =====
-- Which targets `Autocap` caps, and to how many files.
use pg_fuzz.Base.{
  ℕ, ◌<◌, max, ◌≡◌, ◌↔◌, ◌⊎◌, refl, ◌∙◌, inl, inr, Bool, true, false, not, ◌&&◌, ◌||◌, List, [],
  ◌∷◌, Option, none, some, Text, Map, lookup, keys, holds-keys, less, sort_by, holds, holds-sort_by,
  eq, eq_iff, ltb, ◌==◌, Bool-cases, Option-cases, arith, ◌≢◌, subst, ap, sym,
}
use pg_fuzz.Corpus.Sweep.{TargetLog, locked}
use pg_fuzz.Float.{Float}
use pg_fuzz.Corpus.Caps.{
  AutocapOptions, CapDecision, rate_of, cap_of, is_at_risk, is_judgeable, decide, decide_on,
  decide_all, autocap,
}

module _ (f : Float) (count_files : Text → ℕ) where
  open f use {F, of_nat, mul, div, to_nat, lt}

  -- Whether a target is to be capped, and the number of files that it keeps.
  abbrev pub caps : Text → ℕ → List (CapDecision f) → Bool
  caps t n [] = false
  caps t n (d ∷ ds) = (eq d.target t && (d.act && (d.cap == n))) || caps t n ds

  -- The same, said of the target's log.
  abbrev is_capped : AutocapOptions f → Text → ℕ → Option TargetLog → Bool
  is_capped o t n none = false
  is_capped o t n (some d) =
      not (holds t o.skip)
      && (is_judgeable f d
          && ((locked d || (is_at_risk f o d || o.all))
              && (ltb (cap_of f o d) (count_files t) && (cap_of f o d == n))))

  caps-decide_on :
      (o : AutocapOptions f) (t : Text) (n : ℕ) (l : Option TargetLog) (rest : List (CapDecision f))
      → caps t n (decide_on f count_files o t l rest) ≡ is_capped o t n l || caps t n rest
  unfolding decide_on decide
  caps-decide_on o t n none rest = refl
  caps-decide_on o t n (some d) rest = ground (arith, (eq_iff t t).1 refl)

  caps-other :
      (o : AutocapOptions f) (s t : Text) (n : ℕ) (l : Option TargetLog)
      (rest : List (CapDecision f))
      → eq s t ≡ false
      → caps t n (decide_on f count_files o s l rest) ≡ caps t n rest
  unfolding decide_on decide
  caps-other o s t n none rest e = refl
  caps-other o s t n (some d) rest e = ground arith

  caps-decide_all :
      (per : Map TargetLog) (o : AutocapOptions f) (t : Text) (n : ℕ) (ts : List Text)
      → caps t n (decide_all f count_files per o ts) ≡ holds t ts && is_capped o t n (lookup t per)
  unfolding decide_all holds
  caps-decide_all per o t n [] = refl
  caps-decide_all per o t n (s ∷ ts) = elim (Bool-cases (eq s t)) [
    | inl e ↦ rw ((eq_iff s t).0 e) (
        ground (
          arith,
          caps-decide_on o t n (lookup t per) (decide_all f count_files per o ts),
          caps-decide_all per o t n ts,
          (eq_iff t t).1 refl,
        ))
    | inr e ↦ ground (
      arith,
      caps-other o s t n (lookup s per) (decide_all f count_files per o ts) e,
      caps-decide_all per o t n ts,
    )
  ]

  caps-autocap :
      (per : Map TargetLog) (o : AutocapOptions f) (t : Text) (n : ℕ)
      → caps t n (autocap f count_files per o) ≡ is_capped o t n (lookup t per)
  unfolding autocap
  caps-autocap per o t n =
      let all = caps-decide_all per o t n (sort_by less (keys per)) in
      let sorted = holds-sort_by t (keys per) in
      let there = holds-keys t per in
      elim (Option-cases (lookup t per)) [
        | inl e ↦ rw e (all ∙ rw (sorted, there, e) refl)
        | inr (d, e) ↦ rw e (all ∙ rw (sorted, there, e) refl)
      ]

  -- What is asked of a target's log, at a rate in files a second, where the target is capped to `n`
  -- files.
  pub record CapsAt (o : AutocapOptions f) (t : Text) (n : ℕ) (d : TargetLog) (rate : ℕ)
      : Type 0 where
    pub not_skipped : holds t o.skip ≡ false
    pub some_files : d.files ≢ 0
    pub some_rate : rate ≢ 0
    pub some_budget : d.budget ≢ 0
    pub reason :
        ((k : ℕ) × (d.inited ≡ some k) × (d.done ≡ some k))
        ⊎ ((lt (mul o.warn_fraction (of_nat d.budget)) (div (of_nat d.files) (of_nat rate)) ≡ true)
            ⊎ (o.all ≡ true))
    pub more : n < count_files t
    pub cap : n ≡ max (to_nat (mul (mul o.fraction (of_nat d.budget)) (of_nat rate))) o.floor

  -- The rate is that of the replay, or the average one where the log has none of the replay.
  abbrev pub Measured : TargetLog → ℕ → Type 0
  Measured d rate =
      ((d.replay_rate ≢ 0) × (rate ≡ d.replay_rate)) ⊎ ((d.replay_rate ≡ 0) × (rate ≡ d.rate))

  abbrev pub CapsTo : AutocapOptions f → Text → ℕ → TargetLog → Type 0
  CapsTo o t n d = (rate : ℕ) × Measured d rate × CapsAt o t n d rate

  rate_of-Measured : (d : TargetLog) → Measured d (rate_of f d)
  rate_of-Measured d = ground arith

  Measured-rate_of : (d : TargetLog) (rate : ℕ) → Measured d rate → rate ≡ rate_of f d
  Measured-rate_of d rate h = ground (arith, h)

  locked_iff :
      (d : TargetLog) → (locked d ≡ true) ↔ ((k : ℕ) × (d.inited ≡ some k) × (d.done ≡ some k))
  unfolding locked
  locked_iff d = elim (Option-cases d.inited) [
    | inl i ↦ (λ h. absurd (cc (rw i at h)), λ (k, p, q). absurd (cc (rw i at p)))
    | inr (a, i) ↦ elim (Option-cases d.done) [
      | inl j ↦ (λ h. absurd (cc (rw (i, j) at h)), λ (k, p, q). absurd (cc (rw j at q)))
      | inr (b, j) ↦ (
        λ h. let same : a ≡ b = ground (arith, rw (i, j) at h) in (a, i, j ∙ ap some (sym same)),
        λ (k, p, q). rw (p, q) (ground arith),
      )
    ]
  ]

  CapsTo-is_capped :
      (o : AutocapOptions f) (t : Text) (n : ℕ) (d : TargetLog)
      → is_capped o t n (some d) ≡ true
      → CapsTo o t n d
  CapsTo-is_capped o t n d h = (
    rate_of f d,
    rate_of-Measured d,
    record {
      not_skipped = ground (arith, h);
      some_files = ground (arith, h);
      some_rate = ground (arith, h);
      some_budget = ground (arith, h);
      reason = elim (Bool-cases (locked d)) [
        | inl l ↦ inl ((locked_iff d).0 l)
        | inr l ↦ inr (ground (arith, h, l))
      ];
      more = ground (arith, h);
      cap = ground (arith, h);
    },
  )

  is_capped-CapsTo :
      (o : AutocapOptions f) (t : Text) (n : ℕ) (d : TargetLog)
      → CapsTo o t n d
      → is_capped o t n (some d) ≡ true
  is_capped-CapsTo o t n d (rate, measured, at) =
      let w : CapsAt o t n d (rate_of f d) =
        subst (λ r. CapsAt o t n d r) (Measured-rate_of d rate measured) at in
      let why : (locked d ≡ true) ⊎ ((is_at_risk f o d ≡ true) ⊎ (o.all ≡ true)) = elim w.reason [
        | inl l ↦ inl ((locked_iff d).1 l)
        | inr r ↦ inr r
      ] in
      ground (arith, w.not_skipped, w.some_files, w.some_rate, w.some_budget, why, w.more, w.cap)

  -- A target is capped to `n` files exactly when its log has a corpus, a rate and a budget; it is
  -- not skipped; its run ended at the count its replay ended at, or the corpus takes more than the
  -- share of the budget that is warned of, or all are asked for; it has more than `n` files; and `n`
  -- is what is replayed in the share of the budget that replay may take, or the floor if that is
  -- more. The rate is that of the replay, and the average one only where the replay's is not known.
  pub autocap_iff :
      (per : Map TargetLog) (o : AutocapOptions f) (t : Text) (n : ℕ)
      → (caps t n (autocap f count_files per o) ≡ true)
        ↔ ((d : TargetLog) × (lookup t per ≡ some d) × CapsTo o t n d)
  autocap_iff per o t n = (
    λ h. elim (Option-cases (lookup t per)) [
      | inl e ↦ absurd (cc (rw (caps-autocap per o t n, e) at h))
      | inr (d, e) ↦ (d, e, CapsTo-is_capped o t n d (rw (caps-autocap per o t n, e) at h))
    ],
    λ h. rw (caps-autocap per o t n, h.1) (is_capped-CapsTo o t n h.0 h.2),
  )
