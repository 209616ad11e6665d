-- ===== src/Gate/Sites.antt =====
-- What the loop of `UBSan` keeps: the keys it has reported under, and the verdict beside them.
use pg_fuzz.Base.{
  ◌≡◌, ◌↔◌, ◌⊎◌, refl, inl, inr, Bool, true, false, not, ◌||◌, List, [], ◌∷◌, Text, codes, eq_refl,
  All, map, ap, ◌++◌, ◌∙◌, subst, sym, if◌then◌else◌, is_empty, Any, holds, Bool-cases, arith,
}
use pg_fuzz.Gate.Ubsan.{Accepted, Seen, in_scope, judge_site, judge_sites, report_site, place_of}
use mathlib.Core.List.{reverse, reverse-cons}
use pg_fuzz.Gate.Verdict.{Detail, unattributed, not_accepted, fail_with, finding}
use pg_fuzz.Logs.Stats.{UbSite}

-- What a detail of `UBSan` names: the place of a site with no function, or a function.
abbrev pub named_by : Detail → Text
named_by (unattributed place text) = place
named_by (not_accepted fn file line class text) = fn
named_by _ = []

map-named_by-append :
    (ds : List Detail) (d : Detail)
    → map named_by (ds ++ d ∷ []) ≡ map named_by ds ++ named_by d ∷ []
map-named_by-append [] d = refl
map-named_by-append (e ∷ ds) d = ap (λ ks. named_by e ∷ ks) (map-named_by-append ds d)

module _ (glob : Text → Text → Bool) (accepted : List Accepted) (ws : Text) where
  -- A site with no function, or one that no row accepts for this workspace.
  abbrev pub is_rejected : UbSite → Bool
  is_rejected u = is_empty u.function || not (in_scope glob accepted u.function ws)

  -- What a rejected site is reported under.
  abbrev pub key_of : UbSite → Text
  key_of u = if is_empty u.function then place_of u else u.function

  -- No two keys are the same.
  abbrev pub Distinct : List Text → Type 0
  Distinct [] = Unit
  Distinct (k ∷ ks) = (holds k ks ≡ false) × Distinct ks

  -- The keys are what the details name, the last one first, no key twice; and a report fails the
  -- verdict.
  pub record Consistent (s : Seen) : Type 0 where
    pub failed : (s.keys ≡ []) ⊎ (s.verdict.failed ≡ true)
    pub named : map named_by s.verdict.detail ≡ reverse s.keys
    pub distinct : Distinct s.keys

  report_site-Consistent :
      (key : Text) (d : Detail) (s : Seen)
      → named_by d ≡ key
      → Consistent s
      → Consistent (report_site glob key s (fail_with d s.verdict))
  unfolding report_site
  report_site-Consistent key d s k c = elim (Bool-cases (holds key s.keys)) [
    | inl e ↦ rw e c
    | inr e ↦ rw e (record {
      failed = inr refl;
      named =
          map-named_by-append s.verdict.detail d ∙ rw (c.named, k) (sym (reverse-cons key s.keys));
      distinct = (e, c.distinct);
    })
  ]

  judge_site-Consistent :
      (u : UbSite) (s : Seen) → Consistent s → Consistent (judge_site glob accepted ws u s)
  unfolding judge_site
  judge_site-Consistent u s c = elim (Bool-cases (is_empty u.function)) [
    | inl e ↦ rw e (report_site-Consistent (place_of u) (unattributed (place_of u) u.text) s refl c)
    | inr e ↦ elim (Bool-cases (in_scope glob accepted u.function ws)) [
      | inl i ↦ rw (e, i) c
      | inr i ↦
          rw (e, i)
            (report_site-Consistent u.function
              (not_accepted u.function u.file u.line u.class u.text) s refl c)
    ]
  ]

  report_site-failed :
      (key : Text) (d : Detail) (s : Seen)
      → Consistent s
      → ((report_site glob key s (fail_with d s.verdict)).verdict.failed ≡ true)
        × (holds key (report_site glob key s (fail_with d s.verdict)).keys ≡ true)
  unfolding report_site holds
  report_site-failed key d s c = elim (Bool-cases (holds key s.keys)) [
    | inl e ↦ rw e (nonempty s.keys e c.failed, e)
    | inr e ↦ rw e (refl, rw (eq_refl key))
  ]
    where
      nonempty :
          (ks : List Text)
          → holds key ks ≡ true
          → (ks ≡ []) ⊎ (s.verdict.failed ≡ true)
          → s.verdict.failed ≡ true
      nonempty [] h f = ground arith
      nonempty (k ∷ ks) h f = ground arith

  judge_site-rejected :
      (u : UbSite) (s : Seen)
      → Consistent s
      → is_rejected u ≡ true
      → ((judge_site glob accepted ws u s).verdict.failed ≡ true)
        × (holds (key_of u) (judge_site glob accepted ws u s).keys ≡ true)
  unfolding judge_site
  judge_site-rejected u s c r = elim (Bool-cases (is_empty u.function)) [
    | inl e ↦ rw e (report_site-failed _ _ s c)
    | inr e ↦
        let out : in_scope glob accepted u.function ws ≡ false = ground arith in
        rw (e, out) (report_site-failed _ _ s c)
  ]

  judge_site-accepted :
      (u : UbSite) (s : Seen) → is_rejected u ≡ false → judge_site glob accepted ws u s ≡ s
  unfolding judge_site
  judge_site-accepted u s r = ground arith

  holds-judge_site :
      (u : UbSite) (k : Text) (s : Seen)
      → holds k s.keys ≡ true
      → holds k (judge_site glob accepted ws u s).keys ≡ true
  unfolding judge_site report_site holds
  holds-judge_site u k s h = ground arith

  holds-judge_sites :
      (us : List UbSite) (k : Text) (s : Seen)
      → holds k s.keys ≡ true
      → holds k (judge_sites glob accepted ws us s).keys ≡ true
  unfolding judge_sites
  holds-judge_sites [] k s h = h
  holds-judge_sites (u ∷ us) k s h = holds-judge_sites us k _ (holds-judge_site u k s h)

  pub judge_sites-Consistent :
      (us : List UbSite) (s : Seen) → Consistent s → Consistent (judge_sites glob accepted ws us s)
  unfolding judge_sites
  judge_sites-Consistent [] s c = c
  judge_sites-Consistent (u ∷ us) s c = judge_sites-Consistent us _ (judge_site-Consistent u s c)

  pub judge_sites-failed :
      (us : List UbSite) (s : Seen)
      → Consistent s
      → ((judge_sites glob accepted ws us s).verdict.failed ≡ true)
        ↔ ((s.verdict.failed ≡ true) ⊎ Any (λ u. is_rejected u ≡ true) us)
  unfolding judge_sites
  judge_sites-failed [] s c = (λ h. inl h, elim [ inl h ↦ h | inr h ↦ absurd h ])
  judge_sites-failed (u ∷ us) s c =
      let later =
        judge_sites-failed us (judge_site glob accepted ws u s) (judge_site-Consistent u s c) in
      elim (Bool-cases (is_rejected u)) [
        | inl r ↦ (λ _. inr (inl r), λ _. later.1 (inl (judge_site-rejected u s c r).0))
        | inr a ↦
            let same = judge_site-accepted u s a in
            (
              λ h. elim (later.0 h) [
                | inl early ↦ inl (rw same at early)
                | inr rest ↦ inr (inr rest)
              ],
              elim [
                | inl early ↦ later.1 (inl (rw same early))
                | inr (inl own) ↦ absurd (ground arith)
                | inr (inr rest) ↦ later.1 (inr rest)
              ],
            )
      ]

  pub reported_keys :
      (us : List UbSite) (s : Seen)
      → Consistent s
      → All
          (λ u.
            is_rejected u ≡ true → holds (key_of u) (judge_sites glob accepted ws us s).keys ≡ true)
          us
  unfolding judge_sites
  reported_keys [] s c = tt
  reported_keys (u ∷ us) s c = (
    λ r. holds-judge_sites us (key_of u) _ (judge_site-rejected u s c r).1,
    reported_keys us _ (judge_site-Consistent u s c),
  )

  abbrev pub unseen : Seen
  unseen = record {
    verdict = record { name = codes "ubsan"; failed = false; detail = []; about = finding };
    keys = [];
  }

  pub unseen-Consistent : Consistent unseen
  unseen-Consistent = record { failed = inl refl; named = refl; distinct = tt }

  -- What holds of the keys at the start, and of the key of each rejected site, holds of all keys.
  All-judge_site :
      (P : Text → Type 0) (u : UbSite) (s : Seen)
      → All P s.keys
      → (is_rejected u ≡ true → P (key_of u))
      → All P (judge_site glob accepted ws u s).keys
  unfolding judge_site report_site
  All-judge_site P u s a h = elim (Bool-cases (is_empty u.function)) [
    | inl e ↦
        let key : place_of u ≡ key_of u = rw e refl in
        let own : P (place_of u) = subst P (sym key) (h (ground (arith, e))) in
        elim (Bool-cases (holds (place_of u) s.keys)) [
          | inl q ↦ rw (e, q) a
          | inr q ↦ rw (e, q) (own, a)
        ]
    | inr e ↦ elim (Bool-cases (in_scope glob accepted u.function ws)) [
      | inl i ↦ rw (e, i) a
      | inr i ↦
          let key : u.function ≡ key_of u = rw e refl in
          let own : P u.function = subst P (sym key) (h (ground (arith, e, i))) in
          elim (Bool-cases (holds u.function s.keys)) [
            | inl q ↦ rw (e, i, q) a
            | inr q ↦ rw (e, i, q) (own, a)
          ]
    ]
  ]

  pub All-judge_sites :
      (P : Text → Type 0) (us : List UbSite) (s : Seen)
      → All P s.keys
      → All (λ u. is_rejected u ≡ true → P (key_of u)) us
      → All P (judge_sites glob accepted ws us s).keys
  unfolding judge_sites
  All-judge_sites P [] s a h = a
  All-judge_sites P (u ∷ us) s a (h, hs) =
      All-judge_sites P us (judge_site glob accepted ws u s) (All-judge_site P u s a h) hs
