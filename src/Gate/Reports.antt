-- ===== src/Gate/Reports.antt =====
-- Which sites fail `UBSan`, and how often each is reported.
use pg_fuzz.Base.{
  ◌≡◌, ◌≢◌, ◌↔◌, ◌⊎◌, refl, sym, ◌∙◌, inl, inr, Bool, true, ◌&&◌, ◌||◌, List, [], ◌∷◌, ◌++◌, Text,
  codes, eq, eq_iff, All, Any, map, any_of, is_empty, holds, holds_iff, decimal, Bool-cases, arith,
}
use mathlib.Core.Bool.{false≢true}
use mathlib.Core.List.{reverse}
use pg_fuzz.Gate.Sites.{
  named_by, is_rejected, key_of, Distinct, unseen, unseen-Consistent, judge_sites-failed,
  judge_sites-Consistent, reported_keys, All-judge_sites,
}
use pg_fuzz.Gate.Ubsan.{Accepted, in_scope, judge_sites, ubsan}
use pg_fuzz.Logs.Stats.{UbSite}

any_of-Any {ℓ} :
    {A : Type ℓ} (p : A → Bool) (P : A → Type 0) (f : (x : A) → (p x ≡ true) ↔ P x) (xs : List A)
    → (any_of p xs ≡ true) ↔ Any P xs
any_of-Any p P f [] = (λ h. absurd (false≢true h), λ h. absurd h)
any_of-Any p P f (x ∷ xs) =
    let rest = any_of-Any p P f xs in
    elim (Bool-cases (p x)) [
      | inl e ↦ (λ h. inl ((f x).0 e), λ h. rw e refl)
      | inr e ↦ (
        λ h. inr (rest.0 (ground (arith, h, e))),
        elim [
          | inl own ↦ absurd (false≢true (sym e ∙ (f x).1 own))
          | inr later ↦ ground (arith, rest.1 later)
        ],
      )
    ]

module _ (glob : Text → Text → Bool) (accepted : List Accepted) (ws : Text) where
  -- Some row is of the function, and has a pattern for the workspace: the star, or one that matches.
  abbrev pub IsAccepted : Text → Type 0
  IsAccepted fn =
      Any
        (λ (a : Accepted).
          (a.function ≡ fn) × Any (λ g. (g ≡ codes "*") ⊎ (glob g ws ≡ true)) a.scope)
        accepted

  abbrev pub IsRejected : UbSite → Type 0
  IsRejected u = (u.function ≡ []) ⊎ (¬ IsAccepted u.function)

  -- The key of a site is its function, or its file and its line where it has none.
  abbrev pub IsKeyOf : Text → UbSite → Type 0
  IsKeyOf k u =
      ((u.function ≢ []) × (k ≡ u.function))
      ⊎ ((u.function ≡ []) × (k ≡ u.file ++ (b':' ∷ decimal u.line)))

  pattern_iff :
      (g : Text) → ((eq g (codes "*") || glob g ws) ≡ true) ↔ ((g ≡ codes "*") ⊎ (glob g ws ≡ true))
  pattern_iff g = elim (Bool-cases (eq g (codes "*"))) [
    | inl e ↦ (λ h. inl ((eq_iff g (codes "*")).0 e), λ h. rw e refl)
    | inr e ↦ (
      λ h. inr (rw e at h),
      elim [
        | inl own ↦ absurd (false≢true (sym e ∙ (eq_iff g (codes "*")).1 own))
        | inr m ↦ rw e m
      ],
    )
  ]

  row_iff :
      (fn : Text) (a : Accepted)
      → ((eq a.function fn && any_of (λ g. eq g (codes "*") || glob g ws) a.scope) ≡ true)
        ↔ ((a.function ≡ fn) × Any (λ g. (g ≡ codes "*") ⊎ (glob g ws ≡ true)) a.scope)
  row_iff fn a =
      let scope = any_of-Any (λ g. eq g (codes "*") || glob g ws) _ pattern_iff a.scope in
      elim (Bool-cases (eq a.function fn)) [
        | inl e ↦ (λ h. ((eq_iff a.function fn).0 e, scope.0 (rw e at h)), λ h. rw e (scope.1 h.1))
        | inr e ↦ (
          λ h. absurd (false≢true (rw e at h)),
          λ h. absurd (false≢true (sym e ∙ (eq_iff a.function fn).1 h.0)),
        )
      ]

  in_scope_iff : (fn : Text) → (in_scope glob accepted fn ws ≡ true) ↔ IsAccepted fn
  unfolding in_scope
  in_scope_iff fn = any_of-Any _ _ (row_iff fn) accepted

  is_empty_iff : (t : Text) → (is_empty t ≡ true) ↔ (t ≡ [])
  is_empty_iff [] = (λ h. refl, λ h. refl)
  is_empty_iff (c ∷ cs) = (λ h. absurd (false≢true h), λ h. absurd (cc))

  is_rejected_iff : (u : UbSite) → (is_rejected glob accepted ws u ≡ true) ↔ IsRejected u
  is_rejected_iff u =
      let (none_of, none_by) = is_empty_iff u.function in
      let (scope, scoped) = in_scope_iff u.function in
      elim (Bool-cases (is_empty u.function)) [
        | inl e ↦ (λ h. inl (none_of e), λ h. rw e refl)
        | inr e ↦ (
          λ h. inr (λ a. ground (arith, h, e, scoped a)),
          elim [
            | inl n ↦ absurd (false≢true (sym e ∙ none_by n))
            | inr out ↦ elim (Bool-cases (in_scope glob accepted u.function ws)) [
              | inl i ↦ absurd (out (scope i))
              | inr i ↦ ground (arith, e, i)
            ]
          ],
        )
      ]

  key_of-IsKeyOf : (u : UbSite) → IsKeyOf (key_of glob accepted ws u) u
  key_of-IsKeyOf u =
      let (none_of, none_by) = is_empty_iff u.function in
      elim (Bool-cases (is_empty u.function)) [
        | inl e ↦ inr (none_of e, rw e refl)
        | inr e ↦ inl (λ n. false≢true (sym e ∙ none_by n), rw e refl)
      ]

  -- The key of a rejected site, found among the keys.
  All-keys :
      (keys : List Text) (us : List UbSite)
      → All
          (λ u.
            is_rejected glob accepted ws u ≡ true → holds (key_of glob accepted ws u) keys ≡ true)
          us
      → All (λ u. IsRejected u → Any (λ k. IsKeyOf k u) keys) us
  All-keys keys [] a = tt
  All-keys keys (u ∷ us) (h, a) = (
    λ r. named keys ((holds_iff (key_of glob accepted ws u) keys).0 (h ((is_rejected_iff u).1 r))),
    All-keys keys us a,
  )
    where
      named :
          (ks : List Text) → Any (λ k. k ≡ key_of glob accepted ws u) ks → Any (λ k. IsKeyOf k u) ks
      named [] n = n
      named (k ∷ ks) (inl same) = inl (rw same (key_of-IsKeyOf u))
      named (k ∷ ks) (inr later) = inr (named ks later)

  -- A rejected site accounts for its own key.
  All-sources :
      (us : List UbSite)
      → All
          (λ u.
            is_rejected glob accepted ws u ≡ true
            → Any (λ v. IsRejected v × IsKeyOf (key_of glob accepted ws u) v) us)
          us
  All-sources [] = tt
  All-sources (u ∷ us) =
      (λ r. inl ((is_rejected_iff u).0 r, key_of-IsKeyOf u), behind us (All-sources us))
    where
      behind :
          (vs : List UbSite)
          → All
              (λ v.
                is_rejected glob accepted ws v ≡ true
                → Any (λ w. IsRejected w × IsKeyOf (key_of glob accepted ws v) w) us)
              vs
          → All
              (λ v.
                is_rejected glob accepted ws v ≡ true
                → Any (λ w. IsRejected w × IsKeyOf (key_of glob accepted ws v) w) (u ∷ us))
              vs
      behind [] a = tt
      behind (v ∷ vs) (h, a) = (λ r. inr (h r), behind vs a)

  Any-IsRejected :
      (us : List UbSite) → Any (λ u. is_rejected glob accepted ws u ≡ true) us ↔ Any IsRejected us
  Any-IsRejected [] = (λ h. h, λ h. h)
  Any-IsRejected (u ∷ us) =
      let own = is_rejected_iff u in
      let rest = Any-IsRejected us in
      (
        elim [ inl h ↦ inl (own.0 h) | inr h ↦ inr (rest.0 h) ],
        elim [ inl h ↦ inl (own.1 h) | inr h ↦ inr (rest.1 h) ],
      )

  -- A run fails exactly when some site has no function, or a function of which no row has the star or
  -- a pattern that matches the workspace. It is reported once under each key, the function or, where
  -- there is none, the file and the line: what the details name, read from the last, is a list of
  -- keys with no key twice, that has the key of each such site and no other.
  pub ubsan_reports :
      (sites : List UbSite)
      → (((ubsan glob sites ws accepted).failed ≡ true) ↔ Any IsRejected sites)
        × ((keys : List Text) × Distinct glob accepted ws keys
            × (map named_by (ubsan glob sites ws accepted).detail ≡ reverse keys)
            × All (λ u. IsRejected u → Any (λ k. IsKeyOf k u) keys) sites
            × All (λ k. Any (λ u. IsRejected u × IsKeyOf k u) sites) keys)
  unfolding ubsan
  ubsan_reports sites =
      let start = unseen-Consistent glob accepted ws in
      let c = judge_sites-Consistent glob accepted ws sites (unseen glob accepted ws) start in
      let verdict = judge_sites-failed glob accepted ws sites (unseen glob accepted ws) start in
      let any = Any-IsRejected sites in
      let keys : List Text = (judge_sites glob accepted ws sites (unseen glob accepted ws)).keys in
      (
        (
          λ h. elim (verdict.0 h) [
            | inl early ↦ absurd (false≢true early)
            | inr there ↦ any.0 there
          ],
          λ h. verdict.1 (inr (any.1 h)),
        ),
        (
          keys,
          c.distinct,
          c.named,
          All-keys keys sites
              (reported_keys glob accepted ws sites (unseen glob accepted ws) start),
          All-judge_sites glob accepted ws (λ k. Any (λ u. IsRejected u × IsKeyOf k u) sites) sites
              (unseen glob accepted ws) tt (All-sources sites),
        ),
      )
