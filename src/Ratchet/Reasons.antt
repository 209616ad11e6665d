-- ===== src/Ratchet/Reasons.antt =====
-- What a reseed changes, and that it leaves its reason.
use pg_fuzz.Base.{
  ◌↔◌, subst, holds, holds-keys, holds-sort_by, ℕ, true, false, List, [], ◌∷◌, ◌++◌, Option, none,
  some, Text, ◌≢◌, Map, lookup, keys, sort_by, less, is_empty, eq, eq_iff, eq_refl, if◌then◌else◌,
  Any, ◌≡◌, ◌⊎◌, refl, ap, ◌∙◌, sym, inl, inr, arith, Bool-cases, Option-cases,
}
use pg_fuzz.Ratchet.Reseed.{
  ReseedChange, ReseedRecord, Seeds, needs_reason, reseeded, Moves, reseed_one, reseed_all, moves,
  records, reseed,
}
use pg_fuzz.Ratchet.Moved.{
  floor_at, floor_at-put, best_or, new_floor, OneMove, NoMove, reseed_one-cases, reseed_one-floor,
  reseed_all-floor,
}

Any-left {ℓ} : {A : Type ℓ} (P : A → Type 0) (xs ys : List A) → Any P xs → Any P (xs ++ ys)
Any-left P [] ys h = elim h [ ]
Any-left P (x ∷ xs) ys (inl h) = inl h
Any-left P (x ∷ xs) ys (inr h) = inr (Any-left P xs ys h)

Any-snoc {ℓ} : {A : Type ℓ} (P : A → Type 0) (xs : List A) (y : A) → P y → Any P (xs ++ y ∷ [])
Any-snoc P [] y h = inl h
Any-snoc P (x ∷ xs) y h = inr (Any-snoc P xs y h)

Any-reseed_all :
    (target : Text) (dirs : Map Text) (best : Text → ℕ) (P : ReseedChange → Type 0)
    (wss : List Text) (m : Moves)
    → Any P m.changed
    → Any P (reseed_all target dirs best wss m).changed
unfolding reseed_all
Any-reseed_all target dirs best P [] m h = h
Any-reseed_all target dirs best P (w ∷ wss) m h =
    Any-reseed_all target dirs best P wss (reseed_one target dirs best w m)
      (elim (reseed_one-cases target dirs best w m) [
        | inl (same, kept) ↦ subst (λ (k : Moves). Any P k.changed) (sym same) h
        | inr (old, n, o, b, ne, moved) ↦
            subst (λ (k : Moves). Any P k.changed) (sym moved) (Any-left P m.changed _ h)
      ])

-- The change of a workspace's floor is in the list.
abbrev pub IsListed : Text → Option ℕ → Option ℕ → List ReseedChange → Type 0
IsListed ws before after changed =
    (old : ℕ) × (n : ℕ) × (before ≡ some old)
    × (after ≡ some n)
    × Any (λ (c : ReseedChange). (c.workspace ≡ ws) × (c.from ≡ old) × (c.to ≡ n)) changed

best_or_twice :
    (dir : Option Text) (best : Text → ℕ) (old n : ℕ)
    → best_or dir best old ≡ n
    → best_or dir best n ≡ n
best_or_twice none best old n h = refl
best_or_twice (some d) best old n h = ground (arith, h)

one-IsListed :
    (target : Text) (dirs : Map Text) (best : Text → ℕ) (w : Text) (wss : List Text) (m : Moves)
    → OneMove target dirs best w m
    → IsListed w
        (floor_at w target m.floors)
        (floor_at w target
          (reseed_all target dirs best wss (reseed_one target dirs best w m)).floors)
        (reseed_all target dirs best wss (reseed_one target dirs best w m)).changed
one-IsListed target dirs best w wss m (old, n, o, b, ne, moved) =
    let set : floor_at w target (reseed_one target dirs best w m).floors ≡ some n =
      ap (λ (k : Moves). floor_at w target k.floors) moved
      ∙ floor_at-put w w target target n m.floors
      ∙ rw (eq_refl w, eq_refl target) refl in
    (
      old,
      n,
      o,
      reseed_all-floor target dirs best wss w target (reseed_one target dirs best w m)
          ∙ ap
              (λ (k : Option ℕ).
                if holds w wss then new_floor (eq target target) (lookup w dirs) best k else k)
              set
          ∙ rw (eq_refl target, best_or_twice (lookup w dirs) best old n b)
              (elim (Bool-cases (holds w wss)) [ inl h ↦ rw h refl | inr h ↦ rw h refl ]),
      Any-reseed_all target dirs best _ wss (reseed_one target dirs best w m) (
          subst
            (λ (k : Moves).
              Any (λ (c : ReseedChange). (c.workspace ≡ w) × (c.from ≡ old) × (c.to ≡ n)) k.changed)
            (sym moved) (Any-snoc _ m.changed _ (refl, refl, refl))),
    )

moved-IsListed :
    (target : Text) (dirs : Map Text) (best : Text → ℕ) (wss : List Text) (ws : Text) (m : Moves)
    → (floor_at ws target (reseed_all target dirs best wss m).floors ≡ floor_at ws target m.floors)
      ⊎ IsListed ws
          (floor_at ws target m.floors)
          (floor_at ws target (reseed_all target dirs best wss m).floors)
          (reseed_all target dirs best wss m).changed
unfolding reseed_all
moved-IsListed target dirs best [] ws m = inl refl
moved-IsListed target dirs best (w ∷ wss) ws m =
    step (Bool-cases (eq w ws)) (reseed_one-cases target dirs best w m)
      (moved-IsListed target dirs best wss ws (reseed_one target dirs best w m))
  where
    final : Option ℕ
    final =
        floor_at ws target
          (reseed_all target dirs best wss (reseed_one target dirs best w m)).floors

    listed : List ReseedChange
    listed = (reseed_all target dirs best wss (reseed_one target dirs best w m)).changed

    kept :
        floor_at ws target (reseed_one target dirs best w m).floors ≡ floor_at ws target m.floors
        → ((final ≡ floor_at ws target (reseed_one target dirs best w m).floors)
            ⊎ IsListed ws
                (floor_at ws target (reseed_one target dirs best w m).floors)
                final
                listed)
        → (final ≡ floor_at ws target m.floors)
          ⊎ IsListed ws (floor_at ws target m.floors) final listed
    kept e h = subst (λ (o : Option ℕ). (final ≡ o) ⊎ IsListed ws o final listed) e h

    step :
        ((eq w ws ≡ true) ⊎ (eq w ws ≡ false))
        → (NoMove target dirs best w m ⊎ OneMove target dirs best w m)
        → ((final ≡ floor_at ws target (reseed_one target dirs best w m).floors)
            ⊎ IsListed ws
                (floor_at ws target (reseed_one target dirs best w m).floors)
                final
                listed)
        → (final ≡ floor_at ws target m.floors)
          ⊎ IsListed ws (floor_at ws target m.floors) final listed
    step (inr e) c h = kept (reseed_one-floor target dirs best w ws target m ∙ rw e refl) h
    step (inl e) (inl (same, k)) h = kept (ap (λ (k : Moves). floor_at ws target k.floors) same) h
    step (inl e) (inr one) h = inr (
        subst
          (λ (v : Text).
            IsListed v (floor_at v target m.floors)
              (floor_at v target
                (reseed_all target dirs best wss (reseed_one target dirs best w m)).floors)
              listed)
          ((eq_iff w ws).0 e) (one-IsListed target dirs best w wss m one))

moves-floor :
    (target : Text) (dirs : Map Text) (best : Text → ℕ) (s : Seeds) (ws t : Text)
    → floor_at ws t (moves target dirs best s).floors
      ≡ new_floor (eq target t) (lookup ws dirs) best (floor_at ws t s.floors)
moves-floor target dirs best s ws t =
    reseed_all-floor target dirs best (sort_by less (keys s.floors)) ws t
      (record { floors = s.floors; changed = [] })
    ∙ rw (holds-sort_by ws (keys s.floors), holds-keys ws s.floors)
        (elim (Option-cases (lookup ws s.floors)) [ inl e ↦ rw e refl | inr (fl, e) ↦ rw e refl ])

-- What the baseline holds of a reseed: one record more, with all that is said of it, or none.
abbrev pub Recorded :
    Text → Text → Text → List ReseedChange → List ReseedRecord → List ReseedRecord → Type 0
Recorded target since reason changed before after =
    ((changed ≡ []) × (after ≡ before))
    ⊎ ((changed ≢ [])
        × (after
            ≡ before
              ++ record { target = target; since = since; reason = reason; changed = changed }
                ∷ []))

records-Recorded :
    (target since reason : Text) (rs : List ReseedRecord) (changed : List ReseedChange)
    → Recorded target since reason changed rs (records target since reason rs changed)
records-Recorded target since reason rs [] = inl (refl, refl)
records-Recorded target since reason rs (c ∷ cs) = inr (λ e. cc, refl)

-- A reseed with a reason goes through. Afterwards a floor is the best count of its workspace's
-- directory, where it is the target's, the workspace has a directory, and that count is not nothing,
-- and is as it was otherwise; each floor of the target that is not as it was stands in the changes
-- that are returned, with its workspace, its old and its new value; and the baseline gets one
-- record more, behind those it had, of the target, the date, the reason and these changes, or stays as
-- it was where there are none.
pub floor_at-reseed :
    (target since reason : Text) (dirs : Map Text) (best : Text → Text → Text → ℕ) (s : Seeds)
    → is_empty reason ≡ false
    → (s' : Seeds) × (changed : List ReseedChange) × (reseed target since reason dirs best s
        ≡ reseeded s' changed)
      × ((ws t : Text)
          → floor_at ws t s'.floors
            ≡ new_floor
                (eq target t)
                (lookup ws dirs)
                (λ dir. best dir target since)
                (floor_at ws t s.floors))
      × ((ws : Text)
          → (floor_at ws target s'.floors ≡ floor_at ws target s.floors)
            ⊎ IsListed ws (floor_at ws target s.floors) (floor_at ws target s'.floors) changed)
      × Recorded target since reason changed s.reseeds s'.reseeds
unfolding reseed
floor_at-reseed target since reason dirs best s h =
    let m : Moves = moves target dirs (λ dir. best dir target since) s in
    (
      record { floors = m.floors; reseeds = records target since reason s.reseeds m.changed },
      m.changed,
      rw h refl,
      moves-floor target dirs (λ dir. best dir target since) s,
      λ ws.
          moved-IsListed target dirs (λ dir. best dir target since) (sort_by less (keys s.floors))
            ws (record { floors = s.floors; changed = [] }),
      records-Recorded target since reason s.reseeds m.changed,
    )

-- Without a reason it is refused.
pub reseed-needs_reason :
    (target since reason : Text) (dirs : Map Text) (best : Text → Text → Text → ℕ) (s : Seeds)
    → (reseed target since reason dirs best s ≡ needs_reason) ↔ (is_empty reason ≡ true)
unfolding reseed
reseed-needs_reason target since reason dirs best s = elim (Bool-cases (is_empty reason)) [
  | inl e ↦ rw e ((λ h. refl), λ h. refl)
  | inr e ↦ rw e ((λ h. absurd (cc)), λ h. absurd (cc))
]
