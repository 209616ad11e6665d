-- ===== src/Census/Hits.antt =====
-- A row counts what was recorded.
use pg_fuzz.Base.{
  total-bump, All-sort_by, Any-sort_by, Any, is_some, Option-cases, ℕ, suc, ◌+◌, ◌<◌, Bool, true,
  not, ◌&&◌, List, [], ◌∷◌, Option, some, Text, Map, eq, eq_iff, keep, keys, lookup, lookup_or,
  lookup-put, bump, total, total_by, total_by-bump, All, or_else, Unique, Unique-put, Values,
  Values-put, Values-lookup_or, Entries, Entries-map, Entries-Unique, if◌then◌else◌, ◌≡◌, ◌↔◌, refl,
  ap, ◌∙◌, sym, inl, inr, arith, Bool-cases,
}
use pg_fuzz.Census.Builder.{Builder, empty, record_sig}
use pg_fuzz.Census.Rows.{Row, is_oriole, none_of, row_of, row_list, row_before, census_rows}

-- One hit, as the readers record it.
pub record Hit : Type 0 where
  pub ws : Text
  pub target : Text
  pub sig : Text
  pub src : Text

abbrev pub record_all : List Hit → Builder → Builder
record_all [] b = b
record_all (h ∷ hs) b = record_all hs (record_sig h.ws h.target h.sig h.src b)

-- The hits of a signature in the workspaces that are chosen.
abbrev pub hits_of : (Text → Bool) → Text → List Hit → ℕ
hits_of p sig [] = 0
hits_of p sig (h ∷ hs) = if eq h.sig sig && p h.ws then suc (hits_of p sig hs) else hits_of p sig hs

abbrev held : (Text → Bool) → Text → Builder → ℕ
held p sig b = total_by p (lookup_or [] sig b.per_ws)

held-record_sig :
    (p : Text → Bool) (sig ws target s src : Text) (b : Builder)
    → held p sig (record_sig ws target s src b)
      ≡ (if eq s sig && p ws then suc (held p sig b) else held p sig b)
unfolding record_sig
held-record_sig p sig ws target s src b = elim (Bool-cases (eq s sig)) [
  | inr e ↦ rw (lookup-put s sig (bump ws (lookup_or [] s b.per_ws)) b.per_ws, e) refl
  | inl e ↦
      rw (lookup-put s sig (bump ws (lookup_or [] s b.per_ws)) b.per_ws, e)
        (total_by-bump p ws (lookup_or [] s b.per_ws)
          ∙ ap (λ (t : Text). if p ws then suc (held p t b) else held p t b) ((eq_iff s sig).0 e))
]

held-record_all :
    (p : Text → Bool) (sig : Text) (hs : List Hit) (b : Builder)
    → held p sig (record_all hs b) ≡ hits_of p sig hs + held p sig b
held-record_all p sig [] b = omega arith
held-record_all p sig (h ∷ hs) b = elim (Bool-cases (eq h.sig sig && p h.ws)) [
  | inl e ↦ rw e (
      omega (
        arith,
        held-record_all p sig hs (record_sig h.ws h.target h.sig h.src b),
        held-record_sig p sig h.ws h.target h.sig h.src b
            ∙ ap (λ c. if c then suc (held p sig b) else held p sig b) e,
      ))
  | inr e ↦ rw e (
      omega (
        arith,
        held-record_all p sig hs (record_sig h.ws h.target h.sig h.src b),
        held-record_sig p sig h.ws h.target h.sig h.src b
            ∙ ap (λ c. if c then suc (held p sig b) else held p sig b) e,
      ))
]

-- No key stands twice, and every count is above nothing.
abbrev Positive : Map ℕ → Type 0
Positive m = Values (λ n. 0 < n) m

pub record IsBuilt (b : Builder) : Type 0 where
  pub unique : Unique b.per_ws
  pub positive : Values Positive b.per_ws
  pub filled : Values (λ per. 0 < total per) b.per_ws

bump-Positive : (k : Text) (m : Map ℕ) → Positive m → Positive (bump k m)
unfolding bump
bump-Positive k m a = Values-put (λ n. 0 < n) k (suc (lookup_or 0 k m)) m (omega arith) a

record_sig-IsBuilt :
    (ws target s src : Text) (b : Builder) → IsBuilt b → IsBuilt (record_sig ws target s src b)
unfolding record_sig
record_sig-IsBuilt ws target s src b i = record {
  unique = Unique-put s (bump ws (lookup_or [] s b.per_ws)) b.per_ws i.unique;
  positive =
      Values-put Positive s (bump ws (lookup_or [] s b.per_ws)) b.per_ws
        (bump-Positive ws (lookup_or [] s b.per_ws)
          (Values-lookup_or Positive [] s b.per_ws tt i.positive))
        i.positive;
  filled =
      Values-put (λ per. 0 < total per) s (bump ws (lookup_or [] s b.per_ws)) b.per_ws
        (omega (arith, total-bump ws (lookup_or [] s b.per_ws))) i.filled;
}

record_all-IsBuilt : (hs : List Hit) (b : Builder) → IsBuilt b → IsBuilt (record_all hs b)
record_all-IsBuilt [] b i = i
record_all-IsBuilt (h ∷ hs) b i =
    record_all-IsBuilt hs (record_sig h.ws h.target h.sig h.src b)
      (record_sig-IsBuilt h.ws h.target h.sig h.src b i)

total-total_by : (m : Map ℕ) → total m ≡ total_by (λ ws. true) m
total-total_by [] = refl
total-total_by ((k, n) ∷ m) = omega (arith, total-total_by m)

-- No workspace is chosen exactly when there are no hits in any that is.
none_of-total_by :
    (p : Text → Bool) (m : Map ℕ)
    → Positive m
    → (none_of (keep p (keys m)) ≡ true) ↔ (total_by p m ≡ 0)
none_of-total_by p [] a = ((λ h. refl), λ h. refl)
none_of-total_by p ((k, n) ∷ m) (pos, a) = elim (Bool-cases (p k)) [
  | inl e ↦ rw e ((λ h. absurd (cc)), λ h. absurd (omega (arith, pos, h)))
  | inr e ↦ rw e (none_of-total_by p m a)
]

-- What a row says of the hits with its signature.
abbrev pub Counts : List Hit → Row → Type 0
Counts hs r =
    (r.hits ≡ hits_of (λ ws. true) r.signature hs)
    × (0 < r.hits)
    × ((r.oriole_only ≡ true) ↔ (
        (0 < hits_of is_oriole r.signature hs)
        × (hits_of (λ ws. not (is_oriole ws)) r.signature hs ≡ 0)))

row_of-Counts :
    (hs : List Hit) (b : Builder) (sig : Text) (per : Map ℕ)
    → ((p : Text → Bool) → total_by p per ≡ hits_of p sig hs)
    → Positive per
    → 0 < total per
    → Counts hs (row_of b sig per)
unfolding row_of
row_of-Counts hs b sig per h a pos = (
  total-total_by per ∙ h (λ ws. true),
  pos,
  ground (
    arith,
    none_of-total_by is_oriole per a,
    none_of-total_by (λ ws. not (is_oriole ws)) per a,
    h is_oriole,
    h (λ ws. not (is_oriole ws)),
  ),
)

row_list-Counts :
    (hs : List Hit) (b : Builder) (m : Map (Map ℕ))
    → Entries (λ sig per. (p : Text → Bool) → total_by p per ≡ hits_of p sig hs) m
    → Values Positive m
    → Values (λ per. 0 < total per) m
    → All (Counts hs) (row_list b m)
row_list-Counts hs b [] h a f = tt
row_list-Counts hs b ((sig, per) ∷ m) (h, hs') (a, as') (f, fs) =
    (row_of-Counts hs b sig per h a f, row_list-Counts hs b m hs' as' fs)

row_list-lookup :
    (b : Builder) (sig : Text) (m : Map (Map ℕ))
    → is_some (lookup sig m) ≡ true
    → Any (λ (r : Row). r.signature ≡ sig) (row_list b m)
unfolding row_of
row_list-lookup b sig [] h = absurd (cc)
row_list-lookup b sig ((k, per) ∷ m) h = elim (Bool-cases (eq k sig)) [
  | inl e ↦ inl ((eq_iff k sig).0 e)
  | inr e ↦ inr (row_list-lookup b sig m (rw e at h))
]

empty-IsBuilt : IsBuilt empty
empty-IsBuilt = record { unique = tt; positive = tt; filled = tt }

held-empty :
    (p : Text → Bool) (sig : Text) (hs : List Hit)
    → held p sig (record_all hs empty) ≡ hits_of p sig hs
held-empty p sig hs = omega (arith, held-record_all p sig hs empty)

-- The census of any hits, recorded in any order, has a row for each signature that was hit. Each row
-- has at least one hit, and exactly as many as were recorded with its signature; and it is marked as
-- only of OrioleDB exactly when some of these came from an oriole workspace and none from another.
pub census_rows-Counts :
    (hs : List Hit)
    → All (Counts hs) (census_rows (record_all hs empty))
      × ((sig : Text)
          → 0 < hits_of (λ ws. true) sig hs
          → Any (λ (r : Row). r.signature ≡ sig) (census_rows (record_all hs empty)))
unfolding census_rows
census_rows-Counts hs =
    let b : Builder = record_all hs empty in
    let i : IsBuilt b = record_all-IsBuilt hs empty empty-IsBuilt in
    (
      All-sort_by (Counts hs) row_before (row_list b b.per_ws) (
          row_list-Counts hs b b.per_ws
            (Entries-map (λ sig per. lookup sig b.per_ws ≡ some per)
              (λ sig per. (p : Text → Bool) → total_by p per ≡ hits_of p sig hs) b.per_ws
              (λ sig per e p.
                ap (λ (o : Option (Map ℕ)). total_by p (or_else o [])) (sym e)
                ∙ held-empty p sig hs)
              (Entries-Unique b.per_ws i.unique))
            i.positive i.filled),
      λ sig h.
          Any-sort_by (λ (r : Row). r.signature ≡ sig) row_before (row_list b b.per_ws)
            (row_list-lookup b sig b.per_ws (elim (Option-cases (lookup sig b.per_ws)) [
              | inr (per, e) ↦ rw e refl
              | inl e ↦ absurd (
                  omega (
                    arith,
                    h,
                    held-empty (λ ws. true) sig hs,
                    ap (λ (o : Option (Map ℕ)). total_by (λ ws. true) (or_else o [])) e,
                  ))
            ])),
    )
