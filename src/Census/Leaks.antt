-- ===== src/Census/Leaks.antt =====
-- Which readers see a leak.
use pg_fuzz.Base.{
  true, false, List, [], ◌∷◌, Option, none, Text, codes, contains, All, ◌≡◌, refl, ap, ◌∙◌, inl,
  inr, arith, Bool-cases, Option-cases,
}
use pg_fuzz.Census.Extract.{Matches, interesting, banner_of}
use pg_fuzz.Census.Read.{see, read_report, Reader, add_line, add_reader}

-- The line that opens a leak report has no marker.
abbrev pub UnmarkedOpening : Text → Type 0
UnmarkedOpening l =
    contains l (codes "LeakSanitizer: detected memory leaks") ≡ true → interesting l ≡ false

-- With the scope closed a line is read as if it had no token, and the scope stays closed.
add_line-closed :
    (find : Text → Matches) (frame : Text → Option Text) (ws l : Text) (r : Reader)
    → UnmarkedOpening l
    → r.inside ≡ false
    → (add_line find frame ws l r ≡ add_line find (λ t. none) ws l r)
      × ((add_line find frame ws l r).inside ≡ false)
unfolding add_line read_report see
add_line-closed find frame ws l r u h = elim (Bool-cases (interesting l)) [
  | inr e ↦ rw e (refl, h)
  | inl e ↦
      let closed : contains l (codes "LeakSanitizer: detected memory leaks") ≡ false =
        ground (arith, u, e) in
      elim (Option-cases (banner_of l)) [
        | inr (t, b) ↦ rw (e, b) (refl, h)
        | inl b ↦ rw (e, b) (ground (arith, closed, h), ground (arith, closed, h))
      ]
]

-- From a log of many targets `AddReader` records no leak, whatever tokens its lines have: where the
-- lines that open a leak report have none of the markers by which it picks the lines to read, it
-- leaves the builder, the scope and the target as if no line had a token.
pub add_reader-tokens :
    (find : Text → Matches) (frame : Text → Option Text) (ws : Text) (ls : List Text) (r : Reader)
    → All UnmarkedOpening ls
    → r.inside ≡ false
    → add_reader find frame ws ls r ≡ add_reader find (λ l. none) ws ls r
unfolding add_reader
add_reader-tokens find frame ws [] r u h = refl
add_reader-tokens find frame ws (l ∷ ls) r (u, us) h =
    let (same, closed) = add_line-closed find frame ws l r u h in
    add_reader-tokens find frame ws ls (add_line find frame ws l r) us closed
    ∙ ap (add_reader find (λ t. none) ws ls) same
