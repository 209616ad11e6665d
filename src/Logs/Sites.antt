-- ===== src/Logs/Sites.antt =====
-- The undefined-behaviour sites of a log: how many there are, and how many stay without a name.
use pg_fuzz.Base.{
  ℕ, ◌+◌, ◌-◌, ◌≤◌, ◌≡◌, refl, ◌∙◌, ap, true, false, List, [], ◌∷◌, ◌++◌, Option, none, some, Text,
  length, length-append, if◌then◌else◌, is_empty, All, arith,
}
use pg_fuzz.Float.{Float}
use pg_fuzz.Logs.Parse.{
  Line, is_unnamed, any_unnamed, attach, sites_after, site_of, read_line, read_lines, blank, parse,
}
use pg_fuzz.Logs.Stats.{Stats, UbSite}

abbrev pub unnamed : List UbSite → ℕ
unnamed [] = 0
unnamed (u ∷ us) = (if is_unnamed u then 1 else 0) + unnamed us

-- The reports still without a token: each report opens one, each token closes one if there is one.
abbrev pub open_after : Option (Text × ℕ × Text) → Option Text → ℕ → ℕ
open_after (some found) dedup n = n + 1
open_after none (some name) n = n - 1
open_after none none n = n

abbrev pub open_reports : ℕ → List Line → ℕ
open_reports n [] = n
open_reports n (l ∷ ls) = open_reports (open_after l.ub l.dedup n) ls

abbrev report_of : Option (Text × ℕ × Text) → ℕ
report_of (some found) = 1
report_of none = 0

-- The lines that report a site.
abbrev pub reports : List Line → ℕ
reports [] = 0
reports (l ∷ ls) = report_of l.ub + reports ls

-- A token is never the empty name: the regular expression takes at least one character.
abbrev pub IsToken : Option Text → Type 0
IsToken none = Unit
IsToken (some name) = is_empty name ≡ false

length-attach : (name : Text) (us : List UbSite) → length (attach name us) ≡ length us
unfolding attach
length-attach name [] = refl
length-attach name (u ∷ us) = ground (arith, length-attach name us)

unnamed-none : (us : List UbSite) → any_unnamed us ≡ false → unnamed us ≡ 0
unfolding any_unnamed
unnamed-none [] h = refl
unnamed-none (u ∷ us) h = ground (arith, unnamed-none us)

unnamed-some : (us : List UbSite) → any_unnamed us ≡ true → 1 ≤ unnamed us
unfolding any_unnamed
unnamed-some [] h = cc
unnamed-some (u ∷ us) h = ground (arith, unnamed-some us)

unnamed-attach :
    (name : Text) (us : List UbSite)
    → is_empty name ≡ false
    → unnamed (attach name us) ≡ unnamed us - 1
unfolding attach
unnamed-attach name [] h = refl
unnamed-attach name (u ∷ us) h =
    ground (arith, unnamed-attach name us h, unnamed-none us, unnamed-some us)

unnamed-append : (us vs : List UbSite) → unnamed (us ++ vs) ≡ unnamed us + unnamed vs
unnamed-append [] vs = omega arith
unnamed-append (u ∷ us) vs = omega (arith, unnamed-append us vs)

unnamed-sites_after :
    (found : Option (Text × ℕ × Text)) (dedup : Option Text) (us : List UbSite)
    → IsToken dedup
    → unnamed (sites_after found dedup us) ≡ open_after found dedup (unnamed us)
unfolding sites_after site_of
unnamed-sites_after (some found) dedup us h = omega (arith, unnamed-append us (site_of found ∷ []))
unnamed-sites_after none (some name) us h = unnamed-attach name us h
unnamed-sites_after none none us h = refl

length-sites_after :
    (found : Option (Text × ℕ × Text)) (dedup : Option Text) (us : List UbSite)
    → length (sites_after found dedup us) ≡ length us + report_of found
unfolding sites_after
length-sites_after (some found) dedup us = length-append us (site_of found ∷ [])
length-sites_after none (some name) us = omega (arith, length-attach name us)
length-sites_after none none us = omega arith

module _ (f : Float) where
  sites-read_lines :
      (s : Stats f) (ls : List Line)
      → All (λ l. IsToken l.dedup) ls
      → (length (read_lines f s ls).ub ≡ length s.ub + reports ls)
        × (unnamed (read_lines f s ls).ub ≡ open_reports (unnamed s.ub) ls)
  unfolding read_lines read_line
  sites-read_lines s [] h = (omega arith, refl)
  sites-read_lines s (l ∷ ls) (h, hs) =
      let (counted, unclosed) = sites-read_lines (read_line f s l) ls hs in
      (
        omega (arith, counted, length-sites_after l.ub l.dedup s.ub),
        unclosed ∙ ap (λ n. open_reports n ls) (unnamed-sites_after l.ub l.dedup s.ub h),
      )

  -- A log has as many sites as lines that report one. If no token is the empty name, the sites left
  -- without a function are as many as the reports that no later token closed.
  pub parse_sites :
      (ls : List Line)
      → All (λ l. IsToken l.dedup) ls
      → (length (parse f ls).ub ≡ reports ls) × (unnamed (parse f ls).ub ≡ open_reports 0 ls)
  unfolding parse
  parse_sites ls h =
      let (counted, unclosed) = sites-read_lines (blank f) ls h in
      (omega (arith, counted), unclosed)
