-- ===== src/Plateau/Examples.antt =====
-- A log of two lines that grows by one and a half.
use pg_fuzz.Base.{
  ℕ, ◌≡◌, refl, max, true, List, [], ◌∷◌, ◌++◌, some, Text, Map, codes, lookup_or, split_on, arith,
}
use pg_fuzz.Plateau.Follows.{Follows}
use pg_fuzz.Plateau.Reads.{Continues, read-grown}
use pg_fuzz.Plateau.Scan.{
  CovLine, banner, sample, other_line, scan_cov, best_under, last_banner, scan_cov-best_under,
}
use pg_fuzz.Plateau.Tail.{TailState, File, read}

abbrev path : Text
path = codes "soak.log"

abbrev begun_log : Text
begun_log = codes "ab" ++ (b'\n' ∷ codes "c")

abbrev more : Text
more = codes "d" ++ (b'\n' ∷ codes "ef")

abbrev ent : TailState
ent = record { ino = 7; off = 4; tail = codes "c" }

abbrev state : Map TailState
state = (path, ent) ∷ []

abbrev grown : File
grown = record { ino = 7; bytes = begun_log ++ more; readable = true; limit = 100 }

-- The unfinished line is completed by the next call.
next_line : (read state path (some grown)).1 ≡ codes "cd"
unfolding read split_on
next_line = refl

followed : Follows begun_log ent (codes "ab" ∷ [])
unfolding split_on
followed = record { within = omega arith; split = refl }

read-grown_example : Continues state path grown (codes "ab" ∷ [])
read-grown_example =
    read-grown state path begun_log more ent (codes "ab" ∷ []) grown refl refl refl followed

abbrev other_file : File
other_file = record { ino = 8; bytes = more; readable = true; limit = 100 }

abbrev text : List CovLine
text =
    sample 12
    ∷ banner (codes "regex")
    ∷ sample 40
    ∷ other_line
    ∷ banner (codes "numeric")
    ∷ sample 9
    ∷ []

abbrev before : Map ℕ
before = (codes "regex", 30) ∷ []

scan_cov-best_under_example :
    ((scan_cov text [] before).0 ≡ last_banner text [])
    × (lookup_or 0 (codes "regex") (scan_cov text [] before).1
        ≡ max (lookup_or 0 (codes "regex") before) (best_under (codes "regex") text []))
scan_cov-best_under_example = scan_cov-best_under text (codes "regex") [] before refl
