-- ===== src/Ratchet/Reseed.antt =====
-- go/internal/ratchet/analysis.go: `Reseed`, which lowers a target's floors on purpose. The best count
-- of a workspace's directory is an argument, as in the source; the records that the baseline keeps are
-- decoded, and the lines that are printed are left out.
use pg_fuzz.Base.{
  ℕ, List, [], ◌∷◌, ◌++◌, Option, none, some, Text, Map, lookup, lookup_or, put, keys, sort_by,
  less, is_empty, ◌==◌, if◌then◌else◌,
}

pub record ReseedChange : Type 0 where
  pub workspace : Text
  pub from : ℕ
  pub to : ℕ

pub record ReseedRecord : Type 0 where
  pub target : Text
  pub since : Text
  pub reason : Text
  pub changed : List ReseedChange

-- The parts of the baseline that a reseed changes.
pub record Seeds : Type 0 where
  pub floors : Map (Map ℕ)
  pub reseeds : List ReseedRecord

pub data Reseeded : Type 0 where
  needs_reason : Reseeded
  reseeded : Seeds → List ReseedChange → Reseeded

-- The loop's state: the floors, and the changes so far.
pub record Moves : Type 0 where
  pub floors : Map (Map ℕ)
  pub changed : List ReseedChange

abbrev pub set_floor : Text → Text → ℕ → ℕ → Moves → Moves
set_floor ws target old n m = record {
  floors = put ws (put target n (lookup_or [] ws m.floors)) m.floors;
  changed = m.changed ++ record { workspace = ws; from = old; to = n } ∷ [];
}

abbrev move_to : Text → Text → ℕ → ℕ → Moves → Moves
move_to ws target old n m =
    if n == 0 then m else if n == old then m else set_floor ws target old n m

abbrev with_dir : Text → Text → ℕ → (Text → ℕ) → Option Text → Moves → Moves
with_dir ws target old best none m = m
with_dir ws target old best (some dir) m = move_to ws target old (best dir) m

abbrev from_floor : Text → Text → (Text → ℕ) → Option Text → Option ℕ → Moves → Moves
from_floor ws target best dir none m = m
from_floor ws target best dir (some old) m = with_dir ws target old best dir m

-- One round of the loop.
unfoldable pub reseed_one : Text → Map Text → (Text → ℕ) → Text → Moves → Moves
reseed_one target dirs best ws m =
    from_floor ws target best (lookup ws dirs) (lookup target (lookup_or [] ws m.floors)) m

unfoldable pub reseed_all : Text → Map Text → (Text → ℕ) → List Text → Moves → Moves
reseed_all target dirs best [] m = m
reseed_all target dirs best (ws ∷ wss) m =
    reseed_all target dirs best wss (reseed_one target dirs best ws m)

abbrev pub moves : Text → Map Text → (Text → ℕ) → Seeds → Moves
moves target dirs best s =
    reseed_all target dirs best (sort_by less (keys s.floors))
      (record { floors = s.floors; changed = [] })

-- What the baseline records: nothing where no floor changed.
abbrev pub records : Text → Text → Text → List ReseedRecord → List ReseedChange → List ReseedRecord
records target since reason rs [] = rs
records target since reason rs (c ∷ cs) =
    rs ++ record { target = target; since = since; reason = reason; changed = c ∷ cs } ∷ []

abbrev recorded : Text → Text → Text → List ReseedRecord → Moves → Reseeded
recorded target since reason rs m =
    reseeded (record { floors = m.floors; reseeds = records target since reason rs m.changed })
      m.changed

unfoldable pub reseed : Text → Text → Text → Map Text → (Text → Text → Text → ℕ) → Seeds → Reseeded
reseed target since reason dirs best s =
    if is_empty reason
    then needs_reason
    else recorded target since reason s.reseeds (moves target dirs (λ dir. best dir target since) s)
