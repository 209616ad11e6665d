-- ===== src/Plateau/Tail.antt =====
-- go/internal/plateau/plateau.go: `LogTail`, which reads what a log gained since the last time.
use pg_fuzz.Base.{
  ℕ, ◌+◌, Bool, not, ◌||◌, List, [], ◌∷◌, ◌++◌, Option, none, some, Text, Map, lookup, put,
  split_on, length, take, drop, ltb, ◌==◌, if◌then◌else◌,
}

pub record TailState : Type 0 where
  pub ino : ℕ
  pub off : ℕ
  pub tail : Text

-- A file as one call finds it: `os.Stat` gives its inode and its size, `os.Open` may fail, and one
-- `Read` gives `limit` of its bytes at most.
pub record File : Type 0 where
  pub ino : ℕ
  pub bytes : Text
  pub readable : Bool
  pub limit : ℕ

-- `lines[len(lines)-1]` and `lines[:len(lines)-1]`.
abbrev pub last_line : List Text → Text
last_line [] = []
last_line (l ∷ []) = l
last_line (l ∷ m ∷ ls) = last_line (m ∷ ls)

abbrev pub whole_lines : List Text → List Text
whole_lines [] = []
whole_lines (l ∷ []) = []
whole_lines (l ∷ m ∷ ls) = l ∷ whole_lines (m ∷ ls)

-- `strings.Join(lines, "\n")`.
abbrev pub join : List Text → Text
join [] = []
join (l ∷ []) = l
join (l ∷ m ∷ ls) = l ++ (b'\n' ∷ join (m ∷ ls))

-- The entry of a path: a new one for a new file, one of another inode, or one that shrank.
abbrev pub entry_for : File → Option TailState → TailState
entry_for fi none = record { ino = fi.ino; off = 0; tail = [] }
entry_for fi (some ent) =
    if not (ent.ino == fi.ino) || ltb (length fi.bytes) ent.off
    then record { ino = fi.ino; off = 0; tail = [] }
    else ent

-- The bytes that the read gives.
abbrev pub chunk : File → TailState → Text
chunk fi ent = take fi.limit (drop ent.off fi.bytes)

abbrev pub data_of : File → TailState → Text
data_of fi ent = ent.tail ++ chunk fi ent

-- What a call makes of the entry, and what it returns.
unfoldable pub read_entry : File → TailState → TailState × Text
read_entry fi ent = if (length fi.bytes == ent.off) || not fi.readable then (ent, []) else (
  record {
    ino = ent.ino;
    off = ent.off + length (chunk fi ent);
    tail = last_line (split_on b'\n' (data_of fi ent));
  },
  join (whole_lines (split_on b'\n' (data_of fi ent))),
)

-- `LogTail.Read`. A file that cannot be found leaves the entries as they are.
unfoldable pub read : Map TailState → Text → Option File → Map TailState × Text
unfolding read_entry
read state path none = (state, [])
read state path (some fi) =
    let (ent, text) = read_entry fi (entry_for fi (lookup path state)) in (put path ent state, text)
