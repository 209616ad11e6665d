-- ===== src/Plateau/Reads.antt =====
-- `LogTail.Read` on a log that grew, and on one that was put in its place.
use pg_fuzz.Base.{
  ℕ, zero, suc, ◌≤◌, ◌<◌, ◌≡◌, ◌≢◌, ◌⊎◌, refl, ap, ◌∙◌, inl, inr, List, [], ◌∷◌, ◌++◌, none, some,
  Text, Map, lookup, lookup-put, eq_refl, split_on, length, take, length-append, arith,
}
use pg_fuzz.Plateau.Follows.{Follows, taken, read_entry-Follows}
use pg_fuzz.Plateau.Tail.{TailState, File, join, entry_for, read_entry, read}

take-append : (n : ℕ) (s t : Text) → n ≤ length s → take n (s ++ t) ≡ take n s
take-append zero s t h = refl
take-append (suc n) [] t h = absurd (omega arith)
take-append (suc n) (c ∷ s) t h = ap (◌∷◌ c) (take-append n s t (omega arith))

-- A log that grew is still followed.
Follows-append :
    (bytes more : Text) (ent : TailState) (lines : List Text)
    → Follows bytes ent lines
    → Follows (bytes ++ more) ent lines
Follows-append bytes more ent lines w = record {
  within = omega (arith, w.within, length-append bytes more);
  split = ap (split_on b'\n') (take-append ent.off bytes more w.within) ∙ w.split;
}

-- A new entry has read nothing.
Follows-nil : (bytes : Text) (n : ℕ) → Follows bytes (record { ino = n; off = 0; tail = [] }) []
unfolding split_on
Follows-nil bytes n = record { within = omega arith; split = refl }

-- What a call returns, and the entry it leaves, follow a log from these lines on.
pub record Continues (state : Map TailState) (path : Text) (fi : File) (lines : List Text)
    : Type 0 where
  pub next : TailState
  pub new : List Text
  pub kept : lookup path (read state path (some fi)).0 ≡ some next
  pub returned : (read state path (some fi)).1 ≡ join new
  pub follows : Follows fi.bytes next (lines ++ new)

Follows-Continues :
    (state : Map TailState) (path : Text) (fi : File) (lines : List Text)
    → Follows fi.bytes (entry_for fi (lookup path state)) lines
    → Continues state path fi lines
unfolding read
Follows-Continues state path fi lines w =
    let ent = entry_for fi (lookup path state) in
    let (follows, returned) = read_entry-Follows fi ent lines w in
    record {
      next = (read_entry fi ent).0;
      new = taken fi ent;
      kept = lookup-put path path (read_entry fi ent).0 state ∙ rw (eq_refl path) refl;
      returned = returned;
      follows = follows;
    }

-- If the calls so far gave certain lines of a log, and held back what stands behind them, and the log
-- kept its inode and only grew, then the next call returns lines, joined by newlines, that come right
-- behind them in the log, and again holds back the unfinished one.
pub read-grown :
    (state : Map TailState) (path bytes more : Text) (ent : TailState) (lines : List Text)
    (fi : File)
    → lookup path state ≡ some ent
    → ent.ino ≡ fi.ino
    → fi.bytes ≡ bytes ++ more
    → Follows bytes ent lines
    → Continues state path fi lines
read-grown state path bytes more ent lines fi there same grown w =
    let follows : Follows fi.bytes ent lines = rw grown (Follows-append bytes more ent lines w) in
    let entry : entry_for fi (lookup path state) ≡ ent =
      rw there (ground (arith, follows.within)) in
    Follows-Continues state path fi lines (rw entry follows)

-- A log in the place of another, of another inode or of fewer bytes than were read, is read from its
-- beginning.
pub read-rotated :
    (state : Map TailState) (path : Text) (ent : TailState) (fi : File)
    → lookup path state ≡ some ent
    → (ent.ino ≢ fi.ino) ⊎ (length fi.bytes < ent.off)
    → Continues state path fi []
read-rotated state path ent fi there other =
    let entry : entry_for fi (lookup path state) ≡ record { ino = fi.ino; off = 0; tail = [] } =
      rw there (elim other [ inl h ↦ ground arith | inr h ↦ ground arith ]) in
    Follows-Continues state path fi [] (rw entry (Follows-nil fi.bytes fi.ino))

-- A log that is seen for the first time is read from its beginning.
pub read-new :
    (state : Map TailState) (path : Text) (fi : File)
    → lookup path state ≡ none
    → Continues state path fi []
read-new state path fi h =
    let entry : entry_for fi (lookup path state) ≡ record { ino = fi.ino; off = 0; tail = [] } =
      rw h refl in
    Follows-Continues state path fi [] (rw entry (Follows-nil fi.bytes fi.ino))
