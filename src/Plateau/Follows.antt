-- ===== src/Plateau/Follows.antt =====
-- What the calls of a `LogTail` return, put together, is the log: each line whole, once, in order.
use pg_fuzz.Base.{
  ℕ, zero, suc, ◌+◌, ◌≤◌, ◌≡◌, ◌≢◌, refl, ap, ◌∙◌, sym, inl, inr, not, ◌||◌, List, [], ◌∷◌, ◌++◌,
  append-nil, append_assoc, Text, split_on, split_on-append, ne-split_on, length, take, drop, ◌==◌,
  if◌then◌else◌, Bool-cases, arith,
}
use pg_fuzz.Plateau.Tail.{TailState, File, last_line, whole_lines, join, chunk, data_of, read_entry}

-- The first `off` bytes of the log are these lines, and the unfinished one that is held back.
pub record Follows (bytes : Text) (ent : TailState) (lines : List Text) : Type 0 where
  pub within : ent.off ≤ length bytes
  pub split : split_on b'\n' (take ent.off bytes) ≡ lines ++ ent.tail ∷ []

whole-last : (ls : List Text) → ls ≢ [] → whole_lines ls ++ last_line ls ∷ [] ≡ ls
whole-last [] ne = absurd (ne refl)
whole-last (l ∷ []) ne = refl
whole-last (l ∷ m ∷ ls) ne = ap (◌∷◌ l) (whole-last (m ∷ ls) (λ h. cc))

take-add :
    (n k : ℕ) (bytes : Text)
    → n ≤ length bytes
    → take (n + k) bytes ≡ take n bytes ++ take k (drop n bytes)
take-add zero k bytes h = let e : 0 + k ≡ k = omega arith in rw e refl
take-add (suc n) k [] h = absurd (omega arith)
take-add (suc n) k (c ∷ bytes) h =
    let e : suc n + k ≡ suc (n + k) = omega arith in
    rw e (ap (◌∷◌ c) (take-add n k bytes (omega arith)))

take-length-take : (k : ℕ) (s : Text) → take (length (take k s)) s ≡ take k s
take-length-take zero s = refl
take-length-take (suc k) [] = refl
take-length-take (suc k) (c ∷ s) = ap (◌∷◌ c) (take-length-take k s)

le-length-take : (k : ℕ) (s : Text) → length (take k s) ≤ length s
le-length-take zero s = omega arith
le-length-take (suc k) [] = omega arith
le-length-take (suc k) (c ∷ s) = omega (arith, le-length-take k s)

length-drop : (n : ℕ) (s : Text) → n ≤ length s → n + length (drop n s) ≡ length s
length-drop zero s h = omega arith
length-drop (suc n) [] h = absurd (omega arith)
length-drop (suc n) (c ∷ s) h = omega (arith, length-drop n s (omega arith))

-- The lines that a call takes off.
abbrev pub taken : File → TailState → List Text
taken fi ent =
    if (length fi.bytes == ent.off) || not fi.readable
    then []
    else whole_lines (split_on b'\n' (data_of fi ent))

-- The bytes up to the new offset are those up to the old one, and the chunk.
take-chunk :
    (fi : File) (ent : TailState)
    → ent.off ≤ length fi.bytes
    → take (ent.off + length (chunk fi ent)) fi.bytes ≡ take ent.off fi.bytes ++ chunk fi ent
take-chunk fi ent h =
    take-add ent.off (length (chunk fi ent)) fi.bytes h
    ∙ ap (λ q. take ent.off fi.bytes ++ q) (take-length-take fi.limit (drop ent.off fi.bytes))

-- A call on a log that it has followed so far follows it on: the lines it returns, joined by
-- newlines, come behind those of the calls before, and the bytes read are these lines and the
-- unfinished one, which is held back.
pub read_entry-Follows :
    (fi : File) (ent : TailState) (lines : List Text)
    → Follows fi.bytes ent lines
    → Follows fi.bytes (read_entry fi ent).0 (lines ++ taken fi ent)
      × ((read_entry fi ent).1 ≡ join (taken fi ent))
unfolding read_entry
read_entry-Follows fi ent lines w =
    elim (Bool-cases ((length fi.bytes == ent.off) || not fi.readable)) [
      | inl e ↦ rw (e, append-nil lines) (w, refl)
      | inr e ↦
          let fields = split_on b'\n' (data_of fi ent) in
          let on =
            split_on-append b'\n' (take ent.off fi.bytes) (chunk fi ent) lines ent.tail w.split in
          let cut = whole-last fields (ne-split_on b'\n' (data_of fi ent)) in
          rw e (
            record {
              within = omega (
                arith,
                w.within,
                le-length-take fi.limit (drop ent.off fi.bytes),
                length-drop ent.off fi.bytes w.within,
              );
              split =
                  ap (split_on b'\n') (take-chunk fi ent w.within)
                  ∙ on
                  ∙ ap (λ q. lines ++ q) (sym cut)
                  ∙ sym (append_assoc lines (whole_lines fields) (last_line fields ∷ []));
            },
            refl,
          )
    ]
