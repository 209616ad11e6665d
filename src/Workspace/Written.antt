-- ===== src/Workspace/Written.antt =====
-- The lines of the file that `Set` writes: those that it kept, and the new one.
use pg_fuzz.Base.{
  Text, List, [], ◌∷◌, Bool, true, false, Option, none, some, is_empty, trim_space, keep, split_on,
  has_newline, All, any_of, length, leb, scan_lines, scan_lines-join_lines, split_on-scan_lines,
  split_on_free, ◌++◌, ◌&&◌, not, if◌then◌else◌, ◌≡◌, ◌≢◌, refl, ap, ◌∙◌, sym, subst, inl, inr,
  arith, Bool-cases,
}
use pg_fuzz.Workspace.Conf.{max_line}
use pg_fuzz.Workspace.Edit.{drops, is_none, drop_blank, kept_lines, conf_entry, set}

-- Every line that is written is one line.
All-keep :
    (P : Text → Bool) (p : Text → Bool) (ls : List Text)
    → All (λ l. P l ≡ false) ls
    → All (λ l. P l ≡ false) (keep p ls)
All-keep P p [] a = tt
All-keep P p (l ∷ ls) (h, a) = elim (Bool-cases (p l)) [
  | inl e ↦ rw e (h, All-keep P p ls a)
  | inr e ↦ rw e (All-keep P p ls a)
]

All-full :
    (P : Text → Bool) (b : Bool) (l : Text) (rest : List Text)
    → P l ≡ false
    → All (λ l. P l ≡ false) rest
    → All (λ l. P l ≡ false) (if b then [] else l ∷ rest)
All-full P true l rest h a = tt
All-full P false l rest h a = (h, a)

All-drop_blank :
    (P : Text → Bool) (ls : List Text)
    → All (λ l. P l ≡ false) ls
    → All (λ l. P l ≡ false) (drop_blank ls)
unfolding drop_blank
All-drop_blank P [] a = tt
All-drop_blank P (l ∷ ls) (h, a) =
    All-full P (is_none (drop_blank ls) && is_empty (trim_space l)) l (drop_blank ls) h
      (All-drop_blank P ls a)

All-snoc :
    (P : Text → Bool) (ls : List Text) (l : Text)
    → All (λ l. P l ≡ false) ls
    → P l ≡ false
    → All (λ l. P l ≡ false) (ls ++ l ∷ [])
All-snoc P [] l a h = (h, tt)
All-snoc P (m ∷ ls) l (g, a) h = (g, All-snoc P ls l a h)

kept_lines-free :
    (k : Text) (file : Option Text) → All (λ l. has_newline l ≡ false) (kept_lines k file)
unfolding kept_lines
kept_lines-free k none = tt
kept_lines-free k (some s) =
    All-drop_blank has_newline (keep (λ l. not (drops k l)) (split_on b'\n' s))
      (All-keep has_newline (λ l. not (drops k l)) (split_on b'\n' s) (split_on_free s))

ne-snoc : (ls : List Text) (l : Text) → (ls ++ l ∷ []) ≢ []
ne-snoc [] l h = cc
ne-snoc (m ∷ ls) l h = cc

pub scan_lines-set :
    (k v : Text) (file : Option Text)
    → has_newline (conf_entry k v) ≡ false
    → scan_lines (set k v file) ≡ kept_lines k file ++ conf_entry k v ∷ []
unfolding set
scan_lines-set k v file h =
    scan_lines-join_lines (kept_lines k file ++ conf_entry k v ∷ [])
      (ne-snoc (kept_lines k file) (conf_entry k v))
      (All-snoc has_newline (kept_lines k file) (conf_entry k v) (kept_lines-free k file) h)

abbrev pub too_long : Text → Bool
too_long l = leb max_line (length l)

any_of-All : (P : Text → Bool) (ls : List Text) → any_of P ls ≡ false → All (λ l. P l ≡ false) ls
any_of-All P [] h = tt
any_of-All P (l ∷ ls) h = (ground (arith, h), any_of-All P ls (ground (arith, h)))

All-any_of : (P : Text → Bool) (ls : List Text) → All (λ l. P l ≡ false) ls → any_of P ls ≡ false
All-any_of P [] a = refl
All-any_of P (l ∷ ls) (h, a) = rw h (All-any_of P ls a)

-- A final empty line is short.
split_on-short :
    (s : Text)
    → any_of too_long (scan_lines s) ≡ false
    → All (λ l. too_long l ≡ false) (split_on b'\n' s)
split_on-short s h = elim (split_on-scan_lines s) [
  | inl e ↦
      subst (λ ls. All (λ l. too_long l ≡ false) ls) (sym e) (any_of-All too_long (scan_lines s) h)
  | inr e ↦
      subst (λ ls. All (λ l. too_long l ≡ false) ls) (sym e)
        (All-snoc too_long (scan_lines s) [] (any_of-All too_long (scan_lines s) h) refl)
]

-- Where the lines that were read are short and the new one is, so are all that are written.
pub set_short :
    (k v s : Text)
    → has_newline (conf_entry k v) ≡ false
    → too_long (conf_entry k v) ≡ false
    → any_of too_long (scan_lines s) ≡ false
    → any_of too_long (scan_lines (set k v (some s))) ≡ false
unfolding kept_lines
set_short k v s n t h =
    let kept : All (λ l. too_long l ≡ false) (kept_lines k (some s)) =
      All-drop_blank too_long (keep (λ l. not (drops k l)) (split_on b'\n' s))
        (All-keep too_long (λ l. not (drops k l)) (split_on b'\n' s) (split_on-short s h)) in
    ap (any_of too_long) (scan_lines-set k v (some s) n)
    ∙ All-any_of too_long (kept_lines k (some s) ++ conf_entry k v ∷ [])
        (All-snoc too_long (kept_lines k (some s)) (conf_entry k v) kept t)
