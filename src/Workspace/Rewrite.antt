-- ===== src/Workspace/Rewrite.antt =====
-- What `Load` reads after `Set` has written: the key that was set, and every other key as before.
use pg_fuzz.Base.{
  any_of, length, leb, lookup_or, Text, Map, List, [], ◌∷◌, true, false, Option, none, some, codes,
  eq, eq_iff, is_empty, has_prefix, trim_space, cut_at, scan_lines, lookup, lookup-put, keep,
  split_on, key_of, trimmed, trimmed-cut_at, has_newline, split_on-scan_lines, ◌++◌, ◌&&◌, ◌||◌,
  not, if◌then◌else◌, ◌≡◌, refl, ap, ◌∙◌, sym, inl, inr, arith, Bool-cases, Option-cases,
}
use pg_fuzz.Workspace.Conf.{
  Conf, project_of, max_line, conf_line, assign, read_conf, Loaded, loaded, failed, load_conf,
}
use pg_fuzz.Workspace.Written.{scan_lines-set, too_long, set_short}
use pg_fuzz.Workspace.Edit.{names_key, drops, is_none, drop_blank, kept_lines, conf_entry, set}

-- What a file assigns, whatever the length of its lines; a file that cannot be read assigns nothing.
abbrev pub values : Option Text → Map Text
values none = []
values (some s) = read_conf (scan_lines s) []

-- Two maps that give a key the same value.
abbrev Agree : Text → Map Text → Map Text → Type 0
Agree j m n = lookup j m ≡ lookup j n

assign-Agree :
    (j : Text) (o : Option (Text × Text)) (m n : Map Text)
    → Agree j m n
    → Agree j (assign o m) (assign o n)
assign-Agree j none m n h = h
assign-Agree j (some (k, v)) m n h = rw (lookup-put k j v m, lookup-put k j v n, h) refl

read_conf-Agree :
    (j : Text) (ls : List Text) (m n : Map Text)
    → Agree j m n
    → Agree j (read_conf ls m) (read_conf ls n)
unfolding read_conf
read_conf-Agree j [] m n h = h
read_conf-Agree j (l ∷ ls) m n h =
    read_conf-Agree j ls (assign (conf_line l) m) (assign (conf_line l) n)
      (assign-Agree j (conf_line l) m n h)

key_of-conf_line :
    (l k v : Text)
    → conf_line l ≡ some (k, v)
    → trimmed (key_of (cut_at b'=' (trim_space l))) ≡ some k
unfolding conf_line
key_of-conf_line l k v h =
    elim (Bool-cases (is_empty (trim_space l) || has_prefix (trim_space l) (codes "#"))) [
      | inl b ↦ ground (arith, h, b)
      | inr b ↦ ground (arith, h, b)
    ]

-- The key that a line assigns is the one that `Set` sees in it.
conf_line-drops : (j l v : Text) (k : Text) → conf_line l ≡ some (k, v) → drops j l ≡ eq k j
unfolding drops
conf_line-drops j l v k h =
    ap (names_key j) (sym (trimmed-cut_at b'=' l refl) ∙ key_of-conf_line l k v h)

-- A line that is left out assigns no other key.
assign-dropped :
    (k j l : Text) (m : Map Text)
    → drops k l ≡ true
    → eq k j ≡ false
    → Agree j (assign (conf_line l) m) m
assign-dropped k j l m d e = elim (Option-cases (conf_line l)) [
  | inl h ↦ rw h refl
  | inr ((i, v), h) ↦
      rw (h, lookup-put i j v m)
        (ground (arith, d, e, conf_line-drops k l v i h, eq_iff i k, eq_iff i j, eq_iff k j))
]

keep-Agree :
    (k j : Text) (ls : List Text) (m : Map Text)
    → eq k j ≡ false
    → Agree j (read_conf (keep (λ l. not (drops k l)) ls) m) (read_conf ls m)
unfolding read_conf
keep-Agree k j [] m e = refl
keep-Agree k j (l ∷ ls) m e = elim (Bool-cases (drops k l)) [
  | inl d ↦ rw d (
      keep-Agree k j ls m e
      ∙ read_conf-Agree j ls m (assign (conf_line l) m) (sym (assign-dropped k j l m d e)))
  | inr d ↦ rw d (keep-Agree k j ls (assign (conf_line l) m) e)
]

trimmed_nil : is_empty (trim_space []) ≡ true
unfolding trim_space
trimmed_nil = refl

conf_line-blank : (l : Text) → is_empty (trim_space l) ≡ true → conf_line l ≡ none
unfolding conf_line
conf_line-blank l h = rw h refl

read_conf-full :
    (l : Text) (rest ls : List Text) (m : Map Text)
    → ((n : Map Text) → read_conf rest n ≡ read_conf ls n)
    → read_conf (if is_none rest && is_empty (trim_space l) then [] else l ∷ rest) m
      ≡ read_conf ls (assign (conf_line l) m)
unfolding read_conf
read_conf-full l (r ∷ rest) ls m h = h (assign (conf_line l) m)
read_conf-full l [] ls m h = elim (Bool-cases (is_empty (trim_space l))) [
  | inl b ↦ rw (b, conf_line-blank l b) (h m)
  | inr b ↦ rw b (h (assign (conf_line l) m))
]

read_conf-drop_blank :
    (ls : List Text) (m : Map Text) → read_conf (drop_blank ls) m ≡ read_conf ls m
unfolding read_conf drop_blank
read_conf-drop_blank [] m = refl
read_conf-drop_blank (l ∷ ls) m =
    read_conf-full l (drop_blank ls) ls m (λ n. read_conf-drop_blank ls n)

read_conf-append :
    (ls ms : List Text) (m : Map Text) → read_conf (ls ++ ms) m ≡ read_conf ms (read_conf ls m)
unfolding read_conf
read_conf-append [] ms m = refl
read_conf-append (l ∷ ls) ms m = read_conf-append ls ms (assign (conf_line l) m)

read_conf-one : (l : Text) (m : Map Text) → read_conf (l ∷ []) m ≡ assign (conf_line l) m
unfolding read_conf
read_conf-one l m = refl

read_conf-empty : (m : Map Text) → read_conf ([] ∷ []) m ≡ m
read_conf-empty m = read_conf-one [] m ∙ ap (λ o. assign o m) (conf_line-blank [] trimmed_nil)

read_conf-split_on :
    (s : Text) (m : Map Text) → read_conf (split_on b'\n' s) m ≡ read_conf (scan_lines s) m
read_conf-split_on s m = elim (split_on-scan_lines s) [
  | inl h ↦ ap (λ ls. read_conf ls m) h
  | inr h ↦
      ap (λ ls. read_conf ls m) h
      ∙ read_conf-append (scan_lines s) ([] ∷ []) m
      ∙ read_conf-empty (read_conf (scan_lines s) m)
]

read_conf-kept :
    (k j : Text) (file : Option Text)
    → eq k j ≡ false
    → Agree j (read_conf (kept_lines k file) []) (values file)
unfolding kept_lines read_conf
read_conf-kept k j none e = refl
read_conf-kept k j (some s) e =
    ap (lookup j) (read_conf-drop_blank (keep (λ l. not (drops k l)) (split_on b'\n' s)) [])
    ∙ keep-Agree k j (split_on b'\n' s) [] e
    ∙ ap (lookup j) (read_conf-split_on s [])

-- After `Set` of a key the file gives that key the new value, and every other key the value that it
-- gave before, for every text of the file, one that could not be read counting as empty. The
-- condition is that the line that is written holds no newline and is read as that key and that value:
-- it is no comment, and neither part has spaces around it or, in the key, a `=`.
pub values-set :
    (k v j : Text) (file : Option Text)
    → conf_line (conf_entry k v) ≡ some (k, v)
    → has_newline (conf_entry k v) ≡ false
    → lookup j (values (some (set k v file))) ≡ (if eq k j then some v else lookup j (values file))
values-set k v j file h n =
    ap (λ ls. lookup j (read_conf ls [])) (scan_lines-set k v file n)
    ∙ ap (lookup j) (read_conf-append (kept_lines k file) (conf_entry k v ∷ []) [])
    ∙ ap (lookup j) (read_conf-one (conf_entry k v) (read_conf (kept_lines k file) []))
    ∙ ap (λ o. lookup j (assign o (read_conf (kept_lines k file) []))) h
    ∙ lookup-put k j v (read_conf (kept_lines k file) [])
    ∙ elim (Bool-cases (eq k j)) [ inl e ↦ rw e refl | inr e ↦ rw e (read_conf-kept k j file e) ]

abbrev raw_of : Loaded → Map Text
raw_of (loaded c) = c.raw
raw_of (failed e) = []

-- A file that is read gives the record of its values.
load_conf-values :
    (dir name s : Text) (c : Conf)
    → load_conf dir name (some s) ≡ loaded c
    → (any_of too_long (scan_lines s) ≡ false) × (c.raw ≡ values (some s))
unfolding load_conf
load_conf-values dir name s c h = elim (Bool-cases (any_of too_long (scan_lines s))) [
  | inl b ↦ absurd (cc (rw b at h))
  | inr b ↦ (b, sym (ap raw_of (rw b at h)))
]

load_conf-loaded :
    (dir name s : Text)
    → any_of too_long (scan_lines s) ≡ false
    → (c : Conf) × (load_conf dir name (some s) ≡ loaded c) × (c.raw ≡ values (some s))
unfolding load_conf
load_conf-loaded dir name s b = (
  record {
    path = dir;
    name = name;
    project = project_of name (values (some s));
    ref = lookup_or [] (codes "ref") (values (some s));
    sanitizer = lookup_or [] (codes "sanitizer") (values (some s));
    raw = values (some s);
  },
  rw b refl,
  refl,
)

-- Where `Load` reads a workspace and `Set` then writes a key, `Load` reads the workspace again and
-- finds the new value for that key and the old value, or none, for every other. The conditions are
-- that the line that is written is shorter than the scanner's limit, holds no newline, and is read as
-- that key and that value: it is no comment, and neither part has spaces around it or, in the key,
-- a `=`.
pub load_conf-set :
    (dir name s k v : Text) (c : Conf)
    → load_conf dir name (some s) ≡ loaded c
    → conf_line (conf_entry k v) ≡ some (k, v)
    → has_newline (conf_entry k v) ≡ false
    → leb max_line (length (conf_entry k v)) ≡ false
    → (c' : Conf) × (load_conf dir name (some (set k v (some s))) ≡ loaded c')
      × ((j : Text) → lookup j c'.raw ≡ (if eq k j then some v else lookup j c.raw))
load_conf-set dir name s k v c h e n t =
    let (short, raw) = load_conf-values dir name s c h in
    let (c', found, raw') =
      load_conf-loaded dir name (set k v (some s)) (set_short k v s n t short) in
    (
      c',
      found,
      λ j.
          ap (lookup j) raw'
          ∙ values-set k v j (some s) e n
          ∙ ap (λ m. if eq k j then some v else lookup j m) (sym raw),
    )
