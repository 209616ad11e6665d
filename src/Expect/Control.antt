-- ===== src/Expect/Control.antt =====
-- go/internal/expect/expect.go: `Load`, `Check` and `Missing`.
use pg_fuzz.Base.{
  ℕ, ◌+◌, ◌≡◌, ◌↔◌, refl, inl, inr, Bool, true, not, ◌&&◌, ◌||◌, List, [], ◌∷◌, Option, none, some,
  Text, codes, is_empty, holds, split_on, trim_space, has_prefix, length, get_elem?, or_else, All,
  ltb, if◌then◌else◌, Bool-cases, arith,
}
use pg_fuzz.Gate.Ubsan.{applies}

pub record Want : Type 0 where
  pub function : Text
  pub scope : List Text
  pub file : Text
  pub class : Text
  pub ref : Text
  pub added : Text

-- A column, trimmed; nothing if the row is shorter.
abbrev pub column : List Text → ℕ → Text
column cols i = trim_space (or_else (get_elem? cols i) [])

abbrev pub want_in : List Text → Want
want_in cols = record {
  function = column cols 0;
  scope = split_on b',' (column cols 1);
  file = column cols 2;
  class = column cols 3;
  ref = column cols 4;
  added = column cols 5;
}

-- A row of fewer than four columns is left out, as an empty one and a comment are.
unfoldable pub load_line : Text → Option Want
load_line raw =
    let line = trim_space raw in
    if is_empty line || has_prefix line (codes "#")
    then none
    else if ltb (length (split_on b'\t' line)) 4
    then none
    else some (want_in (split_on b'\t' line))

abbrev onto_wants : Option Want → List Want → List Want
onto_wants none ws = ws
onto_wants (some w) ws = w ∷ ws

-- `Load`, on the lines of the file.
unfoldable pub load : List Text → List Want
unfolding load_line
load [] = []
load (l ∷ ls) = onto_wants (load_line l) (load ls)

pub record Result : Type 0 where
  pub want : Want
  pub found : Bool
  pub reported : Bool

-- `Result.OK`.
abbrev pub ok : Result → Bool
ok r = r.found && r.reported

-- `Missing`.
unfoldable pub missing : List Result → ℕ
missing [] = 0
missing (r ∷ rs) = (if ok r then 0 else 1) + missing rs

module _ (glob : Text → Text → Bool) where
  -- `Want.InScope`, which asks the gate's.
  abbrev pub want_in_scope : Want → Text → Bool
  want_in_scope w ws =
      applies glob (record { function = []; scope = w.scope; site = []; class = [] }) ws

  -- `Check`, on what was seen and reported.
  unfoldable pub check_wants : List Want → Text → List Text → List Text → List Result
  check_wants [] ws seen reported = []
  check_wants (w ∷ wants) ws seen reported =
      let rest = check_wants wants ws seen reported in
      if want_in_scope w ws
      then record { want = w; found = holds w.function seen; reported = holds w.file reported }
        ∷ rest
      else rest

  -- A finding that was made, or one that is not asked of this workspace.
  abbrev pub is_met : Text → List Text → List Text → Want → Bool
  is_met ws seen reported w =
      not (want_in_scope w ws) || (holds w.function seen && holds w.file reported)

  -- Nothing is missing exactly when each finding in the scope of the workspace was seen by its
  -- function and reported by its file.
  pub missing-check_wants :
      (wants : List Want) (ws : Text) (seen reported : List Text)
      → (missing (check_wants wants ws seen reported) ≡ 0)
        ↔ All (λ w. is_met ws seen reported w ≡ true) wants
  unfolding missing check_wants
  missing-check_wants [] ws seen reported = (λ h. tt, λ h. refl)
  missing-check_wants (w ∷ wants) ws seen reported =
      let rest = missing-check_wants wants ws seen reported in
      elim (Bool-cases (want_in_scope w ws)) [
        | inl inside ↦ elim (Bool-cases (holds w.function seen && holds w.file reported)) [
          | inl met ↦
              rw (inside, met) (λ h. (refl, rest.0 (omega arith)), λ h. omega (arith, rest.1 h.1))
          | inr unmet ↦ rw (inside, unmet) (λ h. absurd (omega arith), λ h. cc)
        ]
        | inr outside ↦ rw outside (λ h. (refl, rest.0 h), λ h. rest.1 h.1)
      ]
