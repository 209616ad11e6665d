-- ===== src/Campaign/Series.antt =====
-- go/internal/campaign/campaign.go: the series, one line of JSON for each slice. encoding/json is a
-- parameter.
use pg_fuzz.Base.{
  ℕ, ◌≡◌, refl, ap, ◌∙◌, inl, inr, Bool, true, false, ◌||◌, List, [], ◌∷◌, ◌++◌, Option, none, some,
  Text, is_empty, onto_first, ◌==◌, if◌then◌else◌, Bool-cases, Option-cases, ◌≢◌, arith,
}
use pg_fuzz.Float.{Float}

-- `Slice`.
pub record Slice (f : Float) : Type 0 where
  pub run_id : Text
  pub round : ℕ
  pub workspace : Text
  pub target : Text
  pub started : Text
  pub seconds : ℕ
  pub jobs : ℕ
  pub dict : Bool
  pub execs : ℕ
  pub new_units : ℕ
  pub cov : ℕ
  pub ft : ℕ
  pub corpus : ℕ
  pub corpus_before : ℕ
  pub disk_stop : Bool
  pub hung : Bool
  pub peak_rss : ℕ
  pub artifacts : ℕ
  pub artifacts_before : ℕ
  pub artifacts_after : ℕ
  pub slowest : ℕ
  pub cov_start : ℕ
  pub ft_start : ℕ
  pub cov_gained : ℕ
  pub ft_gained : ℕ
  pub last_new_edge_at : ℕ
  pub last_exec_seen : ℕ
  pub saturated_pct : Option f.F
  pub alive : Bool

-- `splitLines`: what follows the last newline is a line only if it is not empty.
unfoldable pub split_lines : Text → List Text
split_lines [] = []
split_lines (c ∷ cs) =
    let rest = split_lines cs in if c == b'\n' then [] ∷ rest else onto_first c rest

module _ (f : Float) (marshal : Slice f → Text) (unmarshal : Text → Option (Slice f)) where
  -- `Series.Append`, on the bytes of the file.
  unfoldable pub append_slice : Text → Slice f → Text
  append_slice bytes s = bytes ++ (marshal s ++ b'\n' ∷ [])

  abbrev and_then : Option (Slice f) → List (Slice f) → List (Slice f)
  and_then none rest = rest
  and_then (some s) rest = s ∷ rest

  unfoldable pub decode_lines : List Text → List (Slice f)
  decode_lines [] = []
  decode_lines (l ∷ ls) =
      let rest = decode_lines ls in if is_empty l then rest else and_then (unmarshal l) rest

  -- `Series.Read`: a line that does not decode is left out.
  unfoldable pub read_series : Text → List (Slice f)
  read_series bytes = decode_lines (split_lines bytes)

  -- Empty, or its last byte is a newline.
  abbrev pub ends_line : Text → Bool
  ends_line [] = true
  ends_line (c ∷ []) = c == b'\n'
  ends_line (c ∷ d ∷ cs) = ends_line (d ∷ cs)

  abbrev pub has_newline : Text → Bool
  has_newline [] = false
  has_newline (c ∷ cs) = (c == b'\n') || has_newline cs

  abbrev next_line : Bool → ℕ → List Text → List Text
  next_line b c ls = if b then [] ∷ ls else onto_first c ls

  next_line-append :
      (b : Bool) (c : ℕ) (xs ys : List Text)
      → xs ≢ []
      → next_line b c (xs ++ ys) ≡ next_line b c xs ++ ys
  next_line-append true c xs ys ne = refl
  next_line-append false c [] ys ne = absurd (ne refl)
  next_line-append false c (x ∷ xs) ys ne = refl

  ne-onto_first : (c : ℕ) (ls : List Text) → onto_first c ls ≢ []
  ne-onto_first c [] h = cc
  ne-onto_first c (l ∷ ls) h = cc

  ne-split_lines : (c : ℕ) (cs : Text) → split_lines (c ∷ cs) ≢ []
  unfolding split_lines
  ne-split_lines c cs = elim (Bool-cases (c == b'\n')) [
    | inl e ↦ rw e (λ h. cc)
    | inr e ↦ rw e (ne-onto_first c (split_lines cs))
  ]

  split_lines-append :
      (s t : Text) → ends_line s ≡ true → split_lines (s ++ t) ≡ split_lines s ++ split_lines t
  unfolding split_lines
  split_lines-append [] t h = refl
  split_lines-append (c ∷ []) t h = rw h refl
  split_lines-append (c ∷ d ∷ cs) t h =
      ap (next_line (c == b'\n') c) (split_lines-append (d ∷ cs) t h)
      ∙ next_line-append (c == b'\n') c (split_lines (d ∷ cs)) (split_lines t) (ne-split_lines d cs)

  split_lines-line : (l : Text) → has_newline l ≡ false → split_lines (l ++ b'\n' ∷ []) ≡ l ∷ []
  unfolding split_lines
  split_lines-line [] h = refl
  split_lines-line (c ∷ l) h = elim (Bool-cases (c == b'\n')) [
    | inl e ↦ ground (arith, h, e)
    | inr e ↦ rw (e, split_lines-line l (ground (arith, h, e))) refl
  ]

  decode_lines-append :
      (ls ms : List Text) → decode_lines (ls ++ ms) ≡ decode_lines ls ++ decode_lines ms
  unfolding decode_lines
  decode_lines-append [] ms = refl
  decode_lines-append (l ∷ ls) ms =
      let rest = decode_lines-append ls ms in
      elim (Bool-cases (is_empty l)) [
        | inl e ↦ rw e rest
        | inr e ↦ elim (Option-cases (unmarshal l)) [
          | inl q ↦ rw (e, q) rest
          | inr (s, q) ↦ rw (e, q) (ap (◌∷◌ s) rest)
        ]
      ]

  -- If the file ends with a newline or is empty, and a slice is written as one line that is not empty
  -- and decodes to it, appending the slice adds it, and only it, behind what is read.
  pub read_series-append_slice :
      (bytes : Text) (s : Slice f)
      → ends_line bytes ≡ true
      → has_newline (marshal s) ≡ false
      → is_empty (marshal s) ≡ false
      → unmarshal (marshal s) ≡ some s
      → read_series (append_slice bytes s) ≡ read_series bytes ++ s ∷ []
  unfolding read_series append_slice decode_lines
  read_series-append_slice bytes s ends line full back =
      ap decode_lines (
        split_lines-append bytes (marshal s ++ b'\n' ∷ []) ends
        ∙ ap (λ ls. split_lines bytes ++ ls) (split_lines-line (marshal s) line))
      ∙ decode_lines-append (split_lines bytes) (marshal s ∷ [])
      ∙ ap (λ ss. decode_lines (split_lines bytes) ++ ss) (rw (full, back) refl)
