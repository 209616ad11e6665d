-- ===== src/Findings/Scan.antt =====
-- `Scan` of internal/findings/findings.go up to `readMeta`, with `isFindingDir` and `MissingMeta` of
-- meta.go and `MissingCampaign` of campaign.go. A directory's entry has its name, whether it is a
-- directory, and its README.md where that can be read.
use pg_fuzz.Base.{
  is_digit, ℕ, Bool, true, false, not, ◌&&◌, ◌||◌, List, [], ◌∷◌, Option, none, some, Text, codes,
  eq, is_empty, has_prefix, leb, length, take, get_elem?, ◌==◌, sort_by, less, lookup, keep, map,
}
use pg_fuzz.Findings.Areas.{Area, Finding, area_of, overrides}
use pg_fuzz.Findings.Fields.{field}

pub record DirEntry : Type 0 where
  pub name : Text
  pub is_dir : Bool
  pub readme : Option Text

-- The expression `^20\d\d-`.
unfoldable pub is_dated : Text → Bool
is_dated (a ∷ b ∷ c ∷ d ∷ e ∷ s) =
    (a == b'2') && ((b == b'0') && (is_digit c && (is_digit d && (e == b'-'))))
is_dated s = false

-- The entries that `Scan` takes.
unfoldable pub is_scanned : Text → Bool
is_scanned n = not (has_prefix n (codes ".") || (eq n (codes "reports") || is_dated n))

abbrev why_of : Option (Area × Text) → Text
why_of none = []
why_of (some (a, why)) = why

-- The finding, before its write-up is read.
abbrev bare_finding : Text → Finding
bare_finding n = record {
  name = n;
  area = area_of n;
  title = [];
  status = [];
  found_by = [];
  cause = [];
  artifacts = 0;
  override = why_of (lookup n overrides);
}

abbrev name_before : Finding → Finding → Bool
name_before a b = less a.name b.name

-- `Scan`; the reader of a write-up is an argument.
unfoldable pub scan_findings : (DirEntry → Finding → Finding) → List DirEntry → List Finding
scan_findings read_meta es = sort_by name_before (
    map (λ (e : DirEntry). read_meta e (bare_finding e.name))
      (keep (λ (e : DirEntry). e.is_dir && is_scanned e.name) es))

abbrev is_at : Option ℕ → ℕ → Bool
is_at none c = false
is_at (some d) c = d == c

unfoldable pub is_finding_dir : Text → Bool
is_finding_dir n = not (
    has_prefix n (codes ".")
    || (eq n (codes "reports")
        || (leb 5 (length n) && (eq (take 2 n) (codes "20") && is_at (get_elem? n 4) b'-'))))

abbrev lacks : Text → Option Text → Bool
lacks name none = true
lacks name (some md) = is_empty (field md name)

abbrev missing_field : Text → List DirEntry → List Text
missing_field name es = sort_by less (
    map (λ (e : DirEntry). e.name)
      (keep (λ (e : DirEntry). (e.is_dir && is_finding_dir e.name) && lacks name e.readme) es))

unfoldable pub missing_meta : List DirEntry → List Text
missing_meta es = missing_field (codes "Found by") es

unfoldable pub missing_campaign : List DirEntry → List Text
missing_campaign es = missing_field (codes "Campaign") es
