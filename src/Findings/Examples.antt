-- ===== src/Findings/Examples.antt =====
-- The findings at concrete inputs.
use pg_fuzz.Base.{
  true, false, List, [], ◌∷◌, ◌++◌, some, none, Text, Map, codes, eq, is_empty, bump, trim_space,
  has_prefix, holds, ◌≡◌, ◌↔◌, refl,
}
use pg_fuzz.Findings.Areas.{Finding, core, area_of, by_targets, by_target_one, target_name}
use pg_fuzz.Findings.Fields.{field, find_value, value_at}
use pg_fuzz.Findings.Scan.{is_scanned, is_dated, is_finding_dir, missing_meta}
use pg_fuzz.Findings.Campaigns.{
  campaign_for, workspace_campaigns, collect, add_campaign, add_key, add_keys, seen_campaigns,
}
use pg_fuzz.Findings.Plans.{Held, plan_for, found_target, workspace_of, is_workspace, artifacts_in}
use pg_fuzz.Findings.Resolved.{resolves, campaign_for_iff}
use pg_fuzz.Findings.Planned.{CanRun, plan_for-CanRun}

abbrev finding : Text → Text → Finding
finding name found_by = record {
  name = name;
  area = area_of name;
  title = [];
  status = [];
  found_by = found_by;
  cause = [];
  artifacts = 0;
  override = [];
}

abbrev leak : Finding
leak = finding (codes "orioledb-leak") (codes "`storage_fuzzer` on pg17-10-add")

abbrev two : List Finding
two = leak ∷ finding (codes "credcheck-crash") (codes "protocol_fuzzer") ∷ []

area_test : area_of (codes "orioledb-vacuum-error-path-leak") ≡ core
unfolding area_of has_prefix
area_test = refl

target_test : target_name (codes "`protocol_fuzzer`") ≡ some (codes "protocol_fuzzer")
unfolding target_name
target_test = refl

systemic_test : (by_targets two).systemic ≡ 1
unfolding by_targets by_target_one target_name bump trim_space has_prefix
systemic_test = refl

-- A field with no value takes the next line.
field_test :
    field (codes "**Found by:**" ++ (b'\n' ∷ b'\n' ∷ codes "**Cause:** a leak")) (codes "Found by")
    ≡ codes "Cause: a leak"
unfolding field find_value value_at trim_space has_prefix
field_test = refl

-- A name that one of the two filters takes for a date.
scan_test : is_scanned (codes "20ab-x") ≡ true
unfolding is_scanned is_dated has_prefix
scan_test = refl

finding_dir_test : is_finding_dir (codes "20ab-x") ≡ false
unfolding is_finding_dir has_prefix
finding_dir_test = refl

missing_test :
    missing_meta (
      record { name = codes "a-leak"; is_dir = true; readme = some (codes "# A leak") }
      ∷ record { name = codes ".git"; is_dir = true; readme = none }
      ∷ [])
    ≡ codes "a-leak" ∷ []
unfolding missing_meta is_finding_dir field find_value value_at has_prefix trim_space
missing_test = refl

abbrev by_ws : Map (List Text)
by_ws = (codes "pg17", codes "june" ∷ []) ∷ (codes "pg16", codes "june" ∷ codes "may" ∷ []) ∷ []

campaign_for_test : campaign_for (codes "pg17" ∷ codes "pg15" ∷ []) by_ws ≡ some (codes "june")
unfolding campaign_for seen_campaigns add_keys add_key holds
campaign_for_test = refl

workspace_campaigns_test :
    workspace_campaigns (
      record { slug = codes "june"; workspaces = codes "pg17" ∷ []; entries = codes "pg17" ∷ [] }
      ∷ [])
    ≡ (codes "pg17", codes "june" ∷ []) ∷ []
unfolding workspace_campaigns collect add_campaign add_key holds
workspace_campaigns_test = refl

campaign_for_iff_example :
    (campaign_for (codes "pg17" ∷ []) by_ws ≡ some (codes "june"))
    ↔ ((k : Text) → resolves (codes "pg17" ∷ []) by_ws k ≡ eq (codes "june") k)
campaign_for_iff_example = campaign_for_iff (codes "pg17" ∷ []) by_ws (codes "june")

abbrev held : Held
held = record {
  has_sql = false;
  has_seed = false;
  files =
      (codes "README.md", codes "f/README.md")
      ∷ (codes "crash-1", codes "f/reproducer/crash-1")
      ∷ [];
}

plan_test : is_empty (plan_for leak held (λ ws. ws)).skip ≡ true
unfolding plan_for found_target workspace_of is_workspace artifacts_in has_prefix holds
plan_test = refl

plan_for-CanRun_example :
    ((plan_for leak held (λ ws. ws)).workspace ≡ workspace_of leak)
    × (is_empty (workspace_of leak) ≡ false)
    × CanRun leak held (plan_for leak held (λ ws. ws))
plan_for-CanRun_example = plan_for-CanRun leak held (λ ws. ws) plan_test
