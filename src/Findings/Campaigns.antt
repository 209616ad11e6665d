-- ===== src/Findings/Campaigns.antt =====
-- internal/findings/campaign.go: which campaigns ran a workspace, and the campaign of a finding. A
-- manifest is given as it is decoded; one that cannot be read or decoded is left out.
use pg_fuzz.Base.{
  ◌||◌, List, [], ◌∷◌, ◌++◌, Option, none, some, Text, Map, is_empty, holds, lookup_or, put,
  sort_by, less, if◌then◌else◌,
}

pub record Manifest : Type 0 where
  pub slug : Text
  pub workspaces : List Text
  pub entries : List Text

-- A set, as the list of its keys in the order in which they came.
unfoldable pub add_key : Text → List Text → List Text
add_key k ks = if holds k ks then ks else ks ++ k ∷ []

-- The closure `add`.
unfoldable pub add_campaign : Text → Text → Map (List Text) → Map (List Text)
add_campaign ws slug out =
    if is_empty ws || is_empty slug then out else put ws (add_key slug (lookup_or [] ws out)) out

abbrev add_each : List Text → Text → Map (List Text) → Map (List Text)
add_each [] slug out = out
add_each (ws ∷ wss) slug out = add_each wss slug (add_campaign ws slug out)

unfoldable pub collect : List Manifest → Map (List Text) → Map (List Text)
collect [] out = out
collect (m ∷ ms) out = collect ms (add_each m.entries m.slug (add_each m.workspaces m.slug out))

abbrev sorted : Map (List Text) → Map (List Text)
sorted [] = []
sorted ((ws, slugs) ∷ out) = (ws, sort_by less slugs) ∷ sorted out

unfoldable pub workspace_campaigns : List Manifest → Map (List Text)
workspace_campaigns ms = sorted (collect ms [])

unfoldable pub add_keys : List Text → List Text → List Text
add_keys [] ks = ks
add_keys (c ∷ cs) ks = add_keys cs (add_key c ks)

unfoldable pub seen_campaigns : List Text → Map (List Text) → List Text → List Text
seen_campaigns [] by_ws ks = ks
seen_campaigns (ws ∷ wss) by_ws ks = seen_campaigns wss by_ws (add_keys (lookup_or [] ws by_ws) ks)

abbrev pub only_one : List Text → Option Text
only_one [] = none
only_one (c ∷ []) = some c
only_one (c ∷ d ∷ cs) = none

unfoldable pub campaign_for : List Text → Map (List Text) → Option Text
campaign_for named by_ws = only_one (seen_campaigns named by_ws [])
