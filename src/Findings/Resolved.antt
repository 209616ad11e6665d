-- ===== src/Findings/Resolved.antt =====
-- A finding is attributed to a campaign exactly when it is the only one that its workspaces resolve to.
use pg_fuzz.Base.{
  Bool, false, ◌||◌, List, [], ◌∷◌, ◌++◌, Option, none, some, Text, Map, eq, eq_iff, eq_refl, holds,
  lookup_or, any_of, ◌≡◌, ◌↔◌, refl, ap, ◌∙◌, sym, inl, inr, arith, Bool-cases,
}
use pg_fuzz.Findings.Campaigns.{add_key, add_keys, seen_campaigns, campaign_for, only_one}

holds-snoc : (k c : Text) (ks : List Text) → holds k (ks ++ c ∷ []) ≡ holds k ks || eq c k
unfolding holds
holds-snoc k c [] = ground arith
holds-snoc k c (j ∷ ks) = ground (arith, holds-snoc k c ks)

holds-add_key : (k c : Text) (ks : List Text) → holds k (add_key c ks) ≡ holds k ks || eq c k
unfolding add_key
holds-add_key k c ks = elim (Bool-cases (holds c ks)) [
  | inr e ↦ rw e (holds-snoc k c ks)
  | inl e ↦ rw e (elim (Bool-cases (eq c k)) [
    | inl q ↦ rw q (ap (λ j. holds j ks) (sym ((eq_iff c k).0 q)) ∙ ground (arith, e))
    | inr q ↦ rw q (ground arith)
  ])
]

holds-add_keys :
    (k : Text) (cs ks : List Text) → holds k (add_keys cs ks) ≡ holds k ks || holds k cs
unfolding add_keys holds
holds-add_keys k [] ks = ground arith
holds-add_keys k (c ∷ cs) ks =
    ground (arith, holds-add_keys k cs (add_key c ks), holds-add_key k c ks)

-- The workspaces named resolve to the campaign.
abbrev pub resolves : List Text → Map (List Text) → Text → Bool
resolves named by_ws k = any_of (λ ws. holds k (lookup_or [] ws by_ws)) named

holds-seen_campaigns :
    (k : Text) (named : List Text) (by_ws : Map (List Text)) (ks : List Text)
    → holds k (seen_campaigns named by_ws ks) ≡ holds k ks || resolves named by_ws k
unfolding seen_campaigns
holds-seen_campaigns k [] by_ws ks = ground arith
holds-seen_campaigns k (ws ∷ named) by_ws ks = ground (
  arith,
  holds-seen_campaigns k named by_ws (add_keys (lookup_or [] ws by_ws) ks),
  holds-add_keys k (lookup_or [] ws by_ws) ks,
)

abbrev Distinct : List Text → Type 0
Distinct [] = Unit
Distinct (k ∷ ks) = (holds k ks ≡ false) × Distinct ks

Distinct-snoc :
    (c : Text) (ks : List Text) → holds c ks ≡ false → Distinct ks → Distinct (ks ++ c ∷ [])
unfolding holds
Distinct-snoc c [] h d = (refl, tt)
Distinct-snoc c (k ∷ ks) h (e, d) = (
  holds-snoc k c ks ∙ ground (arith, e, h, eq_iff c k, eq_iff k c),
  Distinct-snoc c ks (ground (arith, h)) d,
)

Distinct-add_key : (c : Text) (ks : List Text) → Distinct ks → Distinct (add_key c ks)
unfolding add_key
Distinct-add_key c ks d = elim (Bool-cases (holds c ks)) [
  | inl e ↦ rw e d
  | inr e ↦ rw e (Distinct-snoc c ks e d)
]

Distinct-add_keys : (cs ks : List Text) → Distinct ks → Distinct (add_keys cs ks)
unfolding add_keys
Distinct-add_keys [] ks d = d
Distinct-add_keys (c ∷ cs) ks d = Distinct-add_keys cs (add_key c ks) (Distinct-add_key c ks d)

Distinct-seen :
    (named : List Text) (by_ws : Map (List Text)) (ks : List Text)
    → Distinct ks
    → Distinct (seen_campaigns named by_ws ks)
unfolding seen_campaigns
Distinct-seen [] by_ws ks d = d
Distinct-seen (ws ∷ named) by_ws ks d =
    Distinct-seen named by_ws (add_keys (lookup_or [] ws by_ws) ks)
      (Distinct-add_keys (lookup_or [] ws by_ws) ks d)

-- A list without duplicates whose elements are one campaign is that campaign alone.
only_one_iff :
    (c : Text) (ks : List Text)
    → Distinct ks
    → (only_one ks ≡ some c) ↔ ((k : Text) → holds k ks ≡ eq c k)
unfolding holds
only_one_iff c [] d = ((λ h. absurd (cc)), λ h. absurd (ground (arith, h c, eq_refl c)))
only_one_iff c (k ∷ []) d = (
  (λ h j. ground (arith, ap (λ o. is_one o j) h)),
  λ h. ap some (sym ((eq_iff c k).0 (ground (arith, h k, eq_refl k)))),
)
  where
    is_one : Option Text → Text → Bool
    is_one none j = false
    is_one (some a) j = eq a j
only_one_iff c (j ∷ k ∷ ks) d = (
  (λ h. absurd (cc)),
  λ h.
      absurd
        (ground (arith, d.0, h j, h k, eq_refl j, eq_refl k, eq_iff c j, eq_iff c k, eq_iff k j)),
)

-- A finding is attributed to a campaign exactly when the workspaces that it names resolve to that
-- campaign and to no other.
pub campaign_for_iff :
    (named : List Text) (by_ws : Map (List Text)) (c : Text)
    → (campaign_for named by_ws ≡ some c) ↔ ((k : Text) → resolves named by_ws k ≡ eq c k)
unfolding campaign_for holds
campaign_for_iff named by_ws c =
    let seen = holds-seen_campaigns in
    let both = only_one_iff c (seen_campaigns named by_ws []) (Distinct-seen named by_ws [] tt) in
    (
      λ h k. sym (holds-seen_campaigns k named by_ws []) ∙ both.0 h k,
      λ h. both.1 (λ k. holds-seen_campaigns k named by_ws [] ∙ h k),
    )
