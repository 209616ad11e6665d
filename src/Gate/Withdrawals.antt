-- ===== src/Gate/Withdrawals.antt =====
-- What a round adds to the streak of a token, and when a row is called withdrawable.
use pg_fuzz.Base.{
  ℕ, suc, ◌+◌, ◌≤◌, ◌≡◌, ◌↔◌, refl, ap, ◌∙◌, inl, inr, Bool, true, false, not, ◌&&◌, ◌||◌, List, [],
  ◌∷◌, ◌++◌, map, Text, eq, eq_iff, less, insert_by, sort_by, keep, holds, holds-sort_by, ltb,
  if◌then◌else◌, length, Bool-cases, append-nil, arith, ◌<◌, All,
}
use mathlib.Core.List.{reverse, reverse-append}
use pg_fuzz.Gate.Series.{
  UbsanRound, record_ubsan_round, counts_for, streak, absent_streak, is_quiet, is_withdrawable,
  quiet_details, is_alarm, withdrawal_details, ubsan_withdrawals,
}
use pg_fuzz.Gate.Quiet.{QuietTwice, absent_streak_iff, is_alarm_iff}
use pg_fuzz.Gate.Verdict.{Detail, withdrawable}

length-insert_by : (x : Text) (ys : List Text) → length (insert_by less x ys) ≡ suc (length ys)
length-insert_by x [] = refl
length-insert_by x (y ∷ ys) = ground (arith, length-insert_by x ys)

length-sort_by : (xs : List Text) → length (sort_by less xs) ≡ length xs
length-sort_by [] = refl
length-sort_by (x ∷ xs) = omega (arith, length-insert_by x (sort_by less xs), length-sort_by xs)

keep-append :
    (p : UbsanRound → Bool) (rs qs : List UbsanRound) → keep p (rs ++ qs) ≡ keep p rs ++ keep p qs
keep-append p [] qs = refl
keep-append p (r ∷ rs) qs = ground (arith, keep-append p rs qs)

-- What a recorded round makes of a streak.
abbrev pub streak_after : Text → Text → UbsanRound → ℕ → ℕ
streak_after ws token r n =
    if eq r.ws ws && ltb 0 (length r.sites) then if holds token r.sites then 0 else n + 1 else n

-- A recorded round of another workspace, or one that saw no site, leaves the streak of a token as it
-- is. Any other ends it if the token fired, and adds one if it did not.
pub absent_streak-record_ubsan_round :
    (series : List UbsanRound) (r : UbsanRound) (ws token : Text)
    → absent_streak (record_ubsan_round series r) ws token
      ≡ streak_after ws token r (absent_streak series ws token)
unfolding absent_streak record_ubsan_round
absent_streak-record_ubsan_round series r ws token =
    let sorted : UbsanRound = record r {
      sites = sort_by less r.sites;
      informative = ltb 0 (length (sort_by less r.sites));
    } in
    let kept = keep (counts_for ws) series in
    let split = keep-append (counts_for ws) series (sorted ∷ []) in
    elim (Bool-cases (eq r.ws ws && ltb 0 (length r.sites))) [
      | inl e ↦
          let last : keep (counts_for ws) (sorted ∷ []) ≡ sorted ∷ [] =
            rw (length-sort_by r.sites, e) refl in
          ap (λ rs. streak token (reverse rs)) (split ∙ ap (λ q. kept ++ q) last)
          ∙ ap (streak token) (reverse-append kept (sorted ∷ []))
          ∙ rw e (
              ap (λ b. if b then 0 else streak token (reverse kept) + 1)
                (holds-sort_by token r.sites))
      | inr e ↦
          let last : keep (counts_for ws) (sorted ∷ []) ≡ [] =
            rw (length-sort_by r.sites, e) refl in
          rw e (
            ap (λ rs. streak token (reverse rs))
              (split ∙ ap (λ q. kept ++ q) last ∙ append-nil kept))
    ]

-- Whether the details call the row of a token withdrawable.
abbrev pub is_withdrawable_row : Text → Detail → Bool
is_withdrawable_row token (withdrawable t) = eq t token
is_withdrawable_row token _ = false

abbrev pub withdraws : Text → List Detail → Bool
withdraws token [] = false
withdraws token (d ∷ ds) = is_withdrawable_row token d || withdraws token ds

withdraws-map :
    (token : Text) (ts : List Text) (ds : List Detail)
    → withdraws token (map withdrawable ts ++ ds) ≡ holds token ts || withdraws token ds
unfolding holds
withdraws-map token [] ds = refl
withdraws-map token (t ∷ ts) ds = ground (arith, withdraws-map token ts ds)

withdraws-quiet_details :
    (series : List UbsanRound) (ws token : Text) (ts : List Text)
    → withdraws token (quiet_details series ws ts) ≡ false
withdraws-quiet_details series ws token [] = refl
withdraws-quiet_details series ws token (t ∷ ts) =
    ground (arith, withdraws-quiet_details series ws token ts)

holds-keep : (p : Text → Bool) (k : Text) (ts : List Text) → holds k (keep p ts) ≡ holds k ts && p k
unfolding holds
holds-keep p k [] = refl
holds-keep p k (t ∷ ts) = elim (Bool-cases (eq t k)) [
  | inl e ↦ rw ((eq_iff t k).0 e) (ground (arith, holds-keep p k ts, (eq_iff k k).1 refl))
  | inr e ↦ ground (arith, holds-keep p k ts)
]

withdraws-withdrawal_details :
    (series : List UbsanRound) (ws token : Text) (accepted silent : List Text)
    → withdraws token (withdrawal_details series ws accepted silent)
      ≡ not (is_alarm accepted silent) && (holds token silent && is_withdrawable series ws token)
unfolding withdrawal_details
withdraws-withdrawal_details series ws token accepted silent =
    elim (Bool-cases (is_alarm accepted silent)) [
      | inl e ↦ rw e refl
      | inr e ↦
          let rows = keep (is_withdrawable series ws) silent in
          let stay = quiet_details series ws (sort_by less silent) in
          rw e (
            ground (
              arith,
              withdraws-map token (sort_by less rows) stay,
              withdraws-quiet_details series ws token (sort_by less silent),
              holds-sort_by token rows,
              holds-keep (is_withdrawable series ws) token silent,
            ))
    ]

withdraws_iff :
    (series : List UbsanRound) (ws token : Text) (accepted seen : List Text)
    → (withdraws token (ubsan_withdrawals series ws accepted seen).detail ≡ true) ↔ (
        (holds token accepted ≡ true)
        × (holds token seen ≡ false)
        × (2 ≤ absent_streak series ws token)
        × (is_alarm accepted (keep (is_quiet seen) accepted) ≡ false))
unfolding ubsan_withdrawals holds
withdraws_iff series ws token [] seen = (λ h. cc, λ h. cc)
withdraws_iff series ws token (t ∷ ts) seen =
    let said =
      withdraws-withdrawal_details series ws token (t ∷ ts) (keep (is_quiet seen) (t ∷ ts)) in
    let silent = holds-keep (is_quiet seen) token (t ∷ ts) in
    (λ h. ground (arith, said, silent), λ h. ground (arith, said, silent))

-- A row is called withdrawable exactly when it is accepted, has not fired in this round, and the
-- recorded rounds of the workspace that saw a site end in two in which it had not; but none is while
-- more than one row is accepted and none of them has fired in this round.
pub ubsan_withdrawals_iff :
    (series : List UbsanRound) (ws token : Text) (accepted seen : List Text)
    → (withdraws token (ubsan_withdrawals series ws accepted seen).detail ≡ true) ↔ (
        (holds token accepted ≡ true)
        × (holds token seen ≡ false)
        × QuietTwice series ws token
        × (¬ ((1 < length accepted) × All (λ t. holds t seen ≡ false) accepted)))
ubsan_withdrawals_iff series ws token accepted seen =
    let (says, said_by) = withdraws_iff series ws token accepted seen in
    let (twice, streaks) = absent_streak_iff series ws token in
    let (loud, no_alarm) = is_alarm_iff accepted seen in
    (
      λ h. let (a, q, s, l) = says h in (a, q, twice s, loud l),
      λ (a, q, s, l). said_by (a, q, streaks s, no_alarm l),
    )
