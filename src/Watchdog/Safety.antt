-- ===== src/Watchdog/Safety.antt =====
-- When the watchdog acts, and when it kills.
use pg_fuzz.Base.{
  sym, ◌∙◌, Text, List, Bool, true, false, some, is_empty, ltb, ◌+◌, ◌*◌, ◌^◌, ◌≤◌, ◌<◌, ℕ, zero,
  suc, ◌≡◌, ◌↔◌, ◌⊎◌, refl, inl, inr, arith, Bool-cases, Option-cases, any_of, ◌==◌,
}
use pg_fuzz.Watchdog.Command.{is_fuzz, budget_digits, budget_of, target_named}
use pg_fuzz.Watchdog.Sweep.{
  Options, Container, Answers, Event, sigkill, second, int_leb, deadline, wait_down, wait_fuel,
  kill, stop_container, is_overdue, visit,
}

-- How a wait ends: at the first question that finds the container gone while the wait still runs, or
-- when the whole wait is over, and then by less than a second, with every question of it answered by
-- up.
abbrev pub Ended : ℕ → (ℕ → Bool) → ℕ × ℕ → Type 0
Ended term_wait up (waited, next) =
    ((n : ℕ) → n < waited → up n ≡ true)
    × (((up waited ≡ false) × (next ≡ suc waited) × (waited * second < term_wait))
        ⊎ ((term_wait ≤ waited * second)
            × (next ≡ waited)
            × (waited * second < term_wait + second)))

still_up :
    (up : ℕ → Bool) (waited : ℕ)
    → ((n : ℕ) → n < waited → up n ≡ true)
    → up waited ≡ true
    → (n : ℕ) → n < suc waited
    → up n ≡ true
still_up up waited before d n h = elim (Bool-cases (n == waited)) [
  | inl e ↦ let same : n ≡ waited = ground (arith, e) in rw same d
  | inr e ↦ before n (ground (arith, e))
]

wait_down_from :
    (fuel term_wait waited : ℕ) (up : ℕ → Bool)
    → term_wait + second ≤ (fuel + waited) * second
    → waited * second < term_wait + second
    → ((n : ℕ) → n < waited → up n ≡ true)
    → (r : ℕ × ℕ) × (wait_down fuel term_wait up waited ≡ some r) × Ended term_wait up r
unfolding wait_down
wait_down_from zero term_wait waited up h k before = absurd (omega arith)
wait_down_from (suc fuel) term_wait waited up h k before =
    elim (Bool-cases (ltb (waited * second) term_wait)) [
      | inr e ↦ ((waited, waited), rw e refl, (before, inr (ground (arith, e), refl, k)))
      | inl e ↦ elim (Bool-cases (up waited)) [
        | inr d ↦ ((waited, suc waited), rw (e, d) refl, (before, inl (d, refl, ground (arith, e))))
        | inl d ↦
            rw (e, d)
              (wait_down_from fuel term_wait (suc waited) up (omega arith) (ground (arith, e))
                (still_up up waited before d))
      ]
    ]

-- The wait of `sweep` comes to an end on the fuel that it is given, for every wait and all answers:
-- at the first question that finds the container gone while the wait still runs, or, where none of
-- its questions does, when the whole wait is over, and then by less than a second.
pub wait_down_total :
    (term_wait : ℕ) (up : ℕ → Bool)
    → (r : ℕ × ℕ) × (wait_down (wait_fuel term_wait) term_wait up 0 ≡ some r) × Ended term_wait up r
wait_down_total term_wait up =
    wait_down_from (wait_fuel term_wait) term_wait 0 up (omega arith) (omega arith)
      (λ n h. absurd (omega arith))

-- For an age that is not in the future, and a budget and a grace whose sum fits 64 bits, a container
-- is over its time exactly when its age is above the budget and the grace, or when their sum is no
-- longer a positive duration.
pub is_overdue_iff :
    (o : Options) (budget : ℕ) (a : Answers)
    → a.age < 2 ^ 63
    → budget * second + o.grace < 2 ^ 64
    → (is_overdue o budget a ≡ true)
      ↔ ((budget * second + o.grace < a.age) ⊎ (2 ^ 63 ≤ budget * second + o.grace))
unfolding is_overdue int_leb deadline
is_overdue_iff o budget a h k = ground arith

abbrev is_sigkill : Event → Bool
is_sigkill (sigkill id) = true
is_sigkill other = false

abbrev pub kills : List Event → Bool
kills es = any_of is_sigkill es

-- The last question finds a container up that was signalled.
abbrev pub Survived : Options → Answers → Type 0
Survived o a = (r : ℕ × ℕ) × Ended o.term_wait a.up r × (a.up r.1 ≡ true)

kills-kill : (c : Container) (a : Answers) → kills (kill c a) ≡ true
kills-kill c a = refl

-- What a signalled container is killed by.
stop_container-signalled :
    (o : Options) (c : Container) (target : Text) (a : Answers)
    → is_empty target ≡ false
    → a.signalled ≡ true
    → (r : ℕ × ℕ) → wait_down (wait_fuel o.term_wait) o.term_wait a.up 0 ≡ some r
    → kills (stop_container o c target a) ≡ a.up r.1
unfolding stop_container
stop_container-signalled o c target a t s (waited, next) w =
    rw (t, s, w) (elim (Bool-cases (a.up next)) [ inl u ↦ rw u refl | inr u ↦ rw u refl ])

kills-stop_container :
    (o : Options) (c : Container) (target : Text) (a : Answers)
    → kills (stop_container o c target a) ≡ true
    → (is_empty target ≡ true) ⊎ (a.signalled ≡ false) ⊎ Survived o a
kills-stop_container o c target a h = elim (Bool-cases (is_empty target)) [
  | inl t ↦ inl t
  | inr t ↦ elim (Bool-cases a.signalled) [
    | inr s ↦ inr (inl s)
    | inl s ↦
        let (r, w, ended) = wait_down_total o.term_wait a.up in
        inr (inr (r, ended, sym (stop_container-signalled o c target a t s r w) ∙ h))
  ]
]

-- A container is sent SIGKILL only if it is a fuzz container with a budget that is over, and if no
-- target is named in its command, or the signal was not delivered, or the question asked after the
-- wait has ended finds it up.
pub kills-visit :
    (o : Options) (c : Container) (a : Answers)
    → kills (visit o c a) ≡ true
    → (is_fuzz c.cmd ≡ true)
      × ((digits : Text) × (budget_digits c.cmd ≡ some digits)
          × (is_overdue o (budget_of digits) a ≡ true))
      × ((is_empty (target_named c.cmd) ≡ true) ⊎ (a.signalled ≡ false) ⊎ Survived o a)
unfolding visit
kills-visit o c a h = elim (Bool-cases (is_fuzz c.cmd)) [
  | inr f ↦ absurd (cc (rw f at h))
  | inl f ↦ elim (Option-cases (budget_digits c.cmd)) [
    | inl n ↦ absurd (cc (rw (f, n) at h))
    | inr (digits, d) ↦ elim (Bool-cases (is_overdue o (budget_of digits) a)) [
      | inr e ↦ absurd (cc (rw (f, d, e) at h))
      | inl e ↦
          (f, (digits, d, e), kills-stop_container o c (target_named c.cmd) a (rw (f, d, e) at h))
    ]
  ]
]

visit-overdue :
    (o : Options) (c : Container) (a : Answers) (digits : Text)
    → is_fuzz c.cmd ≡ true
    → budget_digits c.cmd ≡ some digits
    → is_overdue o (budget_of digits) a ≡ true
    → kills (visit o c a) ≡ kills (stop_container o c (target_named c.cmd) a)
unfolding visit
visit-overdue o c a digits f d e = rw (f, d, e) refl

-- The last question comes after the container is gone, if that is before the wait is over.
gone_later :
    (term_wait : ℕ) (up : ℕ → Bool) (m : ℕ) (r : ℕ × ℕ)
    → Ended term_wait up r
    → m * second < term_wait
    → ((n : ℕ) → up n ≡ ltb n m)
    → up r.1 ≡ false
gone_later term_wait up m (waited, next) (before, inl (d, n, l)) h gone =
    ground (arith, d, n, gone waited, gone next)
gone_later term_wait up m (waited, next) (before, inr (l, n, b)) h gone = ground (arith, gone next)

-- A fuzz container whose budget is over, and whose target was signalled, is sent SIGKILL if it is up
-- whenever it is asked for, and is not if it is up just until some question that is asked before the
-- wait is over.
pub visit_signalled :
    (o : Options) (c : Container) (a : Answers) (digits : Text)
    → is_fuzz c.cmd ≡ true
    → budget_digits c.cmd ≡ some digits
    → is_overdue o (budget_of digits) a ≡ true
    → is_empty (target_named c.cmd) ≡ false
    → a.signalled ≡ true
    → (((n : ℕ) → a.up n ≡ true) → kills (visit o c a) ≡ true)
      × ((m : ℕ)
          → m * second < o.term_wait
          → ((n : ℕ) → a.up n ≡ ltb n m)
          → kills (visit o c a) ≡ false)
visit_signalled o c a digits f d e t s =
    let (r, w, ended) = wait_down_total o.term_wait a.up in
    let last =
      visit-overdue o c a digits f d e
      ∙ stop_container-signalled o c (target_named c.cmd) a t s r w in
    (
      λ always. last ∙ always r.1,
      λ m before gone. last ∙ gone_later o.term_wait a.up m r ended before gone,
    )
