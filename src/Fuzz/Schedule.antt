-- ===== src/Fuzz/Schedule.antt =====
-- go/internal/fuzz/soak.go: `schedule`, the rolling pool of a soak, as steps. Each step is what one
-- goroutine does under the lock or on the semaphore; the clock and the context choose between them.
-- A pool has at least one target, and no target is the empty name, which the source takes for none.
use pg_fuzz.Base.{
  ℕ, zero, suc, ◌+◌, ◌-◌, ◌%◌, ◌<◌, ◌≡◌, true, List, [], ◌∷◌, Option, none, some, Text, eq, holds,
  keep, not, length, get_elem?, or_else, ltb, if◌then◌else◌,
}

-- What the loop is about to do.
pub data Phase : Type 0 where
  -- to take a token of the semaphore, to pick a target, or no more.
  waiting holding_token stopped : Phase

pub record Pool : Type 0 where
  pub phase : Phase
  pub next : ℕ
  -- The keys of the source's map.
  pub in_flight : List Text
  -- Goroutines that are done with their target and have not given back their token.
  pub landed : ℕ
  -- The tokens that are out.
  pub tokens : ℕ
  pub started : ℕ

-- `conc`, after it is put between 1 and the number of targets.
abbrev pub clamp : ℕ → List Text → ℕ
clamp conc targets =
    let at_most = if ltb (length targets) conc then length targets else conc in
    if ltb at_most 1 then 1 else at_most

-- The loop over `k`, of which `left` rounds are to come: the first target from `next` on that is not
-- in flight, and the next `next`.
unfoldable pub pick_from : List Text → List Text → ℕ → ℕ → ℕ → Option (Text × ℕ)
pick_from targets in_flight next k zero = none
pick_from targets in_flight next k (suc left) =
    let later = pick_from targets in_flight next (k + 1) left in
    let c = or_else (get_elem? targets ((next + k) % length targets)) [] in
    if holds c in_flight then later else some (c, (next + k + 1) % length targets)

unfoldable pub pick : List Text → Pool → Option (Text × ℕ)
unfolding pick_from
pick targets p = pick_from targets p.in_flight p.next 0 (length targets)

abbrev pub land_target : Text → List Text → List Text
land_target t = keep (λ s. not (eq s t))

-- The pool before its loop.
abbrev pub empty_pool : Pool
empty_pool = record {
  phase = waiting;
  next = 0;
  in_flight = [];
  landed = 0;
  tokens = 0;
  started = 0;
}

-- A step of the pool on these targets, asked to run so many at once.
pub data Step (targets : List Text) (conc : ℕ) : Pool → Pool → Type 0 where
  -- The loop takes a token.
  acquire :
      (p : Pool)
      → p.phase ≡ waiting
      → p.tokens < clamp conc targets
      → Step targets conc p (record p { phase = holding_token; tokens = p.tokens + 1 })
  -- It starts a target on the token.
  launch :
      (p : Pool) (t : Text) (n : ℕ)
      → p.phase ≡ holding_token
      → pick targets p ≡ some (t, n)
      → Step targets conc p (record p {
        phase = waiting;
        next = n;
        in_flight = t ∷ p.in_flight;
        started = p.started + 1;
      })
  -- It gives the token back and ends: every target is in flight.
  exhaust :
      (p : Pool)
      → p.phase ≡ holding_token
      → pick targets p ≡ none
      → Step targets conc p (record p { phase = stopped; tokens = p.tokens - 1 })
  -- It gives the token back and ends: the deadline has passed.
  expire :
      (p : Pool)
      → p.phase ≡ holding_token
      → Step targets conc p (record p { phase = stopped; tokens = p.tokens - 1 })
  -- It ends before it has a token.
  stop : (p : Pool) → p.phase ≡ waiting → Step targets conc p (record p { phase = stopped })
  -- A run returns, and its target is no longer in flight.
  land :
      (p : Pool) (t : Text)
      → holds t p.in_flight ≡ true
      → Step targets conc p
          (record p { in_flight = land_target t p.in_flight; landed = p.landed + 1 })
  -- Its goroutine gives the token back.
  release :
      (p : Pool)
      → 0 < p.landed
      → Step targets conc p (record p { landed = p.landed - 1; tokens = p.tokens - 1 })

pub data Reach (targets : List Text) (conc : ℕ) : Pool → Type 0 where
  begun : Reach targets conc empty_pool
  stepped : {p q : Pool} → Reach targets conc p → Step targets conc p q → Reach targets conc q
