-- ===== src/Breaker/Retry/Laws.antt =====
-- What Retry does (pkg/circuitbreaker/retry.go): which calls it makes, its error and its sleeps.
use ling_framework.Base.{
  ℕ, zero, suc, ◌+◌, ◌≤◌, ◌≡◌, refl, ap, ◌⊎◌, inl, inr, Bool, true, false, not, Option, none, some,
  [], ◌∷◌, arith, length, All, Bool-cases, Option-cases,
}
use ling_framework.Base.Int.{pos, ◌≤ℤ◌}
use ling_framework.Base.Time.{Duration}
use ling_framework.Breaker.Retry.{RetryConfig, Outcome, retryable, next_interval, attempts, retry}

module _ {S E : Type 0} (config : RetryConfig E) (fn : S → Option E × S) where
  -- The state after a number of calls.
  pub world_after : ℕ → S → S
  world_after zero s = s
  world_after (suc n) s = world_after n (fn s).1

  -- After this result there is no further attempt: a success, or an error that is not retryable.
  abbrev pub stops : Option E → Bool
  stops none = true
  stops (some e) = not (retryable config fn e)

  -- The next `n` calls all fail with a retryable error.
  abbrev pub Failing : ℕ → S → Type 0
  Failing zero s = Unit
  Failing (suc n) s = (stops (fn s).0 ≡ false) × Failing n (fn s).1

  -- `retries` failed calls, then a last call that gives the error; this one ends the row by itself,
  -- or the attempts are used up. There is a sleep between one call and the next.
  pub record IsRetried (left : ℕ) (s : S) (o : Outcome S E) : Type 0 where
    pub retries : ℕ
    pub counted : o.calls ≡ retries + 1
    pub bounded : retries ≤ left
    pub failing : Failing retries s
    pub error_of_last : o.error ≡ (fn (world_after retries s)).0
    pub world_of_last : o.world ≡ (fn (world_after retries s)).1
    pub ended : (retries ≡ left) ⊎ (stops (fn (world_after retries s)).0 ≡ true)
    pub slept : length o.sleeps ≡ retries

  abbrev single : S → Outcome S E
  single s = record { error = (fn s).0; calls = 0 + 1; sleeps = []; world = (fn s).1 }

  attempts-stop :
      (left : ℕ) (interval : Duration) (last : Option E) (s : S)
      → stops (fn s).0 ≡ true
      → attempts config fn (suc left) interval last s ≡ single s
  unfolding attempts
  attempts-stop left interval last s h = ground arith

  attempts-last :
      (interval : Duration) (last : Option E) (s : S)
      → attempts config fn (suc zero) interval last s ≡ single s
  unfolding attempts
  attempts-last interval last s = ground arith

  attempts-again :
      (left : ℕ) (interval : Duration) (last : Option E) (s : S)
      → stops (fn s).0 ≡ false
      → attempts config fn (suc (suc left)) interval last s ≡ (
          let o =
            attempts config fn (suc left) (next_interval config fn interval) (fn s).0 (fn s).1 in
          record o { calls = o.calls + 1; sleeps = interval ∷ o.sleeps })
  unfolding attempts
  attempts-again left interval last s h = elim (Option-cases (fn s).0) [
    | inl done ↦ ground arith
    | inr (e, failed) ↦ rw (failed, attempts) (ground arith)
  ]

  single-IsRetried :
      (left : ℕ) (s : S) → (0 ≡ left) ⊎ (stops (fn s).0 ≡ true) → IsRetried left s (single s)
  unfolding world_after
  single-IsRetried left s h = record {
    retries = 0;
    counted = refl;
    bounded = omega arith;
    failing = tt;
    error_of_last = refl;
    world_of_last = refl;
    ended = h;
    slept = refl;
  }

  attempts-IsRetried :
      (left : ℕ) (interval : Duration) (last : Option E) (s : S)
      → IsRetried left s (attempts config fn (suc left) interval last s)
  unfolding world_after
  attempts-IsRetried zero interval last s = rw attempts-last (single-IsRetried zero s (inl refl))
  attempts-IsRetried (suc left) interval last s = elim (Bool-cases (stops (fn s).0)) [
    | inl stop ↦
        rw (attempts-stop (suc left) interval last s stop)
          (single-IsRetried (suc left) s (inr stop))
    | inr again ↦
        let h = attempts-IsRetried left (next_interval config fn interval) (fn s).0 (fn s).1 in
        rw (attempts-again left interval last s again) (record {
          retries = suc h.retries;
          counted = omega arith;
          bounded = omega arith;
          failing = (again, h.failing);
          error_of_last = h.error_of_last;
          world_of_last = h.world_of_last;
          ended = elim h.ended [ inl e ↦ inl (ap suc e) | inr e ↦ inr e ];
          slept = omega arith;
        })
  ]

  -- If MaxAttempts is positive, Retry makes a row of calls that fail with retryable errors, fewer
  -- than MaxAttempts, and then one more call, whose error (or success) is the result: this call
  -- succeeds or fails with an error that is not retryable, or it is call number MaxAttempts.
  -- Between one call and the next it sleeps once, and the state is that after these calls.
  pub retry-IsRetried :
      (s : S) (left : ℕ)
      → config.max_attempts ≡ pos (suc left)
      → IsRetried left s (retry config fn s)
  unfolding retry
  retry-IsRetried s left h = simp h (attempts-IsRetried left config.initial_interval none s)

  attempts-sleeps :
      (left : ℕ) (interval : Duration) (last : Option E) (s : S)
      → interval ≤ℤ config.max_interval
      → All (λ d. d ≤ℤ config.max_interval) (attempts config fn left interval last s).sleeps
  unfolding attempts
  attempts-sleeps zero interval last s h = tt
  attempts-sleeps (suc zero) interval last s h = rw attempts-last tt
  attempts-sleeps (suc (suc left)) interval last s h = elim (Bool-cases (stops (fn s).0)) [
    | inl stop ↦ rw (attempts-stop (suc left) interval last s stop) tt
    | inr again ↦ rw (attempts-again left interval last s again) (
      h,
      attempts-sleeps (suc left) (next_interval config fn interval) (fn s).0 (fn s).1
          (ground arith),
    )
  ]

  -- If the first interval is at most MaxInterval, so is every sleep of Retry, whatever the
  -- multiplier does to an interval.
  pub retry-sleeps-le :
      (s : S)
      → config.initial_interval ≤ℤ config.max_interval
      → All (λ d. d ≤ℤ config.max_interval) (retry config fn s).sleeps
  unfolding retry
  retry-sleeps-le s h = attempts-sleeps _ config.initial_interval none s h
