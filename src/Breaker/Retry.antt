-- ===== src/Breaker/Retry.antt =====
-- pkg/circuitbreaker/retry.go. The function that is retried acts on a state S of its own; the
-- sleeps are recorded and not waited for. There are no floats here: `scale` stands for the product
-- time.Duration(float64(interval) * Multiplier) and may be any function.
pub mod Laws
use ling_framework.Base.{
  ℕ, zero, suc, ◌+◌, Bool, true, false, ◌&&◌, not, Option, none, some, List, [], ◌∷◌, if◌then◌else◌,
}
use ling_framework.Base.Int.{ℤ, pos, pos_part, ltb_ℤ}
use ling_framework.Base.Time.{Duration}
use ling_framework.Breaker.{CircuitBreaker, Error, Call, execute}

pub record RetryConfig (E : Type 0) : Type 0 where
  pub max_attempts : ℤ
  pub initial_interval : Duration
  pub max_interval : Duration
  pub scale : Duration → Duration
  pub retryable_errors : Option (E → Bool)

-- DefaultRetryConfig; a product by the multiplier 2.0 is exact below 2^53.
abbrev pub default_retry_config : {E : Type 0} → (Duration → Duration) → RetryConfig E
default_retry_config twice = record {
  max_attempts = pos 3;
  initial_interval = pos 100000000;
  max_interval = pos 1000000000;
  scale = twice;
  retryable_errors = none;
}

-- What a loop of attempts leaves: its error, the number of calls, the sleeps and the state.
pub record Outcome (S E : Type 0) : Type 0 where
  pub error : Option E
  pub calls : ℕ
  pub sleeps : List Duration
  pub world : S

module _ {S E : Type 0} (config : RetryConfig E) (fn : S → Option E × S) where
  abbrev pub retryable : E → Bool
  retryable e = elim config.retryable_errors [ none ↦ true | some f ↦ f e ]

  -- The interval after a sleep: scaled, and at most MaxInterval.
  abbrev pub next_interval : Duration → Duration
  next_interval interval =
      if ltb_ℤ config.max_interval (config.scale interval)
      then config.max_interval
      else config.scale interval

  abbrev slept : Duration → Outcome S E → Outcome S E
  slept interval o = record o { sleeps = interval ∷ o.sleeps }

  abbrev called : Outcome S E → Outcome S E
  called o = record o { calls = o.calls + 1 }

  abbrev ends : Option E → S → Outcome S E
  ends err s = record { error = err; calls = 0; sleeps = []; world = s }

  -- The loop with `left` attempts to go; `last` is lastErr.
  unfoldable pub attempts : ℕ → Duration → Option E → S → Outcome S E
  attempts zero interval last s = ends last s
  attempts (suc left) interval last s =
      let (result, s') = fn s in
      elim result [
        | none ↦ called (ends none s')
        | some e ↦ elim (retryable e) [
          | false ↦ called (ends (some e) s')
          | true ↦ elim left [
            | zero ↦ called (ends (some e) s')
            | suc more ↦
                called (slept interval (attempts left (next_interval interval) (some e) s'))
          ]
        ]
      ]

  -- Retry, after a nil configuration has been replaced.
  unfoldable pub retry : S → Outcome S E
  retry s = attempts (pos_part config.max_attempts) config.initial_interval none s

-- RetryWithCircuitBreaker with a breaker (with none it is `retry` itself): `call n` is the n-th call
-- of the function through the breaker.
module _ {E : Type 0} (config : RetryConfig (Error E)) (call : ℕ → Call E) where
  abbrev pub through_breaker : ℕ × CircuitBreaker → Option (Error E) × (ℕ × CircuitBreaker)
  through_breaker (n, cb) = let (err, cb') = execute (call n) cb in (err, (n + 1, cb'))

  unfoldable pub retry_with_circuit_breaker :
      Option (Error E → Option (Error E))
      → CircuitBreaker
      → Option (Error E) × Outcome (ℕ × CircuitBreaker) (Error E)
  retry_with_circuit_breaker fallback cb =
      let o = retry config through_breaker (0, cb) in
      elim o.error [
        | none ↦ (none, o)
        | some e ↦ elim fallback [ none ↦ (some e, o) | some f ↦ (f e, o) ]
      ]
