-- ===== src/Breaker/Tests.antt =====
-- Runs of the breaker of pkg/circuitbreaker, and its theorems at concrete inputs.
use ling_framework.Base.{ℕ, zero, suc, ◌≡◌, refl, true, Option, none, some, [], ◌∷◌, codes, arith}
use ling_framework.Base.Int.{pos, ◌+ℤ◌, inc64}
use ling_framework.Breaker.{
  state_closed, state_open, state_half_open, Config, CircuitBreaker, circuit_open, user, Call,
  default_config, zero_counts, new, set_state, on_failure, before_request, execute,
}
use ling_framework.Breaker.Events.{success, failure, admit, run, execute_all}
use ling_framework.Breaker.Closed.{success_then_failures, rejections}
use ling_framework.Breaker.HalfOpen.{half_open_admits, HasLimits, IsDue}
use ling_framework.Breaker.Recovery.{open_recovers, open_starves, successes, end_of}
use ling_framework.Breaker.Trace.{run-IsTraced, IsTraced}
use ling_framework.Breaker.Retry.{RetryConfig, attempts, retry}
use ling_framework.Breaker.Retry.Laws

abbrev config : Config
config = record (default_config (codes "db")) { max_failures = pos 2; on_state_change = true }

abbrev idle : CircuitBreaker
idle = record {
  name = codes "db";
  config = config;
  state = state_closed;
  counts = zero_counts;
  last_state = 100;
  generation = 0;
  notified = [];
}

abbrev tripped : CircuitBreaker
tripped = record idle {
  state = state_open;
  last_state = 200;
  generation = 1;
  notified = (state_closed, state_open) ∷ [];
}

abbrev failing_call : Call ℕ
failing_call = record { start = 150; finish = 200; returns = some 7 }

new_is_idle : new (some config) 100 ≡ idle
unfolding new
new_is_idle = refl

two_failures :
    (execute_all (failing_call ∷ failing_call ∷ failing_call ∷ []) idle).0
    ≡ some (user 7) ∷ some (user 7) ∷ some circuit_open ∷ []
unfolding execute_all execute before_request on_failure set_state inc64
two_failures = refl

success_then_failures_example :
    (run (success 1 ∷ failure 2 ∷ failure 3 ∷ []) idle).state ≡ state_open
success_then_failures_example =
    success_then_failures 1 (2 ∷ 3 ∷ []) idle 2 refl refl (omega arith) (omega arith) refl

abbrev limited : ℕ → ℕ → CircuitBreaker
limited r s = record tripped {
  config = record config { max_requests = pos r; success_threshold = pos s };
}

limits : HasLimits 2 1 (limited 2 1) × HasLimits 1 2 (limited 1 2)
limits = ground arith

due : (r s : ℕ) → IsDue 70000000000 (limited r s)
due r s = record { opened = refl; by_timeout = refl; elapsed = omega arith }

open_recovers_example :
    (end_of (successes {E = ℕ} ((70000000000, 70000000001) ∷ [])) (limited 2 1)).state
    ≡ state_closed
open_recovers_example =
    open_recovers ℕ 70000000000 70000000001 [] (limited 2 1) 2 1 limits.0 (due 2 1) (omega arith)

abbrev starved : CircuitBreaker
starved = end_of (successes {E = ℕ} ((70000000000, 70000000001) ∷ [])) (limited 1 2)

open_starves_example :
    (starved.state ≡ state_half_open)
    × (execute_all (failing_call ∷ []) starved ≡ (rejections (failing_call ∷ []), starved))
open_starves_example =
    open_starves ℕ 70000000000 70000000001 [] (failing_call ∷ []) (limited 1 2) 1 2 limits.1
      (due 1 2) (omega arith) (omega arith)

half_open_admits_example :
    (before_request 70000000009 (run (admit 70000000000 ∷ admit 70000000001 ∷ []) (limited 2 1))).0
    ≡ true
half_open_admits_example =
    half_open_admits 70000000000 70000000009 (70000000001 ∷ []) (limited 2 1) 2 1 limits.0 (due 2 1)

run-IsTraced_example : IsTraced (run (failure 1 ∷ failure 2 ∷ admit 3 ∷ []) (new (some config) 100))
run-IsTraced_example = run-IsTraced (some config) 100 (failure 1 ∷ failure 2 ∷ admit 3 ∷ []) refl

abbrev retry_config : RetryConfig ℕ
retry_config = record {
  max_attempts = pos 3;
  initial_interval = pos 100;
  max_interval = pos 150;
  scale = λ d. d +ℤ d;
  retryable_errors = none;
}

-- A function that fails until its state is 0.
abbrev countdown : ℕ → Option ℕ × ℕ
countdown zero = (none, zero)
countdown (suc n) = (some n, n)

retry_twice :
    retry retry_config countdown 2
    ≡ record { error = none; calls = 3; sleeps = pos 100 ∷ pos 150 ∷ []; world = 0 }
unfolding retry attempts ◌+ℤ◌
retry_twice = refl

retry-IsRetried_example : Laws.IsRetried retry_config countdown 2 5 (retry retry_config countdown 5)
retry-IsRetried_example = Laws.retry-IsRetried retry_config countdown 5 2 refl
