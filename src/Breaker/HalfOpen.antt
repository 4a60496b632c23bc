-- ===== src/Breaker/HalfOpen.antt =====
-- The half-open state: recovery by successful calls, and what MaxRequests limits.
use ling_framework.Base.{
  ℕ, ◌+◌, ◌≤◌, ◌<◌, ◌≡◌, refl, ap, ◌∙◌, true, none, List, [], ◌∷◌, map, arith, ltb,
}
use ling_framework.Base.Int.{pos, ◌≤ℤ◌, inc64-pos, max_int64}
use ling_framework.Base.Time.{Time, sub_time}
use ling_framework.Breaker.{
  state_closed, state_open, state_half_open, CircuitBreaker, Call, set_state, on_success,
  before_request,
}
use ling_framework.Breaker.Events.{Event, admit, run}

-- The limits of the half-open state, both positive int64 values after New.
pub record HasLimits (r s : ℕ) (cb : CircuitBreaker) : Type 0 where
  pub requests_limit : cb.config.max_requests ≡ pos r
  pub threshold : cb.config.success_threshold ≡ pos s
  pub some_request : 0 < r
  pub some_success : 0 < s
  pub in_range : r ≤ max_int64

-- An open breaker, without ReadyToTrip, whose timeout has passed at `t`.
pub record IsDue (t : Time) (cb : CircuitBreaker) : Type 0 where
  pub opened : cb.state ≡ state_open
  pub by_timeout : cb.config.ready_to_trip ≡ none
  pub elapsed : cb.config.timeout ≤ℤ sub_time t cb.last_state

-- Half open, after `n` successful requests and no failed one.
pub record IsProbing (r s n : ℕ) (cb : CircuitBreaker) : Type 0 where
  pub limits : HasLimits r s cb
  pub half : cb.state ≡ state_half_open
  pub handled : cb.counts.requests ≡ pos n
  pub succeeded : cb.counts.consecutive_successes ≡ pos n

abbrev pub succeed : {E : Type 0} → Time → Time → Call E
succeed t u = record { start = t; finish = u; returns = none }

pub admit-IsProbing :
    (t : Time) (cb : CircuitBreaker) (r s : ℕ)
    → HasLimits r s cb
    → IsDue t cb
    → IsProbing r s 0 (before_request t cb).1 × ((before_request t cb).0 ≡ true)
unfolding before_request set_state
admit-IsProbing t cb r s l d = ground arith

pub on_success-IsProbing :
    (u : Time) (cb : CircuitBreaker) (r s n : ℕ)
    → IsProbing r s n cb
    → n < r
    → n + 1 < s
    → IsProbing r s (n + 1) (on_success u cb)
unfolding on_success
on_success-IsProbing u cb r s n p room few = ground (arith, inc64-pos n)

pub on_success-closes :
    (u : Time) (cb : CircuitBreaker) (r s n : ℕ)
    → IsProbing r s n cb
    → n < r
    → s ≤ n + 1
    → (on_success u cb).state ≡ state_closed
unfolding on_success set_state
on_success-closes u cb r s n p room enough = ground (arith, inc64-pos n)

pub before_request-probing :
    (t : Time) (cb : CircuitBreaker) (r s n : ℕ)
    → IsProbing r s n cb
    → before_request t cb ≡ (ltb n r, cb)
unfolding before_request
before_request-probing t cb r s n p = ground arith

run-admit :
    (t : Time) (es : List Event) (cb : CircuitBreaker)
    → run (admit t ∷ es) cb ≡ run es (before_request t cb).1
unfolding run
run-admit t es cb = refl

run-probing :
    (ts : List Time) (cb : CircuitBreaker) (r s n : ℕ)
    → IsProbing r s n cb
    → run (map admit ts) cb ≡ cb
unfolding run
run-probing [] cb r s n p = refl
run-probing (t ∷ ts) cb r s n p =
    ap (λ b. run (map admit ts) b.1) (before_request-probing t cb r s n p)
    ∙ run-probing ts cb r s n p

-- From an open breaker without ReadyToTrip whose timeout has passed at t, with positive limits,
-- any number of requests are let through before one of them ends, whatever MaxRequests is: the
-- breaker counts a request when it ends.
pub half_open_admits :
    (t t' : Time) (ts : List Time) (cb : CircuitBreaker) (r s : ℕ)
    → HasLimits r s cb
    → IsDue t cb
    → (before_request t' (run (admit t ∷ map admit ts) cb)).0 ≡ true
half_open_admits t t' ts cb r s l d =
    let p = (admit-IsProbing t cb r s l d).0 in
    rw (run-admit, run-probing ts (before_request t cb).1 r s 0 p)
      (ground (arith, before_request-probing t' (before_request t cb).1 r s 0 p))
