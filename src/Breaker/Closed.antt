-- ===== src/Breaker/Closed.antt =====
-- When a closed breaker opens (onFailure, onSuccess), and what an open one lets through.
use ling_framework.Base.{
  ℕ, ◌+◌, ◌≤◌, ◌<◌, ◌≡◌, refl, Option, none, some, List, [], ◌∷◌, map, arith, length, ltb, All,
  if◌then◌else◌,
}
use ling_framework.Base.Int.{pos, ◌<ℤ◌, inc64-pos, max_int64}
use native.Mathlib.Decide.{dec_lt}
use ling_framework.Base.Time.{Time, sub_time}
use ling_framework.Breaker.{
  state_closed, state_open, CircuitBreaker, Error, circuit_open, Call, set_state, on_success,
  on_failure, before_request, execute,
}
use ling_framework.Breaker.Events.{success, failure, run, execute_all}

-- A closed breaker with the default trip test at `m` failures, `k` of them counted in a row.
pub record IsCounting (m k : ℕ) (cb : CircuitBreaker) : Type 0 where
  pub by_default : cb.config.should_trip ≡ none
  pub limit : cb.config.max_failures ≡ pos m
  pub in_range : m ≤ max_int64
  pub closed : cb.state ≡ state_closed
  pub counted : cb.counts.consecutive_failures ≡ pos k
  pub below : k < m

on_failure-IsCounting :
    (now : Time) (cb : CircuitBreaker) (m k : ℕ)
    → IsCounting m k cb
    → k + 1 < m
    → IsCounting m (k + 1) (on_failure now cb)
unfolding on_failure set_state
on_failure-IsCounting now cb m k h room = ground (arith, inc64-pos k)

on_failure-opens :
    (now : Time) (cb : CircuitBreaker) (m k : ℕ)
    → IsCounting m k cb
    → m ≤ k + 1
    → (on_failure now cb).state ≡ state_open
unfolding on_failure set_state
on_failure-opens now cb m k h full = ground (arith, inc64-pos k)

on_failure-open :
    (now : Time) (cb : CircuitBreaker)
    → cb.state ≡ state_open
    → (on_failure now cb).state ≡ state_open
unfolding on_failure
on_failure-open now cb h = ground arith

failures_open :
    (ts : List Time) (cb : CircuitBreaker)
    → cb.state ≡ state_open
    → (run (map failure ts) cb).state ≡ state_open
unfolding run
failures_open [] cb h = h
failures_open (t ∷ ts) cb h = failures_open ts (on_failure t cb) (on_failure-open t cb h)

failures_closed :
    (ts : List Time) (cb : CircuitBreaker) (m k : ℕ)
    → IsCounting m k cb
    → (run (map failure ts) cb).state ≡ (if ltb (k + length ts) m then state_closed else state_open)
unfolding run
failures_closed [] cb m k h = ground arith
failures_closed (t ∷ ts) cb m k h = elim (dec_lt (k + 1) m) [
  | yes room ↦ ground (
    arith,
    failures_closed ts (on_failure t cb) m (k + 1) (on_failure-IsCounting t cb m k h room),
  )
  | no full ↦
      ground (arith, failures_open ts (on_failure t cb) (on_failure-opens t cb m k h (omega arith)))
]

on_success-IsCounting :
    (now : Time) (cb : CircuitBreaker) (m : ℕ)
    → cb.config.should_trip ≡ none
    → cb.config.max_failures ≡ pos m
    → 0 < m
    → m ≤ max_int64
    → cb.state ≡ state_closed
    → IsCounting m 0 (on_success now cb)
unfolding on_success
on_success-IsCounting now cb m d e p r h = ground arith

-- Take a closed breaker with no ShouldTrip and MaxFailures a positive int64 m, whatever its
-- counts. After one successful request and then a row of failed ones, at whatever instants and
-- however far apart, the breaker is closed if there are fewer than m of these, and open otherwise:
-- no failure becomes too old to count, whatever the Interval of the configuration.
pub success_then_failures :
    (now : Time) (ts : List Time) (cb : CircuitBreaker) (m : ℕ)
    → cb.config.should_trip ≡ none
    → cb.config.max_failures ≡ pos m
    → 0 < m
    → m ≤ max_int64
    → cb.state ≡ state_closed
    → (run (success now ∷ map failure ts) cb).state
      ≡ (if ltb (length ts) m then state_closed else state_open)
unfolding run
success_then_failures now ts cb m d e p r h =
    ground
      (arith, failures_closed ts (on_success now cb) m 0 (on_success-IsCounting now cb m d e p r h))

-- The clock of a call stands before the end of the timeout.
abbrev pub Early : {E : Type 0} → CircuitBreaker → Call E → Type 0
Early cb c = sub_time c.start cb.last_state <ℤ cb.config.timeout

module _ {E : Type 0} where
  execute-open :
      (c : Call E) (cb : CircuitBreaker)
      → cb.state ≡ state_open
      → cb.config.ready_to_trip ≡ none
      → Early cb c
      → execute c cb ≡ (some circuit_open, cb)
  unfolding execute before_request
  execute-open c cb h r early = ground arith

  abbrev pub rejections : List (Call E) → List (Option (Error E))
  rejections [] = []
  rejections (c ∷ cs) = some circuit_open ∷ rejections cs

  -- An open breaker with no ReadyToTrip answers every call that starts before its timeout has
  -- passed with ErrCircuitOpen, and no such call changes the breaker.
  pub open_rejects :
      (cs : List (Call E)) (cb : CircuitBreaker)
      → cb.state ≡ state_open
      → cb.config.ready_to_trip ≡ none
      → All (Early cb) cs
      → execute_all cs cb ≡ (rejections cs, cb)
  unfolding execute_all
  open_rejects [] cb h r early = refl
  open_rejects (c ∷ cs) cb h r early =
      rw (execute-open c cb h r early.0, open_rejects cs cb h r early.1)
