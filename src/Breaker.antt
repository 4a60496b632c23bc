-- ===== src/Breaker.antt =====
-- The circuit breaker of pkg/circuitbreaker: types.go, circuitbreaker.go and utils.go.
-- A method takes the instant at which it reads the clock and returns the new breaker. A step is one
-- beforeRequest, onSuccess, onFailure or Reset with its setState, run to its end: calls of Execute
-- may overlap while the called functions run, but not inside these methods. The Go code holds no
-- lock from the decision over setState to the callback, so they can overlap there too; those runs
-- are not modelled. The counters are int64 values, the
-- generation is a number below 2^64. The calls of OnStateChange are kept, in order, in `notified`.
-- The state is an int32 cell that only New and setState write, so its type has the three states.
pub mod Events
pub mod Closed
pub mod HalfOpen
pub mod Recovery
pub mod Trace
pub mod Retry
mod Tests
use ling_framework.Base.{
  ℕ, ◌+◌, ◌%◌, Bool, true, false, ◌&&◌, Option, none, some, List, [], ◌∷◌, ◌++◌, Str, codes,
  if◌then◌else◌,
}
use ling_framework.Base.Int.{ℤ, pos, leb_ℤ, inc64}
use ling_framework.Base.Time.{Time, Duration, sub_time}

pub data State : Type 0 where
  state_closed state_open state_half_open : State

abbrev pub state_beq : State → State → Bool
state_beq state_closed state_closed = true
state_beq state_open state_open = true
state_beq state_half_open state_half_open = true
state_beq _ _ = false

-- State.String
unfoldable pub state_string : State → Str
state_string state_closed = codes "CLOSED"
state_string state_open = codes "OPEN"
state_string state_half_open = codes "HALF_OPEN"

pub record Counts : Type 0 where
  pub requests : ℤ
  pub total_successes : ℤ
  pub total_failures : ℤ
  pub consecutive_successes : ℤ
  pub consecutive_failures : ℤ

-- Counts{}
abbrev pub zero_counts : Counts
zero_counts = record {
  requests = pos 0;
  total_successes = pos 0;
  total_failures = pos 0;
  consecutive_successes = pos 0;
  consecutive_failures = pos 0;
}

-- `on_state_change` says whether a callback is set; `none` is a nil function.
pub record Config : Type 0 where
  pub name : Str
  pub max_requests : ℤ
  pub interval : Duration
  pub timeout : Duration
  pub max_failures : ℤ
  pub success_threshold : ℤ
  pub on_state_change : Bool
  pub should_trip : Option (Counts → Bool)
  pub ready_to_trip : Option (Counts → Bool)

abbrev pub sixty_seconds : Duration
sixty_seconds = pos 60000000000

abbrev pub default_config : Str → Config
default_config name = record {
  name = name;
  max_requests = pos 1;
  interval = sixty_seconds;
  timeout = sixty_seconds;
  max_failures = pos 5;
  success_threshold = pos 1;
  on_state_change = false;
  should_trip = none;
  ready_to_trip = none;
}

pub record CircuitBreaker : Type 0 where
  pub name : Str
  pub config : Config
  pub state : State
  pub counts : Counts
  pub last_state : Time
  pub generation : ℕ
  pub notified : List (State × State)

-- The loop-free body of `if x <= 0 { x = d }`.
abbrev pub or_default : ℤ → ℤ → ℤ
or_default x d = if leb_ℤ x (pos 0) then d else x

abbrev pub normalise : Config → Config
normalise c = record c {
  max_requests = or_default c.max_requests (pos 1);
  interval = or_default c.interval sixty_seconds;
  timeout = or_default c.timeout sixty_seconds;
  max_failures = or_default c.max_failures (pos 5);
  success_threshold = or_default c.success_threshold (pos 1);
}

abbrev pub given_or_default : Option Config → Config
given_or_default none = default_config (codes "default")
given_or_default (some c) = c

-- New
unfoldable pub new : Option Config → Time → CircuitBreaker
new config now = record {
  name = (given_or_default config).name;
  config = normalise (given_or_default config);
  state = state_closed;
  counts = zero_counts;
  last_state = now;
  generation = 0;
  notified = [];
}

-- setState
unfoldable pub set_state : Time → State → CircuitBreaker → CircuitBreaker
set_state now new_state cb = if state_beq cb.state new_state then cb else record cb {
  state = new_state;
  last_state = now;
  generation = (cb.generation + 1) % 18446744073709551616;
  counts = zero_counts;
  notified =
      if cb.config.on_state_change then cb.notified ++ (cb.state, new_state) ∷ [] else cb.notified;
}

abbrev pub count_success : Counts → Counts
count_success c = record c {
  total_successes = inc64 c.total_successes;
  consecutive_successes = inc64 c.consecutive_successes;
  consecutive_failures = pos 0;
  requests = inc64 c.requests;
}

abbrev pub should_close : Config → Counts → State → Bool
should_close config counts state_closed = false
should_close config counts state_open = true
should_close config counts state_half_open =
    leb_ℤ config.success_threshold counts.consecutive_successes

-- onSuccess
unfoldable pub on_success : Time → CircuitBreaker → CircuitBreaker
on_success now cb =
    let counts = count_success cb.counts in
    let cb' = record cb { counts = counts } in
    if should_close cb.config counts cb.state then set_state now state_closed cb' else cb'

abbrev pub count_failure : Counts → Counts
count_failure c = record c {
  total_failures = inc64 c.total_failures;
  consecutive_failures = inc64 c.consecutive_failures;
  consecutive_successes = pos 0;
  requests = inc64 c.requests;
}

abbrev pub trips : Option (Counts → Bool) → Config → Counts → Bool
trips none config counts = leb_ℤ config.max_failures counts.consecutive_failures
trips (some f) config counts = f counts

abbrev pub should_open : Config → Counts → State → Bool
should_open config counts state_closed = trips config.should_trip config counts
should_open config counts state_open = false
should_open config counts state_half_open = true

-- onFailure
unfoldable pub on_failure : Time → CircuitBreaker → CircuitBreaker
on_failure now cb =
    let counts = count_failure cb.counts in
    let cb' = record cb { counts = counts } in
    if should_open cb.config counts cb.state then set_state now state_open cb' else cb'

-- The test of the open state: ReadyToTrip if it is set, the timeout otherwise.
abbrev pub is_ready : Option (Counts → Bool) → Time → CircuitBreaker → Bool
is_ready none now cb = leb_ℤ cb.config.timeout (sub_time now cb.last_state)
is_ready (some f) now cb = f cb.counts

abbrev pub before : State → Time → CircuitBreaker → Bool × CircuitBreaker
before state_closed now cb = (true, cb)
before state_open now cb =
    if is_ready cb.config.ready_to_trip now cb
    then (true, set_state now state_half_open cb)
    else (false, cb)
before state_half_open now cb =
    if leb_ℤ cb.config.max_requests cb.counts.requests then (false, cb) else (true, cb)

-- beforeRequest
unfoldable pub before_request : Time → CircuitBreaker → Bool × CircuitBreaker
before_request now cb = before cb.state now cb

-- Reset
unfoldable pub reset : Time → CircuitBreaker → CircuitBreaker
reset now cb = set_state now state_closed cb

-- IsOpen, IsClosed, IsHalfOpen
unfoldable pub is_open : CircuitBreaker → Bool
is_open cb = state_beq cb.state state_open

unfoldable pub is_closed : CircuitBreaker → Bool
is_closed cb = state_beq cb.state state_closed

unfoldable pub is_half_open : CircuitBreaker → Bool
is_half_open cb = state_beq cb.state state_half_open

-- The errors of Execute: ErrCircuitOpen, and those of the function that it runs.
pub data Error (E : Type 0) : Type 0 where
  circuit_open : Error E
  user : E → Error E

-- A call as its caller sees it: the clock before and after the function runs, and what the
-- function would return.
pub record Call (E : Type 0) : Type 0 where
  pub start : Time
  pub finish : Time
  pub returns : Option E

module _ {E : Type 0} where
  abbrev pub record_result : Call E → CircuitBreaker → Option (Error E) × CircuitBreaker
  record_result c cb = elim c.returns [
    | none ↦ (none, on_success c.finish cb)
    | some e ↦ (some (user e), on_failure c.finish cb)
  ]

  -- Execute, when no other call of the breaker runs between its steps.
  unfoldable pub execute : Call E → CircuitBreaker → Option (Error E) × CircuitBreaker
  execute c cb =
      let (allowed, cb') = before_request c.start cb in
      if allowed then record_result c cb' else (some circuit_open, cb')

  -- ExecuteWithFallback
  unfoldable pub execute_with_fallback :
      Option (Error E → Option (Error E))
      → Call E
      → CircuitBreaker
      → Option (Error E) × CircuitBreaker
  execute_with_fallback fallback c cb =
      let (err, cb') = execute c cb in
      elim err [
        | none ↦ (none, cb')
        | some e ↦ elim fallback [ none ↦ (some e, cb') | some f ↦ (f e, cb') ]
      ]

  -- ExecuteWithContext: `ctx_err` is the error of a context that is done already.
  unfoldable pub execute_with_context :
      Option E → Call E → CircuitBreaker → Option (Error E) × CircuitBreaker
  execute_with_context none c cb = execute c cb
  execute_with_context (some e) c cb = (some (user e), cb)
