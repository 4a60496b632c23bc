-- ===== src/Breaker/Trace.antt =====
-- The state changes that a breaker goes through and reports (setState) when calls share it.
use ling_framework.Base.{
  ◌%◌, ◌≡◌, ◌≢◌, refl, ◌⊎◌, inl, inr, Bool, true, false, Option, List, [], ◌∷◌, ◌++◌, arith, length,
  length-append, Bool-cases,
}
use ling_framework.Base.Time.{Time}
use ling_framework.Breaker.{
  State, state_closed, state_open, state_half_open, state_beq, CircuitBreaker, Config, Counts,
  should_close, should_open, count_success, count_failure, new, given_or_default, set_state,
  on_success, on_failure, before_request, reset,
}
use ling_framework.Breaker.Events.{Event, admit, success, failure, clear, step, run}

-- The state changes that the program may make; a closed breaker never becomes half open, and a
-- half-open one is never entered but from the open state.
abbrev pub is_edge : State → State → Bool
is_edge state_closed state_open = true
is_edge state_open state_half_open = true
is_edge state_open state_closed = true
is_edge state_half_open state_open = true
is_edge state_half_open state_closed = true
is_edge _ _ = false

-- The changes, oldest first, lead by edges from one state to another.
abbrev pub Leads : State → List (State × State) → State → Type 0
Leads s [] t = s ≡ t
Leads s ((a, b) ∷ ps) t = (s ≡ a) × (is_edge a b ≡ true) × Leads b ps t

-- With a callback: the reports lead from the closed state to the present one, and the generation
-- is their number, modulo 2^64.
pub record IsTraced (cb : CircuitBreaker) : Type 0 where
  pub reported : cb.config.on_state_change ≡ true
  pub leads : Leads state_closed cb.notified cb.state
  pub counted : cb.generation ≡ length cb.notified % 18446744073709551616

Leads-append :
    (s : State) (ps : List (State × State)) (t u : State)
    → Leads s ps t
    → is_edge t u ≡ true
    → Leads s (ps ++ (t, u) ∷ []) u
Leads-append s [] t u h edge = (h, edge, refl)
Leads-append s ((a, b) ∷ ps) t u h edge = (h.0, h.1, Leads-append b ps t u h.2 edge)

state_beq-eq : (s t : State) → state_beq s t ≡ true → s ≡ t
state_beq-eq s t h = ground arith

state_beq-ne : (s t : State) → state_beq s t ≡ false → s ≢ t
state_beq-ne s t h = ground arith

moved-IsTraced :
    (now : Time) (s : State) (cb : CircuitBreaker)
    → IsTraced cb
    → is_edge cb.state s ≡ true
    → state_beq cb.state s ≡ false
    → IsTraced (set_state now s cb)
unfolding set_state
moved-IsTraced now s cb h edge moves =
    rw (moves, set_state)
      (record {
        reported = h.reported;
        leads = rw h.reported (Leads-append state_closed cb.notified cb.state s h.leads edge);
        counted =
            rw h.reported
              (omega (arith, h.counted, length-append cb.notified ((cb.state, s) ∷ [])));
      })

set_state-IsTraced :
    (now : Time) (s : State) (cb : CircuitBreaker)
    → IsTraced cb
    → (is_edge cb.state s ≡ true) ⊎ (cb.state ≡ s)
    → IsTraced (set_state now s cb)
unfolding set_state
set_state-IsTraced now s cb h e = elim (Bool-cases (state_beq cb.state s)) [
  | inl same ↦ rw (same, set_state) h
  | inr moves ↦ elim e [
    | inl edge ↦ moved-IsTraced now s cb h edge moves
    | inr same ↦ absurd (state_beq-ne cb.state s moves same)
  ]
]

with_counts-IsTraced :
    (counts : Counts) (cb : CircuitBreaker) → IsTraced cb → IsTraced (record cb { counts = counts })
with_counts-IsTraced counts cb h = record {
  reported = h.reported;
  leads = h.leads;
  counted = h.counted;
}

should_close-edge :
    (config : Config) (counts : Counts) (s : State)
    → should_close config counts s ≡ true
    → is_edge s state_closed ≡ true
should_close-edge config counts s h = ground arith

should_open-edge :
    (config : Config) (counts : Counts) (s : State)
    → should_open config counts s ≡ true
    → is_edge s state_open ≡ true
should_open-edge config counts s h = ground arith

on_success-IsTraced :
    (now : Time) (cb : CircuitBreaker) → IsTraced cb → IsTraced (on_success now cb)
unfolding on_success
on_success-IsTraced now cb h =
    let counts = count_success cb.counts in
    let h' = with_counts-IsTraced counts cb h in
    elim (Bool-cases (should_close cb.config counts cb.state)) [
      | inl closes ↦ rw closes (
          set_state-IsTraced now state_closed (record cb { counts = counts }) h'
            (inl (should_close-edge cb.config counts cb.state closes)))
      | inr stays ↦ rw stays h'
    ]

on_failure-IsTraced :
    (now : Time) (cb : CircuitBreaker) → IsTraced cb → IsTraced (on_failure now cb)
unfolding on_failure
on_failure-IsTraced now cb h =
    let counts = count_failure cb.counts in
    let h' = with_counts-IsTraced counts cb h in
    elim (Bool-cases (should_open cb.config counts cb.state)) [
      | inl opens ↦ rw opens (
          set_state-IsTraced now state_open (record cb { counts = counts }) h'
            (inl (should_open-edge cb.config counts cb.state opens)))
      | inr stays ↦ rw stays h'
    ]

before_request-IsTraced :
    (now : Time) (cb : CircuitBreaker) → IsTraced cb → IsTraced (before_request now cb).1
unfolding before_request
before_request-IsTraced now cb h = grind (arith, set_state-IsTraced)

-- Reset closes: from the closed state it does nothing.
reset-IsTraced : (now : Time) (cb : CircuitBreaker) → IsTraced cb → IsTraced (reset now cb)
unfolding reset
reset-IsTraced now cb h = set_state-IsTraced now state_closed cb h (reset_edge cb.state)
  where
    reset_edge : (s : State) → (is_edge s state_closed ≡ true) ⊎ (s ≡ state_closed)
    reset_edge state_closed = inr refl
    reset_edge state_open = inl refl
    reset_edge state_half_open = inl refl

step-IsTraced : (e : Event) (cb : CircuitBreaker) → IsTraced cb → IsTraced (step e cb)
step-IsTraced (admit t) cb h = before_request-IsTraced t cb h
step-IsTraced (success t) cb h = on_success-IsTraced t cb h
step-IsTraced (failure t) cb h = on_failure-IsTraced t cb h
step-IsTraced (clear t) cb h = reset-IsTraced t cb h

run_keeps_trace : (es : List Event) (cb : CircuitBreaker) → IsTraced cb → IsTraced (run es cb)
unfolding run
run_keeps_trace [] cb h = h
run_keeps_trace (e ∷ es) cb h = run_keeps_trace es (step e cb) (step-IsTraced e cb h)

new-IsTraced :
    (config : Option Config) (now : Time)
    → (given_or_default config).on_state_change ≡ true
    → IsTraced (new config now)
unfolding new
new-IsTraced config now h = record { reported = h; leads = refl; counted = refl }

-- Take a breaker that New made with a callback and any sequence of the two halves of calls of
-- Execute (beforeRequest; onSuccess or onFailure) and of Reset, where each runs to its end, with
-- its setState and callback, before the next one begins. The state changes reported to the callback then lead, one from where
-- the other ended, from closed to the present state; each of them is closed to open, open to half
-- open, open to closed, half open to open or half open to closed; and the generation is their
-- number modulo 2^64.
pub run-IsTraced :
    (config : Option Config) (now : Time) (es : List Event)
    → (given_or_default config).on_state_change ≡ true
    → IsTraced (run es (new config now))
run-IsTraced config now es h = run_keeps_trace es (new config now) (new-IsTraced config now h)
