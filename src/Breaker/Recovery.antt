-- ===== src/Breaker/Recovery.antt =====
-- Successful calls of Execute, one after another, from the end of an open breaker's timeout.
use native.Mathlib.Decide.{dec_lt}
use ling_framework.Base.{
  ℕ, ◌+◌, ◌≤◌, ◌<◌, ◌≡◌, refl, sym, ap, ◌∙◌, some, List, [], ◌∷◌, arith, length, ltb, if◌then◌else◌,
}
use ling_framework.Base.Time.{Time}
use ling_framework.Breaker.{
  state_closed, state_half_open, CircuitBreaker, circuit_open, Call, on_success, before_request,
  execute,
}
use ling_framework.Breaker.Events.{execute_all}
use ling_framework.Breaker.Closed.{rejections}
use ling_framework.Breaker.HalfOpen.{
  HasLimits, IsDue, IsProbing, succeed, admit-IsProbing, on_success-IsProbing, on_success-closes,
  before_request-probing,
}

module _ {E : Type 0} where
  -- Calls of a function that succeeds, with the clock before and after it runs.
  abbrev pub successes : List (Time × Time) → List (Call E)
  successes [] = []
  successes ((t, u) ∷ ts) = succeed t u ∷ successes ts

  abbrev pub end_of : List (Call E) → CircuitBreaker → CircuitBreaker
  end_of cs cb = (execute_all cs cb).1

  end_of-cons :
      (c : Call E) (cs : List (Call E)) (cb : CircuitBreaker)
      → end_of (c ∷ cs) cb ≡ end_of cs (execute c cb).1
  unfolding execute_all
  end_of-cons c cs cb = refl

module _ (E : Type 0) where
  execute-closed :
      (t u : Time) (cb : CircuitBreaker)
      → cb.state ≡ state_closed
      → (execute (succeed {E = E} t u) cb).1.state ≡ state_closed
  unfolding execute before_request on_success
  execute-closed t u cb h = ground arith

  execute_all-closed :
      (ts : List (Time × Time)) (cb : CircuitBreaker)
      → cb.state ≡ state_closed
      → (end_of (successes {E = E} ts) cb).state ≡ state_closed
  unfolding execute_all
  execute_all-closed [] cb h = h
  execute_all-closed ((t, u) ∷ ts) cb h =
      rw end_of-cons (execute_all-closed ts (execute (succeed t u) cb).1 (execute-closed t u cb h))

  execute-probing :
      (t u : Time) (cb : CircuitBreaker) (r s n : ℕ)
      → IsProbing r s n cb
      → n < r
      → (execute (succeed {E = E} t u) cb).1 ≡ on_success u cb
  unfolding execute
  execute-probing t u cb r s n p room = ground (arith, before_request-probing t cb r s n p)

  execute-full :
      (c : Call E) (cb : CircuitBreaker) (r s n : ℕ)
      → IsProbing r s n cb
      → r ≤ n
      → execute c cb ≡ (some circuit_open, cb)
  unfolding execute
  execute-full c cb r s n p full = ground (arith, before_request-probing c.start cb r s n p)

  execute-due :
      (t u : Time) (cb : CircuitBreaker) (r s : ℕ)
      → HasLimits r s cb
      → IsDue t cb
      → (execute (succeed {E = E} t u) cb).1 ≡ on_success u (before_request t cb).1
  unfolding execute
  execute-due t u cb r s l d = ground (arith, (admit-IsProbing t cb r s l d).1)

  probing_recovers :
      (ts : List (Time × Time)) (cb : CircuitBreaker) (r s n : ℕ)
      → IsProbing r s n cb
      → n < s
      → s ≤ r
      → (end_of (successes {E = E} ts) cb).state
        ≡ (if ltb (n + length ts) s then state_half_open else state_closed)
  unfolding execute_all
  probing_recovers [] cb r s n p few fits = ground (arith, p.half)
  probing_recovers ((t, u) ∷ ts) cb r s n p few fits =
      rw (end_of-cons, execute-probing t u cb r s n p (omega arith))
        (elim (dec_lt (n + 1) s) [
          | yes more ↦ ground (
            arith,
            probing_recovers ts (on_success u cb) r s (n + 1)
                (on_success-IsProbing u cb r s n p (omega arith) more) more fits,
          )
          | no enough ↦ ground (
            arith,
            execute_all-closed ts (on_success u cb)
                (on_success-closes u cb r s n p (omega arith) (omega arith)),
          )
        ])

  -- The first call after the timeout runs as if the breaker had been half open already.
  end_of-due :
      (t u : Time) (ts : List (Time × Time)) (cb : CircuitBreaker) (r s : ℕ)
      → HasLimits r s cb
      → IsDue t cb
      → end_of (successes {E = E} ((t, u) ∷ ts)) cb
        ≡ end_of (successes {E = E} ((t, u) ∷ ts)) (before_request t cb).1
  end_of-due t u ts cb r s l d =
      let p = (admit-IsProbing t cb r s l d).0 in
      end_of-cons (succeed t u) (successes ts) cb
      ∙ ap (end_of (successes {E = E} ts)) (
          execute-due t u cb r s l d
          ∙ sym (execute-probing t u (before_request t cb).1 r s 0 p p.limits.some_request))
      ∙ sym (end_of-cons (succeed t u) (successes ts) (before_request t cb).1)

  fills_up :
      (ts : List (Time × Time)) (cb : CircuitBreaker) (r s n : ℕ)
      → IsProbing r s n cb
      → n + length ts ≡ r
      → r < s
      → IsProbing r s r (end_of (successes {E = E} ts) cb)
  unfolding execute_all
  fills_up [] cb r s n p full short = ground (arith, p.half, p.handled, p.succeeded)
  fills_up ((t, u) ∷ ts) cb r s n p full short =
      rw (end_of-cons, execute-probing t u cb r s n p (omega arith))
        (fills_up ts (on_success u cb) r s (n + 1)
          (on_success-IsProbing u cb r s n p (omega arith) (omega arith)) (omega arith) short)

  full_rejects :
      (cs : List (Call E)) (cb : CircuitBreaker) (r s : ℕ)
      → IsProbing r s r cb
      → execute_all cs cb ≡ (rejections cs, cb)
  unfolding execute_all
  full_rejects [] cb r s p = refl
  full_rejects (c ∷ cs) cb r s p =
      rw (execute-full c cb r s r p (omega arith), full_rejects cs cb r s p)

  -- Take an open breaker without ReadyToTrip whose timeout has passed at t, with positive limits
  -- and SuccessThreshold at most MaxRequests. After a call at t and further calls, one after
  -- another and all successful, it is half open while these are fewer than SuccessThreshold, and
  -- closed from then on.
  pub open_recovers :
      (t u : Time) (ts : List (Time × Time)) (cb : CircuitBreaker) (r s : ℕ)
      → HasLimits r s cb
      → IsDue t cb
      → s ≤ r
      → (end_of (successes {E = E} ((t, u) ∷ ts)) cb).state
        ≡ (if ltb (length ts + 1) s then state_half_open else state_closed)
  open_recovers t u ts cb r s l d fits =
      let p = (admit-IsProbing t cb r s l d).0 in
      rw (end_of-due t u ts cb r s l d) (
        ground (
          arith,
          probing_recovers ((t, u) ∷ ts) (before_request t cb).1 r s 0 p l.some_success fits,
        ))

  -- Take an open breaker without ReadyToTrip whose timeout has passed at t, with positive limits
  -- and SuccessThreshold above MaxRequests. After MaxRequests successful calls, one after another
  -- and the first at t, it is half open, and every later call of Execute, whenever it is made,
  -- is answered with ErrCircuitOpen and leaves the breaker as it is: it never closes by itself.
  pub open_starves :
      (t u : Time) (ts : List (Time × Time)) (cs : List (Call E)) (cb : CircuitBreaker) (r s : ℕ)
      → HasLimits r s cb
      → IsDue t cb
      → r < s
      → length ts + 1 ≡ r
      → ((end_of (successes {E = E} ((t, u) ∷ ts)) cb).state ≡ state_half_open)
        × (execute_all cs (end_of (successes {E = E} ((t, u) ∷ ts)) cb)
            ≡ (rejections cs, end_of (successes {E = E} ((t, u) ∷ ts)) cb))
  open_starves t u ts cs cb r s l d short full =
      let p = (admit-IsProbing t cb r s l d).0 in
      let q = fills_up ((t, u) ∷ ts) (before_request t cb).1 r s 0 p (omega arith) short in
      rw (end_of-due t u ts cb r s l d)
        (q.half, full_rejects cs (end_of (successes ((t, u) ∷ ts)) (before_request t cb).1) r s q)
