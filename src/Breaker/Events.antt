-- ===== src/Breaker/Events.antt =====
-- The steps of a breaker that several goroutines share (pkg/circuitbreaker), each run to its end
-- before the next one begins, and sequences of calls of Execute.
use ling_framework.Base.{Option, List, [], ◌∷◌}
use ling_framework.Base.Time.{Time}
use ling_framework.Breaker.{
  CircuitBreaker, Error, Call, before_request, on_success, on_failure, reset, execute,
}

-- Execute is `admit`, then `success` or `failure`; those of other calls may come in between.
pub data Event : Type 0 where
  admit success failure clear : Time → Event

abbrev pub step : Event → CircuitBreaker → CircuitBreaker
step (admit t) cb = (before_request t cb).1
step (success t) cb = on_success t cb
step (failure t) cb = on_failure t cb
step (clear t) cb = reset t cb

unfoldable pub run : List Event → CircuitBreaker → CircuitBreaker
run [] cb = cb
run (e ∷ es) cb = run es (step e cb)

module _ {E : Type 0} where
  -- One caller, one call of Execute after another: the errors and the last breaker.
  unfoldable pub execute_all :
      List (Call E) → CircuitBreaker → List (Option (Error E)) × CircuitBreaker
  execute_all [] cb = ([], cb)
  execute_all (c ∷ cs) cb =
      let (err, cb') = execute c cb in let (errs, cb'') = execute_all cs cb' in (err ∷ errs, cb'')
