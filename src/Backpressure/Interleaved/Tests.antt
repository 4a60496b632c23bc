-- ===== src/Backpressure/Interleaved/Tests.antt =====
-- Runs of the subscriber of pkg/reactive/backpressure.go with its goroutines interleaved, and its
-- theorems at concrete inputs.
use ling_framework.Base.{ℕ, ◌≡◌, ◌≤◌, refl, Bool, true, List, [], ◌∷◌, ◌++◌, length}
use ling_framework.Base.Int.{pos, inc64, wrap64, ◌-ℤ◌}
use ling_framework.Backpressure.{
  BackpressureConfig, error_backpressure, next, complete, Subscriber, subscribe, on_next,
}
use ling_framework.Backpressure.Interleaved.{
  Running, running, advance, Turn, starts_next, starts_complete, starts_cancel, goes, moves, turn,
  turn_all,
}
use ling_framework.Backpressure.Interleaved.Signals.{held, endings, values, late}
use ling_framework.Backpressure.Interleaved.Runs.{turn_all-subscribe}
use ling_framework.Backpressure.Interleaved.Lost.{turn_all-starts_complete}

abbrev small : BackpressureConfig
small = record { strategy = error_backpressure; buffer_size = 2 }

abbrev start : Running ℕ Bool
start = running (subscribe small)

-- Two values are sent and counted; `process` takes the first and passes its test.
abbrev opening : List (Turn ℕ Bool)
opening = starts_next 5 ∷ moves 0 ∷ moves 0 ∷ starts_next 6 ∷ moves 0 ∷ moves 0 ∷ goes ∷ goes ∷ []

-- OnComplete runs to its end, and then `process` goes on.
abbrev closing : List (Turn ℕ Bool)
closing = moves 0 ∷ moves 0 ∷ moves 0 ∷ goes ∷ goes ∷ goes ∷ goes ∷ goes ∷ goes ∷ []

abbrev opened : Running ℕ Bool
opened = turn_all opening start

-- A value follows the completion, and the other one is lost.
value_after_completion :
    (turn_all closing (turn starts_complete opened)).sub.signals ≡ complete ∷ next 5 ∷ []
unfolding turn_all turn advance inc64 wrap64 ◌-ℤ◌
value_after_completion = refl

-- `process` takes a value, and counts it, before OnNext has counted it.
count_below_zero :
    (let r = turn_all (starts_next 5 ∷ moves 0 ∷ goes ∷ goes ∷ goes ∷ []) start in r.sub.buffered)
    ≡ wrap64 (pos 0 -ℤ pos 1)
unfolding turn_all turn advance
count_below_zero = refl

-- A Cancel while OnNext is under way: OnNext sends on the closed channel.
send_on_closed :
    (turn_all (starts_next 5 ∷ starts_cancel ∷ moves 1 ∷ moves 1 ∷ moves 0 ∷ []) start).panicked
    ≡ true
unfolding turn_all turn advance
send_on_closed = refl

abbrev whole : Subscriber ℕ Bool
whole = (turn_all (opening ++ starts_complete ∷ closing) start).sub

turn_all-subscribe_example :
    (length whole.buffer ≤ 2) × (endings whole.signals ≤ 1) × (late whole.signals ≤ 1)
turn_all-subscribe_example = turn_all-subscribe small (opening ++ starts_complete ∷ closing)

turn_all-starts_complete_example :
    values (turn_all closing (turn starts_complete opened)).sub.signals
      ++ held (turn_all closing (turn starts_complete opened)).phase
    ≡ 5 ∷ []
unfolding turn_all turn advance inc64 wrap64 ◌-ℤ◌
turn_all-starts_complete_example = turn_all-starts_complete closing opened refl refl

-- The buffer of two has both values, so the third is reported as too much.
abbrev filled : Subscriber ℕ Bool
filled = on_next 6 (on_next 5 (subscribe small))
