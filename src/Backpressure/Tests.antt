-- ===== src/Backpressure/Tests.antt =====
-- Runs of the subscriber of pkg/reactive/backpressure.go, and its theorems at concrete inputs.
use ling_framework.Base.{ℕ, ◌≡◌, refl, Bool, [], ◌∷◌, arith}
use ling_framework.Base.Int.{inc64, wrap64, ◌-ℤ◌}
use ling_framework.Backpressure.{
  buffer_backpressure, drop_backpressure, error_backpressure, latest_backpressure, next, exceeded,
  complete, Subscriber, subscribe, cancel, on_complete, on_next, admit, process,
}
use ling_framework.Backpressure.Strategies.{burst, fresh, burst-subscribe}
use ling_framework.Backpressure.Drain.{iterate, iterate-drains}

abbrev small : Subscriber ℕ Bool
small = subscribe (record { strategy = error_backpressure; buffer_size = 2 })

-- The fourth value finds the buffer full.
overflown :
    (on_complete (on_next 4 (on_next 3 (process (on_next 2 (on_next 1 small)))))).signals
    ≡ next 1 ∷ exceeded ∷ []
unfolding on_next process on_complete cancel inc64 wrap64 ◌-ℤ◌
overflown = refl

-- Values of goroutines that wait for room overtake each other.
overtaken :
    (process (
      admit 0 (
        process (
          admit 1 (
            process
              (on_next 3 (on_next 2 (on_next 1 (fresh ℕ Bool buffer_backpressure 1))))))))).signals
    ≡ next 1 ∷ next 3 ∷ next 2 ∷ []
unfolding on_next process admit inc64 wrap64 ◌-ℤ◌
overtaken = refl

abbrev buffering : Subscriber ℕ Bool
buffering = burst (5 ∷ 6 ∷ 7 ∷ []) (fresh ℕ Bool drop_backpressure 3)

-- What is in the buffer at the completion is lost.
completed : (process (process (on_complete buffering))).signals ≡ complete ∷ []
unfolding on_next process on_complete
completed = refl

iterate-drains_example :
    ((iterate 3 buffering).signals ≡ next 5 ∷ next 6 ∷ next 7 ∷ [])
    × ((iterate 3 buffering).buffer ≡ [])
unfolding on_next
iterate-drains_example = iterate-drains buffering refl refl

burst-subscribe_example :
    ((burst (1 ∷ 2 ∷ 3 ∷ 4 ∷ 5 ∷ []) (fresh ℕ Bool drop_backpressure 2)).buffer ≡ 1 ∷ 2 ∷ [])
    × ((burst (1 ∷ 2 ∷ 3 ∷ 4 ∷ 5 ∷ []) (fresh ℕ Bool latest_backpressure 2)).buffer ≡ 4 ∷ 5 ∷ [])
burst-subscribe_example = burst-subscribe ℕ Bool 2 (1 ∷ 2 ∷ 3 ∷ 4 ∷ 5 ∷ []) (omega arith)
