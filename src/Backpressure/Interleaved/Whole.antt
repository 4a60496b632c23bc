-- ===== src/Backpressure/Interleaved/Whole.antt =====
-- The calls of pkg/reactive/backpressure.go whose turns come with nothing in between.
use ling_framework.Base.{[], ◌∷◌}
use ling_framework.Backpressure.{Subscriber}
use ling_framework.Backpressure.Interleaved.{running, Turn, moves, turn_all}

module _ {V E : Type 0} where
  -- A call that starts with a turn and then has up to six more.
  abbrev pub in_whole : Turn V E → Subscriber V E → Subscriber V E
  in_whole t s =
      (turn_all (t ∷ moves 0 ∷ moves 0 ∷ moves 0 ∷ moves 0 ∷ moves 0 ∷ moves 0 ∷ [])
        (running s)).sub
