-- ===== src/Backpressure.antt =====
-- pkg/reactive/backpressure.go: the subscriber with a bounded buffer and its four strategies. The
-- channel is a queue of at most `buffer_size` values, with a size of 1 or more. Here a call of a
-- method runs to its end, and so do an iteration of the goroutine `process` and the sending of a
-- goroutine that OnNext starts where the buffer is full, with nothing in between; Interleaved has
-- them in turns. V are the values and E the errors of the source.
pub mod Strategies
pub mod Drain
pub mod Interleaved
mod Tests
use ling_framework.Base.{
  ℕ, zero, suc, ◌+◌, ◌/◌, Bool, true, false, ◌||◌, Option, none, some, List, [], ◌∷◌, ◌++◌, length,
  ltb, if◌then◌else◌,
}
use ling_framework.Base.Int.{ℤ, pos, ◌-ℤ◌, ltb_ℤ, inc64, wrap64}

pub data BackpressureStrategy : Type 0 where
  buffer_backpressure drop_backpressure error_backpressure : BackpressureStrategy
  latest_backpressure : BackpressureStrategy

pub record BackpressureConfig : Type 0 where
  pub strategy : BackpressureStrategy
  pub buffer_size : ℕ

-- DefaultBackpressureConfig
abbrev pub default_backpressure_config : BackpressureConfig
default_backpressure_config = record { strategy = buffer_backpressure; buffer_size = 128 }

-- What the downstream subscriber is called with; `exceeded` is ErrBackpressureExceeded.
pub data Signal (V E : Type 0) : Type 0 where
  next : V → Signal V E
  error : E → Signal V E
  exceeded complete : Signal V E

-- `waiting` are the values of the goroutines that wait for room, `signals` the calls of the
-- downstream subscriber and `requests` those of Request, both from the first to the last. `ended`
-- tells that the goroutine `process` has returned, `upstream` that the field of this name is set.
pub record Subscriber (V E : Type 0) : Type 0 where
  pub config : BackpressureConfig
  pub buffer : List V
  pub buffered : ℤ
  pub waiting : List V
  pub cancelled : Bool
  pub closed : Bool
  pub upstream : Bool
  pub upstream_cancelled : Bool
  pub ended : Bool
  pub requests : List ℕ
  pub signals : List (Signal V E)

module _ {V : Type 0} where
  abbrev pub drop_oldest : List V → List V
  drop_oldest [] = []
  drop_oldest (v ∷ vs) = vs

  -- The n-th of some values, and the others.
  abbrev pub take_nth : ℕ → List V → Option (V × List V)
  take_nth n [] = none
  take_nth zero (v ∷ vs) = some (v, vs)
  take_nth (suc n) (v ∷ vs) = elim (take_nth n vs) [ none ↦ none | some (w, ws) ↦ some (w, v ∷ ws) ]

module _ {V E : Type 0} where
  -- WithBackpressure and Subscribe
  abbrev pub subscribe : BackpressureConfig → Subscriber V E
  subscribe config = record {
    config = config;
    buffer = [];
    buffered = pos 0;
    waiting = [];
    cancelled = false;
    closed = false;
    upstream = true;
    upstream_cancelled = false;
    ended = false;
    requests = [];
    signals = [];
  }

  -- OnSubscribe
  unfoldable pub on_subscribe : Subscriber V E → Subscriber V E
  on_subscribe s = record s { requests = s.requests ++ s.config.buffer_size ∷ [] }

  abbrev pub has_room : Subscriber V E → Bool
  has_room s = ltb (length s.buffer) s.config.buffer_size

  -- case s.buffer <- value, with the count.
  abbrev pub push : V → Subscriber V E → Subscriber V E
  push v s = record s { buffer = s.buffer ++ v ∷ []; buffered = inc64 s.buffered }

  -- cancelled is set, and closeBuffer.
  abbrev pub close : Subscriber V E → Subscriber V E
  close s = record s { cancelled = true; closed = true }

  abbrev pub signal : Signal V E → Subscriber V E → Subscriber V E
  signal e s = record s { signals = s.signals ++ e ∷ [] }

  -- Cancel
  unfoldable pub cancel : Subscriber V E → Subscriber V E
  cancel s =
      if s.cancelled
      then s
      else record (close s) { upstream_cancelled = s.upstream || s.upstream_cancelled }

  -- OnError
  unfoldable pub on_error : E → Subscriber V E → Subscriber V E
  on_error err s = if s.cancelled then s else signal (error err) (close s)

  -- OnComplete
  unfoldable pub on_complete : Subscriber V E → Subscriber V E
  on_complete s = if s.cancelled then s else signal complete (close s)

  -- What the strategies do where the buffer is full.
  abbrev pub on_full : BackpressureStrategy → V → Subscriber V E → Subscriber V E
  on_full buffer_backpressure v s = record s { waiting = s.waiting ++ v ∷ [] }
  on_full drop_backpressure v s = s
  on_full error_backpressure v s = cancel (signal exceeded s)
  on_full latest_backpressure v s = record s { buffer = drop_oldest s.buffer ++ v ∷ [] }

  -- OnNext, with nothing in between.
  unfoldable pub on_next : V → Subscriber V E → Subscriber V E
  on_next v s =
      if s.cancelled then s else (if has_room s then push v s else on_full s.config.strategy v s)

  -- The goroutine that sends the n-th waiting value: it ends without the value after a Cancel, and
  -- waits on where there is no room.
  abbrev pub admit_found : Option (V × List V) → Subscriber V E → Subscriber V E
  admit_found none s = s
  admit_found (some (v, vs)) s =
      if s.cancelled || s.closed
      then record s { waiting = vs }
      else (if has_room s then push v (record s { waiting = vs }) else s)

  unfoldable pub admit : ℕ → Subscriber V E → Subscriber V E
  admit n s = admit_found (take_nth n s.waiting) s

  -- The end of an iteration: more is requested where the count is below half of the size.
  abbrev pub request_more : Subscriber V E → Subscriber V E
  request_more s =
      let half = s.config.buffer_size / 2 in
      if ltb_ℤ s.buffered (pos half)
      then (if s.upstream then record s { requests = s.requests ++ half ∷ [] } else s)
      else s

  abbrev pub process_value : V → Subscriber V E → Subscriber V E
  process_value v s =
      if s.cancelled
      then record s { ended = true }
      else request_more (signal (next v) (record s { buffered = wrap64 (s.buffered -ℤ pos 1) }))

  -- The loop of `process` ends when the channel is closed and empty.
  abbrev pub process_from : List V → Subscriber V E → Subscriber V E
  process_from [] s = record s { ended = s.closed }
  process_from (v ∷ vs) s = process_value v (record s { buffer = vs })

  -- An iteration of `process`, with nothing in between; on an open and empty channel it waits.
  unfoldable pub process : Subscriber V E → Subscriber V E
  process s = if s.ended then s else process_from s.buffer s
