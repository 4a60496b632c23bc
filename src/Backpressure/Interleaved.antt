-- ===== src/Backpressure/Interleaved.antt =====
-- The subscriber of pkg/reactive/backpressure.go with its goroutines interleaved at each access of
-- the shared state: a turn is one atomic load, store or add, one operation of the channel, or one
-- call of the downstream or the upstream. Any number of calls of the methods may be under way.
-- `closed` is the field of this name, `shut` tells that the channel itself is closed. The channel
-- has room for one value or more.
pub mod Signals
pub mod Kept
pub mod Runs
pub mod Lost
pub mod Whole
mod Tests
use ling_framework.Base.{
  ℕ, ◌/◌, Bool, true, false, ◌&&◌, ◌||◌, Option, none, some, List, [], ◌∷◌, ◌++◌, if◌then◌else◌,
}
use ling_framework.Base.Int.{pos, ◌-ℤ◌, ltb_ℤ, inc64, wrap64}
use ling_framework.Backpressure.{
  BackpressureStrategy, buffer_backpressure, drop_backpressure, error_backpressure,
  latest_backpressure, Signal, next, error, exceeded, complete, Subscriber, has_room, signal,
  take_nth,
}

-- Who has set `cancelled`: OnError, OnComplete or Cancel.
pub data Ending (E : Type 0) : Type 0 where
  by_error : E → Ending E
  by_complete by_cancel : Ending E

-- Where a call stands. OnNext: before the select; before the count; before the report of
-- ErrBackpressureExceeded, and before the Cancel after it; before it receives the oldest value, and before it sends the
-- newest. The goroutine that OnNext starts: before its two tests, the send, and the test after it.
-- OnError, OnComplete and Cancel, with `cancelled` set: before the store into `closed`, before
-- close(buffer), before the call of the downstream or the upstream.
pub data Call (V E : Type 0) : Type 0 where
  offers drops replaces : V → Call V E
  checks_cancelled checks_closed sends : V → Call V E
  checks_count counts exceeds exceeding : Call V E
  closes shuts reports : Ending E → Call V E

-- Where `process` stands: at the channel; before the test of `cancelled`, the count and the call of
-- OnNext with a value; before the test for a request and before the request; and returned.
pub data Phase (V : Type 0) : Type 0 where
  idle delivered asking returned : Phase V
  received passed counted : V → Phase V

pub record Running (V E : Type 0) : Type 0 where
  pub sub : Subscriber V E
  pub shut : Bool
  pub panicked : Bool
  pub phase : Phase V
  pub calls : List (Call V E)

module _ {V E : Type 0} where
  abbrev pub running : Subscriber V E → Running V E
  running s = record { sub = s; shut = false; panicked = false; phase = idle; calls = [] }

  -- OnNext where the buffer is full.
  abbrev pub overflow : BackpressureStrategy → V → Subscriber V E → List (Call V E) × Subscriber V E
  overflow buffer_backpressure v s = (checks_cancelled v ∷ [], s)
  overflow drop_backpressure v s = ([], s)
  overflow error_backpressure v s = (exceeds ∷ [], s)
  overflow latest_backpressure v s = (drops v ∷ [], s)

  -- <-s.buffer, which waits on an open and empty channel.
  abbrev pub drop_from : List V → V → Bool → Subscriber V E → List (Call V E) × Subscriber V E
  drop_from [] v shut s = ((if shut then replaces v else drops v) ∷ [], s)
  drop_from (x ∷ xs) v shut s = (replaces v ∷ [], record s { buffer = xs })

  abbrev pub enqueue : V → Subscriber V E → Subscriber V E
  enqueue v s = record s { buffer = s.buffer ++ v ∷ [] }

  -- CompareAndSwapInt32(&s.cancelled, 0, 1)
  abbrev pub swap_cancelled : Ending E → Subscriber V E → List (Call V E) × Subscriber V E
  swap_cancelled e s =
      if s.cancelled then ([], s) else (closes e ∷ [], record s { cancelled = true })

  abbrev pub report : Ending E → Subscriber V E → Subscriber V E
  report (by_error e) s = signal (error e) s
  report by_complete s = signal complete s
  report by_cancel s = record s { upstream_cancelled = s.upstream || s.upstream_cancelled }

  -- The next turn of a call, with the channel closed or not: what is left of the call.
  unfoldable pub advance : Call V E → Bool → Subscriber V E → List (Call V E) × Subscriber V E
  advance (offers v) shut s =
      if has_room s then (counts ∷ [], enqueue v s) else overflow s.config.strategy v s
  advance (drops v) shut s = drop_from s.buffer v shut s
  advance (replaces v) shut s = if has_room s then ([], enqueue v s) else (replaces v ∷ [], s)
  advance (checks_cancelled v) shut s = ((if s.cancelled then [] else checks_closed v ∷ []), s)
  advance (checks_closed v) shut s = ((if s.closed then [] else sends v ∷ []), s)
  advance (sends v) shut s =
      if shut
      then ([], s)
      else (if has_room s then (checks_count ∷ [], enqueue v s) else (sends v ∷ [], s))
  advance checks_count shut s = ((if s.closed then [] else counts ∷ []), s)
  advance counts shut s = ([], record s { buffered = inc64 s.buffered })
  advance exceeds shut s = (exceeding ∷ [], signal exceeded s)
  advance exceeding shut s = swap_cancelled by_cancel s
  advance (closes e) shut s = (shuts e ∷ [], record s { closed = true })
  advance (shuts e) shut s = (reports e ∷ [], s)
  advance (reports e) shut s = ([], report e s)

  -- A send of OnNext on a closed channel panics; that of its goroutine is recovered.
  abbrev pub panics : Call V E → Bool
  panics (offers v) = true
  panics (replaces v) = true
  panics _ = false

  abbrev pub shuts_channel : Call V E → Bool
  shuts_channel (shuts e) = true
  shuts_channel _ = false

  abbrev pub move_found : Option (Call V E × List (Call V E)) → Running V E → Running V E
  move_found none r = r
  move_found (some (c, cs)) r =
      if r.shut && panics c then record r { panicked = true; calls = cs } else record r {
        sub = (advance c r.shut r.sub).1;
        shut = r.shut || shuts_channel c;
        calls = cs ++ (advance c r.shut r.sub).0;
      }

  abbrev pub receive : List V → Running V E → Running V E
  receive [] r = record r { phase = if r.shut then returned else idle }
  receive (v ∷ vs) r = record r { sub = record r.sub { buffer = vs }; phase = received v }

  -- The next turn of `process`.
  abbrev pub proceed : Phase V → Running V E → Running V E
  proceed idle r = receive r.sub.buffer r
  proceed (received v) r = record r { phase = if r.sub.cancelled then returned else passed v }
  proceed (passed v) r = record r {
    sub = record r.sub { buffered = wrap64 (r.sub.buffered -ℤ pos 1) };
    phase = counted v;
  }
  proceed (counted v) r = record r { sub = signal (next v) r.sub; phase = delivered }
  proceed delivered r = record r {
    phase = if ltb_ℤ r.sub.buffered (pos (r.sub.config.buffer_size / 2)) then asking else idle;
  }
  proceed asking r = record r {
    sub =
        if r.sub.upstream
        then record r.sub { requests = r.sub.requests ++ r.sub.config.buffer_size / 2 ∷ [] }
        else r.sub;
    phase = idle;
  }
  proceed returned r = r

  -- A call that has made its first turn, the test or the swap of `cancelled`.
  abbrev pub begin : List (Call V E) × Subscriber V E → Running V E → Running V E
  begin p r = record r { sub = p.1; calls = r.calls ++ p.0 }

-- The start of a call of a method, the next turn of the n-th call, and that of `process`.
pub data Turn (V E : Type 0) : Type 0 where
  starts_next : V → Turn V E
  starts_error : E → Turn V E
  starts_complete starts_cancel subscribes goes : Turn V E
  moves : ℕ → Turn V E

module _ {V E : Type 0} where
  abbrev pub turn_live : Turn V E → Running V E → Running V E
  turn_live (starts_next v) r = begin ((if r.sub.cancelled then [] else offers v ∷ []), r.sub) r
  turn_live (starts_error e) r = begin (swap_cancelled (by_error e) r.sub) r
  turn_live starts_complete r = begin (swap_cancelled by_complete r.sub) r
  turn_live starts_cancel r = begin (swap_cancelled by_cancel r.sub) r
  turn_live subscribes r = record r {
    sub = record r.sub { requests = r.sub.requests ++ r.sub.config.buffer_size ∷ [] };
  }
  turn_live goes r = proceed r.phase r
  turn_live (moves n) r = move_found (take_nth n r.calls) r

  -- A panic ends the program.
  unfoldable pub turn : Turn V E → Running V E → Running V E
  turn t r = if r.panicked then r else turn_live t r

  unfoldable pub turn_all : List (Turn V E) → Running V E → Running V E
  turn_all [] r = r
  turn_all (t ∷ ts) r = turn_all ts (turn t r)
