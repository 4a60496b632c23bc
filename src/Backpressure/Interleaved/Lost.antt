-- ===== src/Backpressure/Interleaved/Lost.antt =====
-- What the downstream of pkg/reactive/backpressure.go is still given after a completion.
use mathlib.Core.List.{append-nil}
use ling_framework.Base.{
  ℕ, ◌≡◌, refl, sym, ap, ◌∙◌, true, false, ◌&&◌, Option, none, some, List, [], ◌∷◌, ◌++◌, arith,
  if_holds,
}
use ling_framework.Backpressure.{next, Subscriber, take_nth}
use ling_framework.Backpressure.Interleaved.{
  by_error, by_complete, by_cancel, Call, offers, counts, Phase, idle, delivered, asking, returned,
  received, passed, counted, Running, panics, move_found, receive, proceed, begin, Turn,
  starts_next, starts_error, starts_complete, starts_cancel, subscribes, goes, moves, turn_live,
  turn, turn_all,
}
use ling_framework.Backpressure.Interleaved.Signals.{held, values, values-append}
use ling_framework.Backpressure.Interleaved.Kept.{
  IsAdvance, swap_cancelled-IsAdvance, test-IsAdvance, advance-IsAdvance,
}

module _ {V E : Type 0} where
  -- The values that the downstream has been given, with the one that it is to be given next.
  abbrev pub delivery : Running V E → List V
  delivery r = values r.sub.signals ++ held r.phase

  -- Of two states, the second cancelled with the values of the first.
  IsFrozen : List V → Running V E → Type 0
  IsFrozen vs r = (r.sub.cancelled ≡ true) × (delivery r ≡ vs)

  -- `process` at another place that holds the same value.
  at_phase-IsFrozen :
      (r : Running V E) (q : Phase V) (vs : List V)
      → held q ≡ held r.phase
      → IsFrozen vs r
      → IsFrozen vs (record r { phase = q })
  unfolding IsFrozen
  at_phase-IsFrozen r q vs e h = (h.0, ap (λ l. values r.sub.signals ++ l) e ∙ h.1)

  receive-IsFrozen :
      (ws : List V) (r : Running V E) (vs : List V)
      → r.phase ≡ idle
      → IsFrozen vs r
      → IsFrozen vs (receive ws r)
  unfolding IsFrozen
  receive-IsFrozen [] r vs at h = at_phase-IsFrozen r _ vs (ground (arith, at)) h
  receive-IsFrozen (w ∷ ws) r vs at h = at_phase-IsFrozen r (received w) vs (ground (arith, at)) h

  begin-IsFrozen :
      (n : ℕ) (p : List (Call V E) × Subscriber V E) (r : Running V E) (vs : List V)
      → IsAdvance n counts r.sub p
      → IsFrozen vs r
      → IsFrozen vs (begin p r)
  unfolding IsFrozen
  begin-IsFrozen n p r vs a h = (a.stays h.0, ap (λ l. l ++ held r.phase) a.gives ∙ h.1)

  move_found-IsFrozen :
      (o : Option (Call V E × List (Call V E))) (r : Running V E) (vs : List V)
      → IsFrozen vs r
      → IsFrozen vs (move_found o r)
  unfolding IsFrozen
  move_found-IsFrozen none r vs h = h
  move_found-IsFrozen (some (c, cs)) r vs h =
      let a = advance-IsAdvance 0 c r.shut r.sub in
      if_holds (IsFrozen vs) (r.shut && panics c) _ _ (λ b. h)
        (λ b. (a.stays h.0, ap (λ l. l ++ held r.phase) a.gives ∙ h.1))

  proceed-IsFrozen :
      (q : Phase V) (r : Running V E) (vs : List V)
      → r.phase ≡ q
      → IsFrozen vs r
      → IsFrozen vs (proceed q r)
  unfolding IsFrozen
  proceed-IsFrozen idle r vs at h = receive-IsFrozen r.sub.buffer r vs at h
  proceed-IsFrozen (received v) r vs at h = at_phase-IsFrozen r _ vs (ground (arith, at, h.0)) h
  proceed-IsFrozen (passed v) r vs at h =
      (h.0, ap (λ q. values r.sub.signals ++ held q) (sym at) ∙ h.1)
  proceed-IsFrozen (counted v) r vs at h = (
    h.0,
    append-nil _
        ∙ values-append r.sub.signals (next v ∷ [])
        ∙ ap (λ q. values r.sub.signals ++ held q) (sym at)
        ∙ h.1,
  )
  proceed-IsFrozen delivered r vs at h = at_phase-IsFrozen r _ vs (ground (arith, at)) h
  proceed-IsFrozen asking r vs at h =
      if_holds (λ (x : Subscriber V E). IsFrozen vs (record r { sub = x; phase = idle }))
        r.sub.upstream _ _ (λ b. at_phase-IsFrozen r idle vs (ground (arith, at)) h)
        (λ b. at_phase-IsFrozen r idle vs (ground (arith, at)) h)
  proceed-IsFrozen returned r vs at h = h

  turn_live-IsFrozen :
      (t : Turn V E) (r : Running V E) (vs : List V) → IsFrozen vs r → IsFrozen vs (turn_live t r)
  unfolding IsFrozen
  turn_live-IsFrozen (starts_next v) r vs h =
      begin-IsFrozen 0 _ r vs
        (test-IsAdvance 0 r.sub.cancelled counts (offers v) r.sub (omega arith)) h
  turn_live-IsFrozen (starts_error e) r vs h =
      begin-IsFrozen 0 _ r vs (swap_cancelled-IsAdvance 0 counts (by_error e) r.sub) h
  turn_live-IsFrozen starts_complete r vs h =
      begin-IsFrozen 0 _ r vs (swap_cancelled-IsAdvance 0 counts by_complete r.sub) h
  turn_live-IsFrozen starts_cancel r vs h =
      begin-IsFrozen 0 _ r vs (swap_cancelled-IsAdvance 0 counts by_cancel r.sub) h
  turn_live-IsFrozen subscribes r vs h = h
  turn_live-IsFrozen goes r vs h = proceed-IsFrozen r.phase r vs refl h
  turn_live-IsFrozen (moves n) r vs h = move_found-IsFrozen (take_nth n r.calls) r vs h

  turn_all-IsFrozen :
      (ts : List (Turn V E)) (r : Running V E) (vs : List V)
      → IsFrozen vs r
      → IsFrozen vs (turn_all ts r)
  unfolding turn_all turn
  turn_all-IsFrozen [] r vs h = h
  turn_all-IsFrozen (t ∷ ts) r vs h =
      turn_all-IsFrozen ts (turn t r) vs
        (if_holds (IsFrozen vs) r.panicked r _ (λ b. h) (λ b. turn_live-IsFrozen t r vs h))

  -- The values that are in the buffer when OnComplete sets `cancelled` are lost: over every later
  -- interleaving the downstream is given at most the value, if any, for which `process` had passed
  -- its test of `cancelled` before. The values given, with that one while it is held, stay the
  -- same.
  pub turn_all-starts_complete :
      (ts : List (Turn V E)) (r : Running V E)
      → r.panicked ≡ false
      → r.sub.cancelled ≡ false
      → let r' = turn_all ts (turn starts_complete r) in
        values r'.sub.signals ++ held r'.phase ≡ values r.sub.signals ++ held r.phase
  unfolding turn IsFrozen
  turn_all-starts_complete ts r going live =
      (turn_all-IsFrozen ts (turn starts_complete r) (delivery r) (ground (arith, going, live))).1
