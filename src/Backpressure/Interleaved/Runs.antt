-- ===== src/Backpressure/Interleaved/Runs.antt =====
-- Runs of the subscriber of pkg/reactive/backpressure.go with its goroutines interleaved.
use ling_framework.Base.{
  ℕ, zero, suc, ◌+◌, ◌≤◌, ◌≡◌, refl, ap, ◌∙◌, inl, inr, Bool-cases, Bool, true, false, ◌&&◌, Option,
  none, some, List, [], ◌∷◌, arith, length, if_holds,
}
use ling_framework.Backpressure.{BackpressureConfig, next, Subscriber, subscribe, take_nth}
use ling_framework.Backpressure.Interleaved.{
  by_error, by_complete, by_cancel, Call, offers, counts, Phase, idle, delivered, asking, returned,
  received, passed, counted, Running, running, advance, panics, move_found, receive, proceed, begin,
  Turn, starts_next, starts_error, starts_complete, starts_cancel, subscribes, goes, moves,
  turn_live, turn, turn_all,
}
use ling_framework.Backpressure.Interleaved.Signals.{
  one_if, held, endings, late, is_ending, ending, endings-append, late-append, late-none,
  ending-append,
}
use ling_framework.Backpressure.Interleaved.Kept.{
  IsAdvance, swap_cancelled-IsAdvance, test-IsAdvance, advance-IsAdvance,
}

one_if-most : (b : Bool) → one_if b ≤ 1
one_if-most true = omega arith
one_if-most false = omega arith

module _ {V E : Type 0} where
  -- The buffer is within its size; the subscription is ended by one call; one value at most comes
  -- after the end.
  pub record IsSafe (config : BackpressureConfig) (r : Running V E) : Type 0 where
    pub keeps : r.sub.config ≡ config
    pub room : length r.sub.buffer ≤ r.sub.config.buffer_size
    pub once : endings r.sub.signals + ending r.calls ≤ one_if r.sub.cancelled
    pub lates : late r.sub.signals + length (held r.phase) ≤ 1

  -- The calls that remain where one is taken out.
  Taken : ℕ → Option (Call V E × List (Call V E)) → Type 0
  Taken n none = n ≡ n
  Taken n (some (c, cs)) = is_ending c + ending cs ≡ n

  Taken-later :
      (d : Call V E) (n : ℕ) (o : Option (Call V E × List (Call V E)))
      → Taken n o
      → Taken (is_ending d + n) (elim o [ none ↦ none | some (w, ws) ↦ some (w, d ∷ ws) ])
  unfolding Taken
  Taken-later d n none h = refl
  Taken-later d n (some (c, cs)) h = omega (arith, h)

  take_nth-Taken : (n : ℕ) (cs : List (Call V E)) → Taken (ending cs) (take_nth n cs)
  unfolding Taken
  take_nth-Taken n [] = refl
  take_nth-Taken zero (c ∷ cs) = refl
  take_nth-Taken (suc n) (c ∷ cs) = Taken-later c (ending cs) (take_nth n cs) (take_nth-Taken n cs)

  module _ (config : BackpressureConfig) where
    move_found-IsSafe :
        (o : Option (Call V E × List (Call V E))) (r : Running V E)
        → Taken (ending r.calls) o
        → IsSafe config r
        → IsSafe config (move_found o r)
    unfolding Taken
    move_found-IsSafe none r h ok = ok
    move_found-IsSafe (some (c, cs)) r h ok =
        let a = advance-IsAdvance (ending cs) c r.shut r.sub in
        if_holds (IsSafe config) (r.shut && panics c) _ _
          (λ b. record {
            keeps = ok.keeps;
            room = ok.room;
            once = omega (arith, ok.once, h);
            lates = ok.lates;
          })
          (λ b. record {
            keeps = a.keeps ∙ ok.keeps;
            room = a.room ok.room;
            once = omega (
              arith,
              a.ends (omega (arith, ok.once, h)),
              ending-append cs (advance c r.shut r.sub).0,
            );
            lates = omega (arith, a.lates, ok.lates);
          })

    receive-IsSafe :
        (vs : List V) (r : Running V E)
        → r.sub.buffer ≡ vs
        → r.phase ≡ idle
        → IsSafe config r
        → IsSafe config (receive vs r)
    receive-IsSafe [] r same at ok = record {
      keeps = ok.keeps;
      room = ok.room;
      once = ok.once;
      lates = ground (arith, ok.lates, at);
    }
    receive-IsSafe (v ∷ vs) r same at ok = record {
      keeps = ok.keeps;
      room = omega (arith, ap length same, ok.room);
      once = ok.once;
      lates = ground (arith, ok.lates, at);
    }

    -- `process` at another place, with no value held.
    at_phase-IsSafe :
        (r : Running V E) (q : Phase V)
        → (late r.sub.signals + length (held q) ≤ 1)
        → IsSafe config r
        → IsSafe config (record r { phase = q })
    at_phase-IsSafe r q h ok = record {
      keeps = ok.keeps;
      room = ok.room;
      once = ok.once;
      lates = h;
    }

    proceed-IsSafe :
        (q : Phase V) (r : Running V E)
        → r.phase ≡ q
        → IsSafe config r
        → IsSafe config (proceed q r)
    proceed-IsSafe idle r at ok = receive-IsSafe r.sub.buffer r refl at ok
    proceed-IsSafe (received v) r at ok = elim (Bool-cases r.sub.cancelled) [
      | inl h ↦ at_phase-IsSafe r _ (ground (arith, h, ok.lates)) ok
      | inr live ↦
          at_phase-IsSafe r _
            (ground (arith, live, late-none r.sub.signals (ground (arith, ok.once, live)))) ok
    ]
    proceed-IsSafe (passed v) r at ok = record {
      keeps = ok.keeps;
      room = ok.room;
      once = ok.once;
      lates = ground (arith, ok.lates, at);
    }
    proceed-IsSafe (counted v) r at ok = record {
      keeps = ok.keeps;
      room = ok.room;
      once = omega (arith, ok.once, endings-append r.sub.signals (next v ∷ []));
      lates = ground (arith, ok.lates, at, late-append r.sub.signals (next v));
    }
    proceed-IsSafe delivered r at ok = at_phase-IsSafe r _ (ground (arith, ok.lates)) ok
    proceed-IsSafe asking r at ok =
        if_holds (λ (x : Subscriber V E). IsSafe config (record r { sub = x; phase = idle }))
          r.sub.upstream _ _
          (λ h. record {
            keeps = ok.keeps;
            room = ok.room;
            once = ok.once;
            lates = ground (arith, ok.lates);
          })
          (λ h. record {
            keeps = ok.keeps;
            room = ok.room;
            once = ok.once;
            lates = ground (arith, ok.lates);
          })
    proceed-IsSafe returned r at ok = ok

    begin-IsSafe :
        (p : List (Call V E) × Subscriber V E) (r : Running V E)
        → IsAdvance (ending r.calls) counts r.sub p
        → IsSafe config r
        → IsSafe config (begin p r)
    begin-IsSafe p r a ok = record {
      keeps = a.keeps ∙ ok.keeps;
      room = a.room ok.room;
      once = omega (arith, a.ends (omega (arith, ok.once)), ending-append r.calls p.0);
      lates = omega (arith, a.lates, ok.lates);
    }

    turn_live-IsSafe :
        (t : Turn V E) (r : Running V E) → IsSafe config r → IsSafe config (turn_live t r)
    turn_live-IsSafe (starts_next v) r ok =
        begin-IsSafe _ r
          (test-IsAdvance (ending r.calls) r.sub.cancelled counts (offers v) r.sub (omega arith)) ok
    turn_live-IsSafe (starts_error e) r ok =
        begin-IsSafe _ r (swap_cancelled-IsAdvance (ending r.calls) counts (by_error e) r.sub) ok
    turn_live-IsSafe starts_complete r ok =
        begin-IsSafe _ r (swap_cancelled-IsAdvance (ending r.calls) counts by_complete r.sub) ok
    turn_live-IsSafe starts_cancel r ok =
        begin-IsSafe _ r (swap_cancelled-IsAdvance (ending r.calls) counts by_cancel r.sub) ok
    turn_live-IsSafe subscribes r ok = record {
      keeps = ok.keeps;
      room = ok.room;
      once = ok.once;
      lates = ok.lates;
    }
    turn_live-IsSafe goes r ok = proceed-IsSafe r.phase r refl ok
    turn_live-IsSafe (moves n) r ok =
        move_found-IsSafe (take_nth n r.calls) r (take_nth-Taken n r.calls) ok

    turn_all-IsSafe :
        (ts : List (Turn V E)) (r : Running V E) → IsSafe config r → IsSafe config (turn_all ts r)
    unfolding turn_all turn
    turn_all-IsSafe [] r ok = ok
    turn_all-IsSafe (t ∷ ts) r ok =
        turn_all-IsSafe ts (turn t r)
          (if_holds (IsSafe config) r.panicked r _ (λ h. ok) (λ h. turn_live-IsSafe t r ok))

  -- Whatever the strategy, and however the turns of `process`, of the calls of OnNext, OnError,
  -- OnComplete and Cancel and of the goroutines of OnNext are interleaved, from a new subscriber
  -- on: the buffer never holds more values than its size; the downstream is called at most once
  -- with a completion or an error of the source, and after that with at most one value.
  pub turn_all-subscribe :
      (config : BackpressureConfig) (ts : List (Turn V E))
      → let s = (turn_all ts (running (subscribe config))).sub in
        (length s.buffer ≤ config.buffer_size) × (endings s.signals ≤ 1) × (late s.signals ≤ 1)
  turn_all-subscribe config ts =
      let ok =
        turn_all-IsSafe config ts (running (subscribe config))
          (record { keeps = refl; room = omega arith; once = omega arith; lates = omega arith }) in
      (
        omega (arith, ok.room, ap (λ c. c.buffer_size) ok.keeps),
        omega
            (arith, ok.once, one_if-most (turn_all ts (running (subscribe config))).sub.cancelled),
        omega (arith, ok.lates),
      )
