-- ===== src/Backpressure/Interleaved/Kept.antt =====
-- What a turn of a call does in pkg/reactive/backpressure.go, wherever the call stands.
use mathlib.Core.List.{append-nil}
use ling_framework.Base.{
  ℕ, ◌+◌, ◌≤◌, ◌≡◌, refl, ap, ◌∙◌, Bool, true, false, List, [], ◌∷◌, ◌++◌, arith, length,
  length-append, if_holds, if◌then◌else◌,
}
use ling_framework.Backpressure.{
  BackpressureStrategy, buffer_backpressure, drop_backpressure, error_backpressure,
  latest_backpressure, Signal, error, exceeded, complete, Subscriber, has_room, signal,
}
use ling_framework.Backpressure.Interleaved.{
  Ending, by_error, by_complete, by_cancel, Call, offers, drops, replaces, checks_cancelled,
  checks_closed, sends, checks_count, counts, exceeds, exceeding, closes, shuts, reports, overflow,
  drop_from, enqueue, swap_cancelled, report, advance,
}
use ling_framework.Backpressure.Interleaved.Signals.{
  one_if, endings, values, late, is_ending, ending, endings-append, values-append, late-append,
}

module _ {V E : Type 0} where
  -- What a turn of a call does, where `n` calls besides are ending.
  pub record IsAdvance (n : ℕ) (c : Call V E) (s : Subscriber V E)
      (p : List (Call V E) × Subscriber V E) : Type 0 where
    pub room : length s.buffer ≤ s.config.buffer_size → length p.1.buffer ≤ p.1.config.buffer_size
    pub ends :
        endings s.signals + (is_ending c + n) ≤ one_if s.cancelled
        → endings p.1.signals + (ending p.0 + n) ≤ one_if p.1.cancelled
    pub keeps : p.1.config ≡ s.config
    pub lates : late p.1.signals ≤ late s.signals
    pub gives : values p.1.signals ≡ values s.signals
    pub stays : s.cancelled ≡ true → p.1.cancelled ≡ true

  -- A turn that leaves the subscriber as it was.
  waits-IsAdvance :
      (n : ℕ) (c : Call V E) (s : Subscriber V E) (cs : List (Call V E))
      → ending cs ≤ is_ending c
      → IsAdvance n c s (cs, s)
  waits-IsAdvance n c s cs le = record {
    room = λ h. h;
    ends = λ h. omega (arith, h, le);
    keeps = refl;
    lates = omega arith;
    gives = refl;
    stays = λ h. h;
  }

  -- One that changes the buffer.
  buffer-IsAdvance :
      (n : ℕ) (c : Call V E) (s : Subscriber V E) (cs : List (Call V E)) (vs : List V)
      → ending cs ≤ is_ending c
      → (length s.buffer ≤ s.config.buffer_size → length vs ≤ s.config.buffer_size)
      → IsAdvance n c s (cs, record s { buffer = vs })
  buffer-IsAdvance n c s cs vs le fits = record {
    room = fits;
    ends = λ h. omega (arith, h, le);
    keeps = refl;
    lates = omega arith;
    gives = refl;
    stays = λ h. h;
  }

  enqueue-IsAdvance :
      (n : ℕ) (c : Call V E) (s : Subscriber V E) (cs : List (Call V E)) (v : V)
      → ending cs ≤ is_ending c
      → has_room s ≡ true
      → IsAdvance n c s (cs, enqueue v s)
  enqueue-IsAdvance n c s cs v le free =
      buffer-IsAdvance n c s cs (s.buffer ++ v ∷ []) le
        (λ h. ground (arith, length-append s.buffer (v ∷ []), free))

  overflow-IsAdvance :
      (n : ℕ) (o : BackpressureStrategy) (v : V) (s : Subscriber V E)
      → IsAdvance n (offers v) s (overflow o v s)
  overflow-IsAdvance n buffer_backpressure v s =
      waits-IsAdvance n (offers v) s (checks_cancelled v ∷ []) (omega arith)
  overflow-IsAdvance n drop_backpressure v s = waits-IsAdvance n (offers v) s [] (omega arith)
  overflow-IsAdvance n error_backpressure v s =
      waits-IsAdvance n (offers v) s (exceeds ∷ []) (omega arith)
  overflow-IsAdvance n latest_backpressure v s =
      waits-IsAdvance n (offers v) s (drops v ∷ []) (omega arith)

  drop_from-IsAdvance :
      (n : ℕ) (v : V) (shut : Bool) (s : Subscriber V E) (vs : List V)
      → s.buffer ≡ vs
      → IsAdvance n (drops v) s (drop_from vs v shut s)
  drop_from-IsAdvance n v true s [] same =
      waits-IsAdvance n (drops v) s (replaces v ∷ []) (omega arith)
  drop_from-IsAdvance n v false s [] same =
      waits-IsAdvance n (drops v) s (drops v ∷ []) (omega arith)
  drop_from-IsAdvance n v shut s (x ∷ xs) same =
      buffer-IsAdvance n (drops v) s (replaces v ∷ []) xs (omega arith)
        (λ h. omega (arith, ap length same, h))

  pub swap_cancelled-IsAdvance :
      (n : ℕ) (c : Call V E) (e : Ending E) (s : Subscriber V E)
      → IsAdvance n c s (swap_cancelled e s)
  swap_cancelled-IsAdvance n c e s =
      if_holds (IsAdvance n c s) s.cancelled _ _ (λ h. waits-IsAdvance n c s [] (omega arith))
        (λ live. record {
          room = λ h. h;
          ends = λ h. ground (arith, h, live);
          keeps = refl;
          lates = omega arith;
          gives = refl;
          stays = λ h. refl;
        })

  signal-IsAdvance :
      (n : ℕ) (c : Call V E) (s : Subscriber V E) (cs : List (Call V E)) (e : Signal V E)
      → ending cs + endings (e ∷ []) ≤ is_ending c
      → values (e ∷ []) ≡ []
      → IsAdvance n c s (cs, signal e s)
  signal-IsAdvance n c s cs e le other = record {
    room = λ h. h;
    ends = λ h. omega (arith, h, le, endings-append s.signals (e ∷ []));
    keeps = refl;
    lates = omega (arith, late-append s.signals e, ap length other);
    gives = values-append s.signals (e ∷ []) ∙ ap (λ l. values s.signals ++ l) other ∙ append-nil _;
    stays = λ h. h;
  }

  report-IsAdvance :
      (n : ℕ) (e : Ending E) (s : Subscriber V E) → IsAdvance n (reports e) s ([], report e s)
  report-IsAdvance n (by_error e) s =
      signal-IsAdvance n (reports (by_error e)) s [] (error e) (omega arith) refl
  report-IsAdvance n by_complete s =
      signal-IsAdvance n (reports by_complete) s [] complete (omega arith) refl
  report-IsAdvance n by_cancel s = record {
    room = λ h. h;
    ends = λ h. omega (arith, h);
    keeps = refl;
    lates = omega arith;
    gives = refl;
    stays = λ h. h;
  }

  -- A test that ends a call or not.
  pub test-IsAdvance :
      (n : ℕ) (b : Bool) (c d : Call V E) (s : Subscriber V E)
      → is_ending d ≤ is_ending c
      → IsAdvance n c s ((if b then [] else d ∷ []), s)
  test-IsAdvance n true c d s le = waits-IsAdvance n c s [] (omega arith)
  test-IsAdvance n false c d s le = waits-IsAdvance n c s (d ∷ []) (omega (arith, le))

  pub advance-IsAdvance :
      (n : ℕ) (c : Call V E) (shut : Bool) (s : Subscriber V E) → IsAdvance n c s (advance c shut s)
  unfolding advance
  advance-IsAdvance n (offers v) shut s =
      if_holds (IsAdvance n (offers v) s) (has_room s) _ _
        (λ free. enqueue-IsAdvance n (offers v) s (counts ∷ []) v (omega arith) free)
        (λ full. overflow-IsAdvance n s.config.strategy v s)
  advance-IsAdvance n (drops v) shut s = drop_from-IsAdvance n v shut s s.buffer refl
  advance-IsAdvance n (replaces v) shut s =
      if_holds (IsAdvance n (replaces v) s) (has_room s) _ _
        (λ free. enqueue-IsAdvance n (replaces v) s [] v (omega arith) free)
        (λ full. waits-IsAdvance n (replaces v) s (replaces v ∷ []) (omega arith))
  advance-IsAdvance n (checks_cancelled v) shut s =
      test-IsAdvance n s.cancelled (checks_cancelled v) (checks_closed v) s (omega arith)
  advance-IsAdvance n (checks_closed v) shut s =
      test-IsAdvance n s.closed (checks_closed v) (sends v) s (omega arith)
  advance-IsAdvance n (sends v) true s = waits-IsAdvance n (sends v) s [] (omega arith)
  advance-IsAdvance n (sends v) false s =
      if_holds (IsAdvance n (sends v) s) (has_room s) _ _
        (λ free. enqueue-IsAdvance n (sends v) s (checks_count ∷ []) v (omega arith) free)
        (λ full. waits-IsAdvance n (sends v) s (sends v ∷ []) (omega arith))
  advance-IsAdvance n checks_count shut s =
      test-IsAdvance n s.closed checks_count counts s (omega arith)
  advance-IsAdvance n counts shut s = record {
    room = λ h. h;
    ends = λ h. omega (arith, h);
    keeps = refl;
    lates = omega arith;
    gives = refl;
    stays = λ h. h;
  }
  advance-IsAdvance n exceeds shut s =
      signal-IsAdvance n exceeds s (exceeding ∷ []) exceeded (omega arith) refl
  advance-IsAdvance n exceeding shut s = swap_cancelled-IsAdvance n exceeding by_cancel s
  advance-IsAdvance n (closes e) shut s = record {
    room = λ h. h;
    ends = λ h. omega (arith, h);
    keeps = refl;
    lates = omega arith;
    gives = refl;
    stays = λ h. h;
  }
  advance-IsAdvance n (shuts e) shut s =
      waits-IsAdvance n (shuts e) s (reports e ∷ []) (omega arith)
  advance-IsAdvance n (reports e) shut s = report-IsAdvance n e s
