-- ===== src/Backpressure/Drain.antt =====
-- The goroutine `process` of pkg/reactive/backpressure.go, left to itself.
use mathlib.Core.List.{append_assoc, append-nil}
use ling_framework.Base.{
  ℕ, zero, suc, ◌≡◌, refl, sym, ap, ◌∙◌, false, List, [], ◌∷◌, ◌++◌, arith, length, map,
  if◌then◌else◌,
}
use ling_framework.Backpressure.{next, Subscriber, process_from, process}

module _ {V E : Type 0} where
  -- So many iterations.
  abbrev pub iterate : ℕ → Subscriber V E → Subscriber V E
  iterate zero s = s
  iterate (suc n) s = iterate n (process s)

  process_from-next :
      (v : V) (vs : List V) (s : Subscriber V E)
      → s.cancelled ≡ false
      → ((process_from (v ∷ vs) s).signals ≡ s.signals ++ next v ∷ [])
        × ((process_from (v ∷ vs) s).buffer ≡ vs)
        × ((process_from (v ∷ vs) s).cancelled ≡ false)
        × ((process_from (v ∷ vs) s).ended ≡ s.ended)
  process_from-next v vs s live = ground (arith, live)

  process-next :
      (v : V) (vs : List V) (s : Subscriber V E)
      → s.buffer ≡ v ∷ vs
      → s.cancelled ≡ false
      → s.ended ≡ false
      → process s ≡ process_from (v ∷ vs) s
  unfolding process
  process-next v vs s same live running =
      ap (λ b. if b then s else process_from s.buffer s) running ∙ ap (λ b. process_from b s) same

  iterate-all :
      (vs : List V) (s : Subscriber V E)
      → s.buffer ≡ vs
      → s.cancelled ≡ false
      → s.ended ≡ false
      → ((iterate (length vs) s).signals ≡ s.signals ++ map next vs)
        × ((iterate (length vs) s).buffer ≡ [])
  iterate-all [] s same live running = (sym (append-nil s.signals), same)
  iterate-all (v ∷ vs) s same live running =
      let one = process_from-next v vs s live in
      let step = process-next v vs s same live running in
      let rest = iterate-all vs (process_from (v ∷ vs) s) one.1 one.2 (one.3 ∙ running) in
      (
        ap (λ t. (iterate (length vs) t).signals) step
            ∙ rest.0
            ∙ ap (λ es. es ++ map next vs) one.0
            ∙ append_assoc s.signals (next v ∷ []) (map next vs),
        ap (λ t. (iterate (length vs) t).buffer) step ∙ rest.1,
      )

  -- While the subscription goes on, as many iterations of `process` as the buffer has values empty
  -- it, and call the downstream subscriber with these values, in their order.
  pub iterate-drains :
      (s : Subscriber V E)
      → s.cancelled ≡ false
      → s.ended ≡ false
      → ((iterate (length s.buffer) s).signals ≡ s.signals ++ map next s.buffer)
        × ((iterate (length s.buffer) s).buffer ≡ [])
  iterate-drains s live running = iterate-all s.buffer s refl live running
