-- ===== src/Guard/Counted.antt =====
-- A counter in a cache: an int under a key, which lives for a span after the instant of its last
-- Set. The guards of pkg/utils/security count with such counters.
use ling_framework.Base.{
  ℕ, ◌+◌, ◌≤◌, ◌<◌, ◌≡◌, none, some, List, [], ◌∷◌, arith, Str, length, ltb, subst, if◌then◌else◌,
}
use ling_framework.Base.Int.{pos}
use ling_framework.Base.Time.{Time}
use ling_framework.Cache.{Value, int}
use ling_framework.Guard.{CacheOps, number_in}

-- Each instant follows the one before it, after `span` at most.
abbrev pub Close : Time → Time → List Time → Type 0
Close span t [] = Unit
Close span t (t' ∷ ts) = (t ≤ t') × (t' ≤ t + span) × Close span t' ts

abbrev pub last_of : Time → List Time → Time
last_of t [] = t
last_of t (t' ∷ ts) = last_of t' ts

module _ {C F O : Type 0} (ops : CacheOps C (Value F O)) (key : Str) where
  -- The counter as it stands after n calls, of which the last was at `last`.
  abbrev pub Counted : Time → ℕ → Time → C → Type 0
  Counted life n last c =
      (t : Time)
      → last ≤ t
      → ops.peek t key c ≡ (if ltb (last + life) t then none else some (int (pos n)))

  -- What a Get at an instant counts.
  abbrev pub Shows : ℕ → Time → C → Type 0
  Shows n now c = number_in (ops.peek now key c) ≡ pos n

  pub Counted-Shows :
      (life n last now : ℕ) (c : C)
      → Counted life n last c
      → last ≤ now
      → now ≤ last + life
      → Shows n now c
  Counted-Shows life n last now c h le in_time = rw (h now le) ground arith

  pub Shows-get : (n now : ℕ) (c : C) → Shows n now c → number_in (ops.get now key c).0 ≡ pos n
  Shows-get n now c h = rw (ops.get-peek now key c) h

  pub set-Counted :
      (life n now : ℕ) (c : C)
      → 0 < life
      → Counted life n now (ops.set now key (int (pos n)) (pos life) c)
  set-Counted life n now c positive t le = ops.peek-set now t life key (int (pos n)) c positive

  -- Steps at instants, each on the cache that the one before left.
  abbrev pub step_all {ℓ} : {S : Type ℓ} → (Time → S → S) → List Time → S → S
  step_all step [] s = s
  step_all step (t ∷ ts) s = step_all step ts (step t s)

  -- A step that counts one up, over close instants, as long as the number is below a bound.
  pub step_all-Counted :
      (step : Time → C → C) (life bound : ℕ)
      → ((n t : ℕ) (c : C) → Shows n t c → n < bound → Counted life (n + 1) t (step t c))
      → (n t : ℕ) (ts : List Time) (c : C) → Shows n t c
      → Close life t ts
      → n + length (t ∷ ts) ≤ bound
      → Counted life (n + length (t ∷ ts)) (last_of t ts) (step_all step (t ∷ ts) c)
  step_all-Counted step life bound counts n t [] c shows close le =
      subst (λ k. Counted life k t (step t c)) (omega arith)
        (counts n t c shows (omega (arith, le)))
  step_all-Counted step life bound counts n t (t' ∷ ts) c shows close le =
      let counted = counts n t c shows (omega (arith, le)) in
      let shows' = Counted-Shows life (n + 1) t t' (step t c) counted close.0 close.1 in
      subst (λ k. Counted life k (last_of t' ts) (step_all step (t' ∷ ts) (step t c))) (omega arith)
        (step_all-Counted step life bound counts (n + 1) t' ts (step t c) shows' close.2
          (omega (arith, le)))
