-- ===== src/Backpressure/Strategies.antt =====
-- What the strategies of pkg/reactive/backpressure.go keep of a burst of values, with which the
-- goroutine `process` does not keep up.
use mathlib.Core.List.{append_assoc, append-nil}
use ling_framework.Base.{
  ℕ, zero, suc, ◌+◌, ◌-◌, ◌≤◌, ◌≡◌, refl, sym, ap, ap₂, ◌∙◌, false, List, [], ◌∷◌, ◌++◌, arith,
  length, length-append, take, drop, take-length, ltb, if◌then◌else◌, Bool-cases, inl, inr,
}
use ling_framework.Backpressure.{
  BackpressureStrategy, drop_backpressure, latest_backpressure, Subscriber, subscribe, drop_oldest,
  on_next,
}

-- The values that a buffer holds after one more, by the two strategies.
abbrev pub keep_first : {V : Type 0} → ℕ → V → List V → List V
keep_first size v b = if ltb (length b) size then b ++ v ∷ [] else b

abbrev pub keep_last : {V : Type 0} → ℕ → V → List V → List V
keep_last size v b = if ltb (length b) size then b ++ v ∷ [] else drop_oldest b ++ v ∷ []

keep_first_all : {V : Type 0} → ℕ → List V → List V → List V
keep_first_all size [] b = b
keep_first_all size (v ∷ vs) b = keep_first_all size vs (keep_first size v b)

keep_last_all : {V : Type 0} → ℕ → List V → List V → List V
keep_last_all size [] b = b
keep_last_all size (v ∷ vs) b = keep_last_all size vs (keep_last size v b)

take_all : {A : Type 0} (n : ℕ) (xs : List A) → length xs ≤ n → take n xs ≡ xs
take_all zero [] le = refl
take_all (suc n) [] le = refl
take_all zero (x ∷ xs) le = absurd (omega (arith, le))
take_all (suc n) (x ∷ xs) le = ap (◌∷◌ x) (take_all n xs (omega (arith, le)))

take_full : {A : Type 0} (n : ℕ) (xs ys : List A) → n ≡ length xs → take n (xs ++ ys) ≡ xs
take_full n xs ys e = ap (λ k. take k (xs ++ ys)) e ∙ take-length xs ys

keep_first_all-take :
    {V : Type 0} (size : ℕ) (vs b : List V)
    → length b ≤ size
    → keep_first_all size vs b ≡ take size (b ++ vs)
unfolding keep_first_all
keep_first_all-take size [] b le = sym (ap (take size) (append-nil b) ∙ take_all size b le)
keep_first_all-take size (v ∷ vs) b le = elim (Bool-cases (ltb (length b) size)) [
  | inl free ↦
      ap (λ t. keep_first_all size vs (if t then b ++ v ∷ [] else b)) free
      ∙ keep_first_all-take size vs (b ++ v ∷ []) (ground (arith, length-append b (v ∷ []), free))
      ∙ ap (take size) (append_assoc b (v ∷ []) vs)
  | inr full ↦
      let same : size ≡ length b = ground (arith, full, le) in
      ap (λ t. keep_first_all size vs (if t then b ++ v ∷ [] else b)) full
      ∙ keep_first_all-take size vs b le
      ∙ take_full size b vs same
      ∙ sym (take_full size b (v ∷ vs) same)
]

-- One value more in a full buffer.
shifted :
    {V : Type 0} (size : ℕ) (v : V) (vs b : List V)
    → 1 ≤ size
    → length b ≡ size
    → (length (drop_oldest b ++ v ∷ []) ≡ size)
      × (drop (size + length vs - size) ((drop_oldest b ++ v ∷ []) ++ vs)
          ≡ drop (length b + suc (length vs) - size) (b ++ v ∷ vs))
shifted size v vs [] positive full = absurd (omega (arith, positive, full))
shifted size v vs (x ∷ xs) positive full =
    let before : size + length vs - size ≡ length vs = omega arith in
    let after : suc (length vs) ≡ suc (length xs) + suc (length vs) - size = omega (arith, full) in
    (
      length-append xs (v ∷ []) ∙ omega (arith, full),
      ap (λ k. drop k ((xs ++ v ∷ []) ++ vs)) before
          ∙ ap (drop (length vs)) (append_assoc xs (v ∷ []) vs)
          ∙ ap (λ k. drop k (x ∷ xs ++ v ∷ vs)) after,
    )

keep_last_all-drop :
    {V : Type 0} (size : ℕ) (vs b : List V)
    → 1 ≤ size
    → length b ≤ size
    → keep_last_all size vs b ≡ drop (length b + length vs - size) (b ++ vs)
unfolding keep_last_all
keep_last_all-drop size [] b positive le =
    let none_over : length b + 0 - size ≡ 0 = omega (arith, le) in
    sym (ap (λ k. drop k (b ++ [])) none_over ∙ append-nil b)
keep_last_all-drop size (v ∷ vs) b positive le = elim (Bool-cases (ltb (length b) size)) [
  | inl free ↦
      let more : length (b ++ v ∷ []) ≡ length b + 1 = length-append b (v ∷ []) in
      ap (λ t. keep_last_all size vs (if t then b ++ v ∷ [] else drop_oldest b ++ v ∷ [])) free
      ∙ keep_last_all-drop size vs (b ++ v ∷ []) positive (ground (arith, more, free))
      ∙ ap₂ drop (omega (arith, more)) (append_assoc b (v ∷ []) vs)
  | inr full ↦
      let same : length b ≡ size = ground (arith, full, le) in
      let moved = shifted size v vs b positive same in
      ap (λ t. keep_last_all size vs (if t then b ++ v ∷ [] else drop_oldest b ++ v ∷ [])) full
      ∙ keep_last_all-drop size vs (drop_oldest b ++ v ∷ []) positive (omega (arith, moved.0))
      ∙ ap (λ k. drop (k + length vs - size) ((drop_oldest b ++ v ∷ []) ++ vs)) moved.0
      ∙ moved.1
]

module _ {V E : Type 0} where
  -- A burst of values.
  abbrev pub burst : List V → Subscriber V E → Subscriber V E
  burst [] s = s
  burst (v ∷ vs) s = burst vs (on_next v s)

  on_next-drop :
      (v : V) (s : Subscriber V E)
      → s.cancelled ≡ false
      → s.config.strategy ≡ drop_backpressure
      → ((on_next v s).buffer ≡ keep_first s.config.buffer_size v s.buffer)
        × ((on_next v s).cancelled ≡ false)
        × ((on_next v s).config ≡ s.config)
  unfolding on_next
  on_next-drop v s live by = ground (arith, live, by)

  on_next-latest :
      (v : V) (s : Subscriber V E)
      → s.cancelled ≡ false
      → s.config.strategy ≡ latest_backpressure
      → ((on_next v s).buffer ≡ keep_last s.config.buffer_size v s.buffer)
        × ((on_next v s).cancelled ≡ false)
        × ((on_next v s).config ≡ s.config)
  unfolding on_next
  on_next-latest v s live by = ground (arith, live, by)

  burst-drop :
      (vs : List V) (s : Subscriber V E)
      → s.cancelled ≡ false
      → s.config.strategy ≡ drop_backpressure
      → (burst vs s).buffer ≡ keep_first_all s.config.buffer_size vs s.buffer
  unfolding keep_first_all
  burst-drop [] s live by = refl
  burst-drop (v ∷ vs) s live by =
      let one = on_next-drop v s live by in
      burst-drop vs (on_next v s) one.1 (ap (λ c. c.strategy) one.2 ∙ by)
      ∙ ap₂ (λ c b. keep_first_all c.buffer_size vs b) one.2 one.0

  burst-latest :
      (vs : List V) (s : Subscriber V E)
      → s.cancelled ≡ false
      → s.config.strategy ≡ latest_backpressure
      → (burst vs s).buffer ≡ keep_last_all s.config.buffer_size vs s.buffer
  unfolding keep_last_all
  burst-latest [] s live by = refl
  burst-latest (v ∷ vs) s live by =
      let one = on_next-latest v s live by in
      burst-latest vs (on_next v s) one.1 (ap (λ c. c.strategy) one.2 ∙ by)
      ∙ ap₂ (λ c b. keep_last_all c.buffer_size vs b) one.2 one.0

-- A new subscriber.
abbrev pub fresh : (V E : Type 0) → BackpressureStrategy → ℕ → Subscriber V E
fresh V E strategy size = subscribe (record { strategy = strategy; buffer_size = size })

-- After a burst of values, the buffer of a new subscriber with a size of 1 or more has the first
-- of them under DropBackpressure and the last of them under LatestBackpressure, in their order
-- and as many as the size, or all of them if they are fewer.
pub burst-subscribe :
    (V E : Type 0) (size : ℕ) (vs : List V)
    → 1 ≤ size
    → ((burst vs (fresh V E drop_backpressure size)).buffer ≡ take size vs)
      × ((burst vs (fresh V E latest_backpressure size)).buffer ≡ drop (length vs - size) vs)
burst-subscribe V E size vs positive =
    let counted : 0 + length vs - size ≡ length vs - size = omega arith in
    (
      burst-drop vs (fresh V E drop_backpressure size) refl refl
          ∙ keep_first_all-take size vs [] (omega arith),
      burst-latest vs (fresh V E latest_backpressure size) refl refl
          ∙ keep_last_all-drop size vs [] positive (omega arith)
          ∙ ap (λ k. drop k vs) counted,
    )
