-- ===== src/Backpressure/Interleaved/Signals.antt =====
-- What the downstream of pkg/reactive/backpressure.go is called with, counted, and the calls that
-- are to end a subscription.
use ling_framework.Base.{
  ℕ, suc, ◌+◌, ◌≤◌, ◌≡◌, refl, ap, Bool, true, false, List, [], ◌∷◌, ◌++◌, arith, length,
  length-append,
}
use ling_framework.Backpressure.{Signal, next, error, exceeded, complete}
use ling_framework.Backpressure.Interleaved.{Call, closes, shuts, reports, Phase, passed, counted}

abbrev pub one_if : Bool → ℕ
one_if true = 1
one_if false = 0

-- The value that `process` has tested `cancelled` for and not yet delivered.
abbrev pub held : {V : Type 0} → Phase V → List V
held (passed v) = v ∷ []
held (counted v) = v ∷ []
held _ = []

module _ {V E : Type 0} where
  -- The calls of OnError and OnComplete of the downstream that end the subscription.
  abbrev pub endings : List (Signal V E) → ℕ
  endings [] = 0
  endings (next v ∷ es) = endings es
  endings (exceeded ∷ es) = endings es
  endings (error e ∷ es) = suc (endings es)
  endings (complete ∷ es) = suc (endings es)

  abbrev pub values : List (Signal V E) → List V
  values [] = []
  values (next v ∷ es) = v ∷ values es
  values (exceeded ∷ es) = values es
  values (error e ∷ es) = values es
  values (complete ∷ es) = values es

  -- How many values the downstream is given after its end.
  abbrev pub late : List (Signal V E) → ℕ
  late [] = 0
  late (next v ∷ es) = late es
  late (exceeded ∷ es) = late es
  late (error e ∷ es) = length (values es)
  late (complete ∷ es) = length (values es)

  -- A call that has set `cancelled` and is not over.
  abbrev pub is_ending : Call V E → ℕ
  is_ending (closes e) = 1
  is_ending (shuts e) = 1
  is_ending (reports e) = 1
  is_ending _ = 0

  abbrev pub ending : List (Call V E) → ℕ
  ending [] = 0
  ending (c ∷ cs) = is_ending c + ending cs

  pub endings-append : (xs ys : List (Signal V E)) → endings (xs ++ ys) ≡ endings xs + endings ys
  endings-append [] ys = omega arith
  endings-append (next v ∷ xs) ys = endings-append xs ys
  endings-append (exceeded ∷ xs) ys = endings-append xs ys
  endings-append (error e ∷ xs) ys = omega (arith, endings-append xs ys)
  endings-append (complete ∷ xs) ys = omega (arith, endings-append xs ys)

  pub values-append : (xs ys : List (Signal V E)) → values (xs ++ ys) ≡ values xs ++ values ys
  values-append [] ys = refl
  values-append (next v ∷ xs) ys = ap (λ l. v ∷ l) (values-append xs ys)
  values-append (exceeded ∷ xs) ys = values-append xs ys
  values-append (error e ∷ xs) ys = values-append xs ys
  values-append (complete ∷ xs) ys = values-append xs ys

  -- A further signal: a value may be late, and nothing else is.
  pub late-append :
      (xs : List (Signal V E)) (x : Signal V E)
      → late (xs ++ x ∷ []) ≤ late xs + length (values (x ∷ []))
  late-append [] (next v) = omega arith
  late-append [] exceeded = omega arith
  late-append [] (error e) = omega arith
  late-append [] complete = omega arith
  late-append (next v ∷ xs) x = late-append xs x
  late-append (exceeded ∷ xs) x = late-append xs x
  late-append (error e ∷ xs) x =
      omega
        (arith, ap length (values-append xs (x ∷ [])), length-append (values xs) (values (x ∷ [])))
  late-append (complete ∷ xs) x =
      omega
        (arith, ap length (values-append xs (x ∷ [])), length-append (values xs) (values (x ∷ [])))

  pub late-none : (xs : List (Signal V E)) → endings xs ≡ 0 → late xs ≡ 0
  late-none [] h = refl
  late-none (next v ∷ xs) h = late-none xs h
  late-none (exceeded ∷ xs) h = late-none xs h
  late-none (error e ∷ xs) h = absurd (omega (arith, h))
  late-none (complete ∷ xs) h = absurd (omega (arith, h))

  pub ending-append : (xs ys : List (Call V E)) → ending (xs ++ ys) ≡ ending xs + ending ys
  ending-append [] ys = omega arith
  ending-append (c ∷ xs) ys = omega (arith, ending-append xs ys)
