-- ===== src/Auth/Abac/Decide.antt =====
-- Which policy decides (CheckAccess of pkg/auth/abac.go).
use ling_framework.Base.{
  ◌≡◌, refl, ap, ◌++◌, Bool, true, false, ◌&&◌, not, Option, none, some, List, [], ◌∷◌, arith, Str,
  str_comparable, codes, All, ◌==◌, Bool-cases, if◌then◌else◌, ◌⊎◌, inl, inr,
}
use ling_framework.Base.Int.{ℤ, ◌≤ℤ◌, ◌<ℤ◌, leb_ℤ, ltb_ℤ}
use ling_framework.Auth.Abac.{
  FloatOps, Policy, Attrs, matches_policy, add_policy, decide, check_access,
}
use ling_framework.Auth.Abac.Order.{IsSorted, AtMost}

module _ {F : Type 0} where
  -- The first policy of a list that matches.
  abbrev pub First : (Policy F → Bool) → Policy F → List (Policy F) → Type 0
  First matches p ps =
      (before : List (Policy F)) × (after : List (Policy F)) × (ps ≡ before ++ p ∷ after)
      × All (λ q. matches q ≡ false) before
      × (matches p ≡ true)

  -- With a policy: it stands in the list and matches, no policy before it matches, its effect is the
  -- answer, and no policy that matches has a higher priority. With none: no policy matches, and
  -- access is denied.
  abbrev pub Verdict : (Policy F → Bool) → List (Policy F) → Bool × Option (Policy F) → Type 0
  Verdict matches ps (allowed, none) = (allowed ≡ false) × All (λ q. matches q ≡ false) ps
  Verdict matches ps (allowed, some p) =
      First matches p ps
      × (allowed ≡ (p.effect == codes "allow"))
      × All (λ q. (matches q ≡ false) ⊎ (q.priority ≤ℤ p.priority)) ps

  below_first :
      (matches : Policy F → Bool) (p : Policy F) (ps : List (Policy F))
      → AtMost p.priority ps
      → All (λ q. (matches q ≡ false) ⊎ (q.priority ≤ℤ p.priority)) ps
  below_first matches p [] h = tt
  below_first matches p (q ∷ ps) h = (inr h.0, below_first matches p ps h.1)

  Verdict-skip :
      (matches : Policy F → Bool) (p : Policy F) (ps : List (Policy F))
      (d : Bool × Option (Policy F))
      → matches p ≡ false
      → Verdict matches ps d
      → Verdict matches (p ∷ ps) d
  Verdict-skip matches p ps (allowed, none) no_match v = (v.0, (no_match, v.1))
  Verdict-skip matches p ps (allowed, some q) no_match (first, effect, rest) =
      let (before, after, same, misses, hit) = first in
      ((p ∷ before, after, ap (◌∷◌ p) same, (no_match, misses), hit), effect, (inl no_match, rest))

  decide-Verdict :
      (matches : Policy F → Bool) (ps : List (Policy F))
      → IsSorted ps
      → Verdict matches ps (decide matches ps)
  decide-Verdict matches [] s = (refl, tt)
  decide-Verdict matches (p ∷ ps) s = elim (Bool-cases (matches p)) [
    | inl hit ↦
        rw hit (([], ps, refl, tt, hit), refl, (inr (omega arith), below_first matches p ps s.0))
    | inr miss ↦
        rw miss (Verdict-skip matches p ps (decide matches ps) miss (decide-Verdict matches ps s.1))
  ]

  -- On policies sorted by priority, CheckAccess answers by the first policy of the list that
  -- matches, which has the highest priority among those that match, and allows access exactly if
  -- its effect is allow; it names no policy only if none matches, and denies then.
  pub check_access-Verdict :
      (ops : FloatOps F) (subject resource : Attrs F) (action : Str) (ps : List (Policy F))
      → IsSorted ps
      → Verdict
          (matches_policy ops subject resource action)
          ps
          (check_access ops subject resource action ps)
  unfolding check_access
  check_access-Verdict ops subject resource action ps s =
      decide-Verdict (matches_policy ops subject resource action) ps s

  -- Whether a decision stands against a new policy of a priority.
  abbrev pub outranks : Option (Policy F) → Policy F → Bool
  outranks none q = false
  outranks (some p) q = leb_ℤ q.priority p.priority

  outranks-low :
      (matches : Policy F → Bool) (q : Policy F) (n : ℤ) (ps : List (Policy F))
      → n <ℤ q.priority
      → AtMost n ps
      → outranks (decide matches ps).1 q ≡ false
  outranks-low matches q n [] low h = refl
  outranks-low matches q n (p ∷ ps) low h = elim (Bool-cases (matches p)) [
    | inl hit ↦ rw hit (ground arith)
    | inr miss ↦ rw miss (outranks-low matches q n ps low h.1)
  ]

  decide-add_above :
      (matches : Policy F → Bool) (q p : Policy F) (ps : List (Policy F))
      → p.priority <ℤ q.priority
      → AtMost p.priority ps
      → decide matches (q ∷ p ∷ ps) ≡ (
          if matches q && not (outranks (decide matches (p ∷ ps)).1 q)
          then (q.effect == codes "allow", some q)
          else decide matches (p ∷ ps))
  decide-add_above matches q p ps low h =
      rw (outranks-low matches q p.priority (p ∷ ps) low (omega arith, h)) (ground arith)

  decide-add_below :
      (matches : Policy F → Bool) (q p : Policy F) (ps later : List (Policy F))
      → q.priority ≤ℤ p.priority
      → decide matches later ≡ (
          if matches q && not (outranks (decide matches ps).1 q)
          then (q.effect == codes "allow", some q)
          else decide matches ps)
      → decide matches (p ∷ later) ≡ (
          if matches q && not (outranks (decide matches (p ∷ ps)).1 q)
          then (q.effect == codes "allow", some q)
          else decide matches (p ∷ ps))
  decide-add_below matches q p ps later high ih = elim (Bool-cases (matches p)) [
    | inl hit ↦ rw hit (ground arith)
    | inr miss ↦ rw miss ih
  ]

  decide-add_policy :
      (matches : Policy F → Bool) (q : Policy F) (ps : List (Policy F))
      → IsSorted ps
      → decide matches (add_policy q ps) ≡ (
          if matches q && not (outranks (decide matches ps).1 q)
          then (q.effect == codes "allow", some q)
          else decide matches ps)
  unfolding add_policy
  decide-add_policy matches q [] s = ground arith
  decide-add_policy matches q (p ∷ ps) s = elim (Bool-cases (ltb_ℤ p.priority q.priority)) [
    | inl above ↦ rw above (decide-add_above matches q p ps (ground arith) s.0)
    | inr below ↦ rw below (
        decide-add_below matches q p ps (add_policy q ps) (ground arith)
          (decide-add_policy matches q ps s.1))
  ]

  -- On sorted policies AddPolicy changes the answer of CheckAccess to a request exactly if the new
  -- policy matches it and the policy that has decided it so far, if there is one, has a lower
  -- priority; the new policy decides then. So of equal priorities the one added first decides.
  pub check_access-add_policy :
      (ops : FloatOps F) (subject resource : Attrs F) (action : Str) (q : Policy F)
      → (ps : List (Policy F)) → IsSorted ps
      → check_access ops subject resource action (add_policy q ps) ≡ (
          if matches_policy ops subject resource action q
            && not (outranks (check_access ops subject resource action ps).1 q)
          then (q.effect == codes "allow", some q)
          else check_access ops subject resource action ps)
  unfolding check_access
  check_access-add_policy ops subject resource action q ps s =
      decide-add_policy (matches_policy ops subject resource action) q ps s
