-- ===== src/Auth/Abac/Order.antt =====
-- The order of the policies (AddPolicy and RemovePolicy of pkg/auth/abac.go).
use ling_framework.Base.{
  ◌≡◌, none, List, [], ◌∷◌, arith, Str, str_comparable, All, ◌==◌, ==-refl, inl, inr, Bool-cases,
}
use ling_framework.Base.Int.{ℤ, ◌≤ℤ◌, ltb_ℤ}
use ling_framework.Auth.Abac.{Policy, add_policy, remove_policy, get_policy}

pub data Change (F : Type 0) : Type 0 where
  add : Policy F → Change F
  remove : Str → Change F

module _ {F : Type 0} where
  abbrev pub AtMost : ℤ → List (Policy F) → Type 0
  AtMost n ps = All (λ p. p.priority ≤ℤ n) ps

  -- Higher priorities stand first.
  abbrev pub IsSorted : List (Policy F) → Type 0
  IsSorted [] = Unit
  IsSorted (p ∷ ps) = AtMost p.priority ps × IsSorted ps

  abbrev pub change : Change F → List (Policy F) → List (Policy F)
  change (add p) ps = add_policy p ps
  change (remove id) ps = remove_policy id ps

  unfoldable pub change_all : List (Change F) → List (Policy F) → List (Policy F)
  change_all [] ps = ps
  change_all (x ∷ xs) ps = change_all xs (change x ps)

  AtMost-trans : (m n : ℤ) (ps : List (Policy F)) → m ≤ℤ n → AtMost m ps → AtMost n ps
  AtMost-trans m n [] h k = tt
  AtMost-trans m n (p ∷ ps) h k = (omega (arith, k.0), AtMost-trans m n ps h k.1)

  AtMost-add_policy :
      (n : ℤ) (q : Policy F) (ps : List (Policy F))
      → q.priority ≤ℤ n
      → AtMost n ps
      → AtMost n (add_policy q ps)
  unfolding add_policy
  AtMost-add_policy n q [] h k = (h, tt)
  AtMost-add_policy n q (p ∷ ps) h k = elim (Bool-cases (ltb_ℤ p.priority q.priority)) [
    | inl above ↦ rw above (h, k)
    | inr below ↦ rw below (k.0, AtMost-add_policy n q ps h k.1)
  ]

  add_policy-IsSorted :
      (q : Policy F) (ps : List (Policy F)) → IsSorted ps → IsSorted (add_policy q ps)
  unfolding add_policy
  add_policy-IsSorted q [] s = (tt, tt)
  add_policy-IsSorted q (p ∷ ps) s = elim (Bool-cases (ltb_ℤ p.priority q.priority)) [
    | inl above ↦
        rw above ((ground arith, AtMost-trans p.priority q.priority ps (ground arith) s.0), s)
    | inr below ↦
        rw below
          (AtMost-add_policy p.priority q ps (ground arith) s.0, add_policy-IsSorted q ps s.1)
  ]

  AtMost-remove_policy :
      (n : ℤ) (id : Str) (ps : List (Policy F)) → AtMost n ps → AtMost n (remove_policy id ps)
  unfolding remove_policy
  AtMost-remove_policy n id [] k = tt
  AtMost-remove_policy n id (p ∷ ps) k = elim (Bool-cases (p.id == id)) [
    | inl same ↦ rw same k.1
    | inr other ↦ rw other (k.0, AtMost-remove_policy n id ps k.1)
  ]

  remove_policy-IsSorted :
      (id : Str) (ps : List (Policy F)) → IsSorted ps → IsSorted (remove_policy id ps)
  unfolding remove_policy
  remove_policy-IsSorted id [] s = tt
  remove_policy-IsSorted id (p ∷ ps) s = elim (Bool-cases (p.id == id)) [
    | inl same ↦ rw same s.1
    | inr other ↦
        rw other (AtMost-remove_policy p.priority id ps s.0, remove_policy-IsSorted id ps s.1)
  ]

  in_order_after :
      (xs : List (Change F)) (ps : List (Policy F)) → IsSorted ps → IsSorted (change_all xs ps)
  unfolding change_all
  in_order_after [] ps s = s
  in_order_after (add p ∷ xs) ps s =
      in_order_after xs (add_policy p ps) (add_policy-IsSorted p ps s)
  in_order_after (remove id ∷ xs) ps s =
      in_order_after xs (remove_policy id ps) (remove_policy-IsSorted id ps s)

  -- After any calls of AddPolicy and RemovePolicy on a new manager, each policy stands in front of
  -- none of a higher priority.
  pub change_all-IsSorted : (xs : List (Change F)) → IsSorted (change_all xs [])
  change_all-IsSorted xs = in_order_after xs [] tt

  -- Removing by its id a policy that was just added gives the policies back as they were, if none
  -- of them had this id.
  pub remove_policy-add_policy :
      (q : Policy F) (ps : List (Policy F))
      → get_policy q.id ps ≡ none
      → remove_policy q.id (add_policy q ps) ≡ ps
  unfolding remove_policy add_policy get_policy
  remove_policy-add_policy q [] h = rw (==-refl q.id)
  remove_policy-add_policy q (p ∷ ps) h =
      ground (arith, remove_policy-add_policy q ps, ==-refl q.id)
