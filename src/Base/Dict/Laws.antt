-- ===== src/Base/Dict/Laws.antt =====
-- The number of entries of a Go map, that no key stands twice, and the entries in an order.
use Prim.Native.Nat.{◌+◌, ◌≤◌}
use mathlib.Core.Bool.{true, false, ◌||◌}
use mathlib.Core.List.{List, [], ◌∷◌, ◌++◌}
use mathlib.Core.Option.{none, some}
use mathlib.Core.Logic.{◌⊎◌, inl, inr}
use mathlib.Core.Path.{◌≡◌, refl, sym, ap, ◌∙◌}
use native.Mathlib.Omega.{arith}
use ling_framework.Base.Dict.{
  Dict, keys, is_some, fetch, store, delete, member-keys, fetch-store, fetch-delete,
}
use ling_framework.Base.Lists.{length, member, Distinct}
use ling_framework.Base.Tests.{Comparable, ◌==◌, Bool-cases, if◌then◌else◌}

module _ {ℓ} {T : Type ℓ} ⦃c : Comparable T⦄ where
  -- The loop `for i, x := range xs` that cuts out the first x equal to t and breaks.
  unfoldable pub remove_first : T → List T → List T
  remove_first t [] = []
  remove_first t (x ∷ xs) = let later = x ∷ remove_first t xs in if x == t then xs else later

  pub remove_first_absent : (t : T) (xs : List T) → member t xs ≡ false → remove_first t xs ≡ xs
  unfolding remove_first
  remove_first_absent t [] h = refl
  remove_first_absent t (x ∷ xs) h = ground (arith, remove_first_absent t xs)

  pub member-append_last :
      (t u : T) (xs : List T) → member t (xs ++ u ∷ []) ≡ (member t xs || u == t)
  member-append_last t u [] = ground arith
  member-append_last t u (x ∷ xs) = ground (arith, member-append_last t u xs)

  pub Distinct-append_last :
      (u : T) (xs : List T) → member u xs ≡ false → Distinct xs → Distinct (xs ++ u ∷ [])
  Distinct-append_last u [] h d = (refl, tt)
  Distinct-append_last u (x ∷ xs) h d = (
    ground (arith, member-append_last x u xs, c.same_iff x u, c.same_iff u x),
    Distinct-append_last u xs (ground arith) d.1,
  )

module _ {ℓ} {K : Type 0} {V : Type ℓ} ⦃c : Comparable K⦄ where
  pub length-store :
      (m : Dict K V) (k : K) (v : V)
      → length (store m k v) ≡ (if is_some (fetch m k) then length m else length m + 1)
  unfolding store fetch
  length-store [] k v = refl
  length-store ((j, w) ∷ m) k v = ground (arith, length-store m k v)

  pub length-delete :
      (m : Dict K V) (k : K)
      → Distinct (keys m)
      → length (delete m k) + (if is_some (fetch m k) then 1 else 0) ≡ length m
  unfolding delete fetch
  length-delete [] k d = refl
  length-delete ((j, w) ∷ m) k d =
      ground (arith, length-delete m k d.1, member-keys m k, c.same_iff j k)

  pub member-keys-delete :
      (m : Dict K V) (k j : K)
      → member j (keys (delete m k)) ≡ (if k == j then false else member j (keys m))
  unfolding delete
  member-keys-delete [] k j = ground arith
  member-keys-delete ((i, w) ∷ m) k j =
      ground (arith, member-keys-delete m k j, c.same_iff i k, c.same_iff i j, c.same_iff k j)

  pub member-keys-store :
      (m : Dict K V) (k j : K) (v : V)
      → member j (keys (store m k v)) ≡ (k == j || member j (keys m))
  unfolding store
  member-keys-store [] k j v = ground arith
  member-keys-store ((i, w) ∷ m) k j v =
      ground (arith, member-keys-store m k j v, c.same_iff i k, c.same_iff i j, c.same_iff k j)

  pub delete-Distinct : (m : Dict K V) (k : K) → Distinct (keys m) → Distinct (keys (delete m k))
  unfolding delete
  delete-Distinct [] k d = tt
  delete-Distinct ((j, w) ∷ m) k d =
      ground (arith, delete-Distinct m k d.1, member-keys-delete m k j)

  pub store-Distinct :
      (m : Dict K V) (k : K) (v : V) → Distinct (keys m) → Distinct (keys (store m k v))
  unfolding store
  store-Distinct [] k v d = (refl, tt)
  store-Distinct ((j, w) ∷ m) k v d =
      ground
        (arith, store-Distinct m k v d.1, member-keys-store m k j v, c.same_iff j k, c.same_iff k j)

  pub keys-delete :
      (m : Dict K V) (k : K) → Distinct (keys m) → keys (delete m k) ≡ remove_first k (keys m)
  unfolding delete remove_first
  keys-delete [] k d = refl
  keys-delete ((j, w) ∷ m) k d =
      ground (arith, keys-delete m k d.1, c.same_iff j k, remove_first_absent k (keys m))

  -- An entry behind all others.
  abbrev pub add_last : Dict K V → K → V → Dict K V
  add_last m k v = m ++ (k, v) ∷ []

  pub keys-add_last : (m : Dict K V) (k : K) (v : V) → keys (add_last m k v) ≡ keys m ++ k ∷ []
  keys-add_last [] k v = refl
  keys-add_last ((j, w) ∷ m) k v = ap (◌∷◌ j) (keys-add_last m k v)

  pub fetch-add_last :
      (m : Dict K V) (k j : K) (v : V)
      → fetch m k ≡ none
      → fetch (add_last m k v) j ≡ (if k == j then some v else fetch m j)
  unfolding fetch
  fetch-add_last [] k j v h = refl
  fetch-add_last ((i, w) ∷ m) k j v h =
      ground (arith, fetch-add_last m k j v, c.same_iff i k, c.same_iff i j, c.same_iff k j)

  pub length-add_last : (m : Dict K V) (k : K) (v : V) → length (add_last m k v) ≡ length m + 1
  length-add_last [] k v = refl
  length-add_last ((j, w) ∷ m) k v = ground (arith, length-add_last m k v)

  pub keys-store :
      (m : Dict K V) (k : K) (v : V) → is_some (fetch m k) ≡ true → keys (store m k v) ≡ keys m
  unfolding store fetch
  keys-store [] k v h = ground arith
  keys-store ((j, w) ∷ m) k v h = ground (arith, keys-store m k v)

  pub delete_absent : (m : Dict K V) (k : K) → fetch m k ≡ none → delete m k ≡ m
  unfolding delete fetch
  delete_absent [] k h = refl
  delete_absent ((j, w) ∷ m) k h = ground (arith, delete_absent m k)

  pub delete-add_last : (m : Dict K V) (k : K) (v : V) → delete (add_last m k v) k ≡ delete m k
  unfolding delete
  delete-add_last [] k v = ground (arith, c.same_iff k k)
  delete-add_last ((j, w) ∷ m) k v = ground (arith, delete-add_last m k v)

  pub length-delete-le : (m : Dict K V) (k : K) → length (delete m k) ≤ length m
  unfolding delete
  length-delete-le [] k = omega arith
  length-delete-le ((j, w) ∷ m) k = ground (arith, length-delete-le m k)

  pub fetch-store_cases :
      (m : Dict K V) (k j : K) (v w : V)
      → fetch (store m k v) j ≡ some w
      → ((k ≡ j) × (v ≡ w)) ⊎ (((k == j) ≡ false) × (fetch m j ≡ some w))
  fetch-store_cases m k j v w h = elim (Bool-cases (k == j)) [
    | inl e ↦
        let found : some v ≡ some w = sym (fetch-store m k j v ∙ rw e refl) ∙ h in
        inl ((c.same_iff k j).0 e, cc)
    | inr e ↦ inr (e, sym (fetch-store m k j v ∙ rw e refl) ∙ h)
  ]

  pub fetch-delete_cases :
      (m : Dict K V) (k j : K) (w : V)
      → fetch (delete m k) j ≡ some w
      → ((k == j) ≡ false) × (fetch m j ≡ some w)
  fetch-delete_cases m k j w h = elim (Bool-cases (k == j)) [
    | inl e ↦ let absent : none ≡ some w = sym (fetch-delete m k j ∙ rw e refl) ∙ h in cc
    | inr e ↦ (e, sym (fetch-delete m k j ∙ rw e refl) ∙ h)
  ]
