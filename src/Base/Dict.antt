-- ===== src/Base/Dict.antt =====
-- A Go map as an association list. The order of its entries is never observed by the models but
-- through length.
pub mod Laws
use Prim.Native.Nat.{suc}
use mathlib.Core.Path.{◌≡◌, refl, ap}
use mathlib.Core.Bool.{Bool, true, false}
use mathlib.Core.Option.{Option, none, some}
use mathlib.Core.List.{List, [], ◌∷◌}
use native.Mathlib.Omega.{arith}
use ling_framework.Base.Tests.{Comparable, ◌==◌, if◌then◌else◌}
use ling_framework.Base.Lists.{length, member}

abbrev pub Dict {ℓ} : Type 0 → Type ℓ → Type ℓ
Dict K V = List (K × V)

abbrev pub is_some {ℓ} : {A : Type ℓ} → Option A → Bool
is_some none = false
is_some (some a) = true

module _ {ℓ} {K : Type 0} {V : Type ℓ} where
  abbrev pub keys : Dict K V → List K
  keys [] = []
  keys ((k, v) ∷ m) = k ∷ keys m

  pub length-keys : (m : Dict K V) → length (keys m) ≡ length m
  length-keys [] = refl
  length-keys ((k, v) ∷ m) = ap suc (length-keys m)

module _ {ℓ} {K : Type 0} {V : Type ℓ} ⦃c : Comparable K⦄ where
  -- v, ok := m[k]
  unfoldable pub fetch : Dict K V → K → Option V
  fetch [] k = none
  fetch ((j, v) ∷ m) k = if j == k then some v else fetch m k

  -- m[k] = v
  unfoldable pub store : Dict K V → K → V → Dict K V
  store [] k v = (k, v) ∷ []
  store ((j, w) ∷ m) k v = let later = (j, w) ∷ store m k v in if j == k then (j, v) ∷ m else later

  -- delete(m, k)
  unfoldable pub delete : Dict K V → K → Dict K V
  delete [] k = []
  delete ((j, w) ∷ m) k = let later = delete m k in if j == k then later else (j, w) ∷ later

  pub fetch-store :
      (m : Dict K V) (k j : K) (v : V)
      → fetch (store m k v) j ≡ (if k == j then some v else fetch m j)
  unfolding fetch store
  fetch-store [] k j v = refl
  fetch-store ((i, w) ∷ m) k j v =
      ground (arith, fetch-store m k j v, c.same_iff i k, c.same_iff i j, c.same_iff k j)

  pub fetch-delete :
      (m : Dict K V) (k j : K) → fetch (delete m k) j ≡ (if k == j then none else fetch m j)
  unfolding fetch delete
  fetch-delete [] k j = ground arith
  fetch-delete ((i, w) ∷ m) k j =
      ground (arith, fetch-delete m k j, c.same_iff i k, c.same_iff i j, c.same_iff k j)

  pub member-keys : (m : Dict K V) (k : K) → member k (keys m) ≡ is_some (fetch m k)
  unfolding fetch
  member-keys [] k = refl
  member-keys ((j, v) ∷ m) k = ground (arith, member-keys m k)

  pub ruleset dict_laws = (fetch-store, fetch-delete)
