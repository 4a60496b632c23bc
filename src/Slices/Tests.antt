-- ===== src/Slices/Tests.antt =====
-- The functions of pkg/utils/utils_array.go at concrete slices.
use ling_framework.Base.{ℕ, ◌≡◌, refl, List, [], ◌∷◌, number_comparable, codes}
use ling_framework.Base.Dict.{fetch, store}
use ling_framework.Slices.{join, mark, keep_marked, intersect, keep_unmarked, difference}

abbrev odd : List ℕ
odd = 1 ∷ 3 ∷ 5 ∷ 3 ∷ []

abbrev low : List ℕ
low = 3 ∷ 2 ∷ 3 ∷ 1 ∷ []

-- Intersect keeps the repetitions of the second slice, and Merge those of both.
repeated : (intersect odd low ≡ 3 ∷ 3 ∷ 1 ∷ []) × (difference odd low ≡ 5 ∷ [])
unfolding intersect difference mark keep_marked keep_unmarked fetch store
repeated = (refl, refl)

joined_texts : join (λ s. s) (codes "a" ∷ codes "b" ∷ codes "c" ∷ []) (codes ", ") ≡ codes "a, b, c"
unfolding join
joined_texts = refl
