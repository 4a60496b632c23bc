-- ===== src/Slices.antt =====
-- pkg/utils/utils_array.go: slices as sets. `text_of` stands for cast.ToString of a library.
pub mod Members
mod Tests
use ling_framework.Base.{
  Bool, true, false, ◌||◌, Option, none, some, List, [], ◌∷◌, ◌++◌, Str, Comparable, ◌==◌,
  if◌then◌else◌,
}
use ling_framework.Base.Dict.{Dict, fetch, store, keys}

-- Join
abbrev pub join_rest : {A : Type 0} → (A → Str) → List A → Str → Str
join_rest text_of [] str = []
join_rest text_of (t ∷ ts) str = str ++ (text_of t ++ join_rest text_of ts str)

unfoldable pub join : {A : Type 0} → (A → Str) → List A → Str → Str
join text_of [] str = []
join text_of (t ∷ ts) str = text_of t ++ join_rest text_of ts str

-- Merge
unfoldable pub merge : {A : Type 0} → List A → List A → List A
merge slice1 slice2 = slice1 ++ slice2

module _ {T : Type 0} ⦃c : Comparable T⦄ where
  -- for _, v := range slice { m[v] = true }
  unfoldable pub mark : List T → Dict T Bool → Dict T Bool
  mark [] m = m
  mark (v ∷ slice) m = mark slice (store m v true)

  -- exist, _ := m[v]
  abbrev pub exist : Dict T Bool → T → Bool
  exist m v = elim (fetch m v) [ none ↦ false | some b ↦ b ]

  -- Unique; the keys come in some order.
  unfoldable pub unique : List T → List T
  unique slice = keys (mark slice [])

  unfoldable pub keep_marked : Dict T Bool → List T → List T
  keep_marked m [] = []
  keep_marked m (v ∷ slice) = let rest = keep_marked m slice in if exist m v then v ∷ rest else rest

  -- Intersect
  unfoldable pub intersect : List T → List T → List T
  intersect slice1 slice2 = keep_marked (mark slice1 []) slice2

  unfoldable pub keep_unmarked : Dict T Bool → List T → List T
  keep_unmarked m [] = []
  keep_unmarked m (v ∷ slice) =
      let rest = keep_unmarked m slice in if exist m v then rest else v ∷ rest

  -- Difference
  unfoldable pub difference : List T → List T → List T
  difference slice1 slice2 = keep_unmarked (mark (intersect slice1 slice2) []) slice1

  -- InArray
  unfoldable pub in_array : T → List T → Bool
  in_array needle [] = false
  in_array needle (t ∷ haystack) = needle == t || in_array needle haystack
