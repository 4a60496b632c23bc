-- ===== src/Slices/Members.antt =====
-- Which elements the functions of pkg/utils/utils_array.go return.
use ling_framework.Base.Dict.{Dict}
use ling_framework.Base.Dict.Laws
