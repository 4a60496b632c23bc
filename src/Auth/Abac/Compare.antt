-- ===== src/Auth/Abac/Compare.antt =====
-- The comparing operators of a condition (compareValues and EvaluateCondition of pkg/auth/abac.go).
use ling_framework.Base.{◌≡◌, refl, Bool, true, false, arith}
use ling_framework.Base.Int.{pos}
use ling_framework.Auth.Abac.{FloatOps, Scalar, Operand, Operator, apply_operator, compare_values}

module _ {F : Type 0} where
  -- Both values have one dynamic type.
  abbrev pub same_type : Scalar F → Operand F → Bool
  same_type (Scalar.int a) (Operand.one (Scalar.int b)) = true
  same_type (Scalar.int64 a) (Operand.one (Scalar.int64 b)) = true
  same_type (Scalar.float64 a) (Operand.one (Scalar.float64 b)) = true
  same_type (Scalar.text a) (Operand.one (Scalar.text b)) = true
  same_type (Scalar.time a) (Operand.one (Scalar.time b)) = true
  same_type _ _ = false

  incomparable :
      (ops : FloatOps F) (a : Scalar F) (v : Operand F)
      → same_type a v ≡ false
      → compare_values ops a v ≡ pos 0
  unfolding compare_values
  incomparable ops a v h = ground arith

  -- A condition that compares values of two dynamic types, or compares with a list, holds for ge
  -- and for le and fails for gt and for lt, whatever the values are.
  pub apply_operator-mixed :
      (ops : FloatOps F) (a : Scalar F) (v : Operand F)
      → same_type a v ≡ false
      → (apply_operator ops Operator.ge a v ≡ true)
        × (apply_operator ops Operator.le a v ≡ true)
        × (apply_operator ops Operator.gt a v ≡ false)
        × (apply_operator ops Operator.lt a v ≡ false)
  unfolding apply_operator
  apply_operator-mixed ops a v h = rw (incomparable ops a v h) (refl, refl, refl, refl)
