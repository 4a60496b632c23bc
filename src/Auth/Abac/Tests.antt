-- ===== src/Auth/Abac/Tests.antt =====
-- Tests of the policies and of the conditions on concrete inputs.
use ling_framework.Base.{
  ℕ, ◌≡◌, ◌↔◌, arith, refl, true, false, ◌&&◌, not, some, List, [], ◌∷◌, Str, str_comparable, codes,
  ltb, nat_beq, if◌then◌else◌,
}
use ling_framework.Base.Dict.{fetch}
use ling_framework.Base.Int.{ℤ, pos, negsuc}
use ling_framework.Auth.Abac.{
  FloatOps, Scalar, Operand, Operator, Condition, Attribute, Policy, Attrs, add_policy,
  check_access, contains, matches_policy, match_action, match_attributes, scalar_eq, all_conditions,
}
use ling_framework.Auth.Abac.Order.{Change, change_all, IsSorted, change_all-IsSorted}
use ling_framework.Auth.Abac.Decide.{
  Verdict, outranks, check_access-Verdict, check_access-add_policy,
}
use ling_framework.Auth.Abac.Contains.{Occurs, contains_iff}

-- Quarters stand for the floating-point numbers.
abbrev quarter_ops : FloatOps ℕ
quarter_ops = record { eq = nat_beq; gt = λ a b. ltb b a; lt = λ a b. ltb a b }

abbrev policy : Str → List (Attribute ℕ) → List (Condition ℕ) → Str → ℤ → Policy ℕ
policy id subjects conditions effect priority = record {
  id = id;
  name = id;
  description = [];
  subjects = subjects;
  resources = record { key = codes "*"; value = Scalar.text [] } ∷ [];
  actions = codes "read" ∷ codes "write" ∷ [];
  effect = effect;
  conditions = conditions;
  priority = priority;
}

abbrev admins : Policy ℕ
admins =
    policy (codes "admins")
      (record { key = codes "role"; value = Scalar.text (codes "admin") } ∷ []) [] (codes "allow")
      (pos 5)

abbrev minors : Policy ℕ
minors =
    policy (codes "minors") []
      (record {
        attribute = codes "subject.age";
        operator = Operator.lt;
        value = Operand.one (Scalar.int (pos 18));
      }
        ∷ [])
      (codes "deny") (pos 9)

abbrev guests : Policy ℕ
guests = policy (codes "guests") [] [] (codes "allow") (negsuc 0)

abbrev an_admin : Attrs ℕ
an_admin = (codes "role", Scalar.text (codes "admin")) ∷ (codes "age", Scalar.int (pos 17)) ∷ []

abbrev two_policies : List (Policy ℕ)
two_policies = admins ∷ guests ∷ []

admin_reads : check_access quarter_ops an_admin [] (codes "read") two_policies ≡ (true, some admins)
unfolding check_access matches_policy match_action match_attributes fetch scalar_eq all_conditions
admin_reads = refl

change_all-IsSorted_example : IsSorted (change_all (Change.add guests ∷ Change.add admins ∷ []) [])
change_all-IsSorted_example = change_all-IsSorted (Change.add guests ∷ Change.add admins ∷ [])

check_access-Verdict_example :
    Verdict
      (matches_policy quarter_ops an_admin [] (codes "read"))
      two_policies
      (check_access quarter_ops an_admin [] (codes "read") two_policies)
check_access-Verdict_example =
    check_access-Verdict quarter_ops an_admin [] (codes "read") two_policies
      ((omega arith, tt), (tt, tt))

check_access-add_policy_example :
    check_access quarter_ops an_admin [] (codes "read") (add_policy minors two_policies) ≡ (
      if matches_policy quarter_ops an_admin [] (codes "read") minors
        && not
            (outranks (check_access quarter_ops an_admin [] (codes "read") two_policies).1 minors)
      then (false, some minors)
      else check_access quarter_ops an_admin [] (codes "read") two_policies)
check_access-add_policy_example =
    check_access-add_policy quarter_ops an_admin [] (codes "read") minors two_policies
      ((omega arith, tt), (tt, tt))

contains_iff_example :
    (contains (codes "framework") (codes "mew") ≡ true) ↔ Occurs (codes "mew") (codes "framework")
contains_iff_example = contains_iff (codes "framework") (codes "mew")
