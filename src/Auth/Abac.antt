-- ===== src/Auth/Abac.antt =====
-- Attribute-based access control, pkg/auth/abac.go. `F` are the float64 values with their
-- comparisons; the values of attributes are those that == compares: those of the types that the
-- package tells apart, bool, and all others, which are numbered so that == holds of equal numbers.
-- A condition may also hold a list of them. `none` is a nil policy.
pub mod Contains
pub mod Order
pub mod Decide
pub mod Compare
mod Tests
use ling_framework.Base.{
  ℕ, zero, suc, ◌+◌, ◌-◌, Bool, true, false, ◌&&◌, ◌||◌, not, Option, none, some, List, [], ◌∷◌,
  ◌++◌, Str, str_comparable, codes, length, take, drop, ltb, leb, nat_beq, ◌==◌, if◌then◌else◌,
}
use ling_framework.Base.Dict.{Dict, fetch, store}
use ling_framework.Base.Int.{ℤ, pos, negsuc, leb_ℤ, ltb_ℤ, int_beq}
use ling_framework.Base.Time.{Time}

-- float64: == > <
pub record FloatOps (F : Type 0) : Type 0 where
  pub eq : F → F → Bool
  pub gt : F → F → Bool
  pub lt : F → F → Bool

-- A time.Time: the instant, the monotonic reading if it has one, and the pointer to its location.
pub record Moment : Type 0 where
  pub wall : Time
  pub monotonic : Option Time
  pub location : ℕ

-- ==, which compares all three, and After, which takes the monotonic readings if both have one.
abbrev pub reading_eq : Option Time → Option Time → Bool
reading_eq none none = true
reading_eq (some a) (some b) = nat_beq a b
reading_eq _ _ = false

abbrev pub moment_eq : Moment → Moment → Bool
moment_eq a b =
    nat_beq a.wall b.wall && (reading_eq a.monotonic b.monotonic && nat_beq a.location b.location)

abbrev pub reading_after : Option Time → Option Time → Bool → Bool
reading_after (some a) (some b) by_wall = ltb b a
reading_after _ _ by_wall = by_wall

abbrev pub moment_after : Moment → Moment → Bool
moment_after a b = reading_after a.monotonic b.monotonic (ltb b.wall a.wall)

pub data Scalar (F : Type 0) : Type 0 where
  int int64 : ℤ → Scalar F
  float64 : F → Scalar F
  text : Str → Scalar F
  time : Moment → Scalar F
  boolean : Bool → Scalar F
  other : ℕ → Scalar F

pub data Operand (F : Type 0) : Type 0 where
  one : Scalar F → Operand F
  many : List (Scalar F) → Operand F

-- The operators of a condition; `unknown` is any other text.
pub data Operator : Type 0 where
  eq ne gt lt ge le in_list contains_text unknown : Operator

pub record Condition (F : Type 0) : Type 0 where
  pub attribute : Str
  pub operator : Operator
  pub value : Operand F

pub record Attribute (F : Type 0) : Type 0 where
  pub key : Str
  pub value : Scalar F

pub record Policy (F : Type 0) : Type 0 where
  pub id : Str
  pub name : Str
  pub description : Str
  pub subjects : List (Attribute F)
  pub resources : List (Attribute F)
  pub actions : List Str
  pub effect : Str
  pub conditions : List (Condition F)
  pub priority : ℤ

abbrev pub Attrs : Type 0 → Type 0
Attrs F = Dict Str (Scalar F)

-- < on Go strings: byte by byte.
unfoldable pub str_ltb : Str → Str → Bool
str_ltb [] [] = false
str_ltb [] (y ∷ ys) = true
str_ltb (x ∷ xs) [] = false
str_ltb (x ∷ xs) (y ∷ ys) = if ltb x y then true else if nat_beq x y then str_ltb xs ys else false

-- containsMiddle: `rounds` tests are left, the next one at `i`.
unfoldable pub contains_middle_from : ℕ → ℕ → Str → Str → Bool
contains_middle_from zero i str substr = false
contains_middle_from (suc rounds) i str substr =
    let later = contains_middle_from rounds (i + 1) str substr in
    if take (length substr) (drop i str) == substr then true else later

abbrev pub contains_middle : Str → Str → Bool
contains_middle str substr = contains_middle_from (length str + 1 - length substr) 0 str substr

unfoldable pub contains : Str → Str → Bool
contains str substr =
    leb (length substr) (length str)
    && (str == substr
        || nat_beq (length substr) 0
        || (ltb (length substr) (length str)
            && (take (length substr) str == substr
                || drop (length str - length substr) str == substr
                || contains_middle str substr)))

abbrev pub sign : Bool → Bool → ℤ
sign more less = if more then pos 1 else if less then negsuc 0 else pos 0

module _ {F : Type 0} (ops : FloatOps F) where
  -- == on two interface values: the dynamic types and the values.
  unfoldable pub scalar_eq : Scalar F → Scalar F → Bool
  scalar_eq (int a) (int b) = int_beq a b
  scalar_eq (int64 a) (int64 b) = int_beq a b
  scalar_eq (float64 a) (float64 b) = ops.eq a b
  scalar_eq (text a) (text b) = a == b
  scalar_eq (time a) (time b) = moment_eq a b
  scalar_eq (boolean a) (boolean b) = if a then b else not b
  scalar_eq (other a) (other b) = nat_beq a b
  scalar_eq _ _ = false

  -- compareValues
  unfoldable pub compare_values : Scalar F → Operand F → ℤ
  compare_values (int a) (one (int b)) = sign (ltb_ℤ b a) (ltb_ℤ a b)
  compare_values (int64 a) (one (int64 b)) = sign (ltb_ℤ b a) (ltb_ℤ a b)
  compare_values (float64 a) (one (float64 b)) = sign (ops.gt a b) (ops.lt a b)
  compare_values (text a) (one (text b)) = sign (str_ltb b a) (str_ltb a b)
  compare_values (time a) (one (time b)) = sign (moment_after a b) (moment_after b a)
  compare_values _ _ = pos 0

  abbrev pub operand_eq : Scalar F → Operand F → Bool
  operand_eq a (one b) = scalar_eq a b
  operand_eq a (many bs) = false

  unfoldable pub is_in : Scalar F → List (Scalar F) → Bool
  is_in a [] = false
  is_in a (v ∷ vs) = scalar_eq a v || is_in a vs

  -- The switch of EvaluateCondition.
  unfoldable pub apply_operator : Operator → Scalar F → Operand F → Bool
  apply_operator eq a v = operand_eq a v
  apply_operator ne a v = not (operand_eq a v)
  apply_operator gt a v = ltb_ℤ (pos 0) (compare_values a v)
  apply_operator lt a v = ltb_ℤ (compare_values a v) (pos 0)
  apply_operator ge a v = leb_ℤ (pos 0) (compare_values a v)
  apply_operator le a v = leb_ℤ (compare_values a v) (pos 0)
  apply_operator in_list a (many vs) = is_in a vs
  apply_operator in_list a (one v) = false
  apply_operator contains_text (text s) (one (text t)) = contains s t
  apply_operator contains_text _ _ = false
  apply_operator unknown a v = false

  -- Condition.EvaluateCondition
  unfoldable pub evaluate_condition : Condition F → Attrs F → Bool
  evaluate_condition c attrs = elim (fetch attrs c.attribute) [
    | none ↦ false
    | some a ↦ apply_operator c.operator a c.value
  ]

  abbrev pub value_matches : Option (Scalar F) → Scalar F → Bool
  value_matches none wanted = false
  value_matches (some v) wanted = scalar_eq wanted (text (codes "*")) || scalar_eq v wanted

  -- matchAttributes
  unfoldable pub match_attributes : Attrs F → List (Attribute F) → Bool
  match_attributes attrs [] = true
  match_attributes attrs (a ∷ rest) =
      (a.key == codes "*" || value_matches (fetch attrs a.key) a.value)
      && match_attributes attrs rest

  unfoldable pub match_action : Str → List Str → Bool
  match_action action [] = false
  match_action action (act ∷ acts) = (act == codes "*" || act == action) || match_action action acts

  unfoldable pub all_conditions : Attrs F → List (Condition F) → Bool
  all_conditions attrs [] = true
  all_conditions attrs (c ∷ cs) = evaluate_condition c attrs && all_conditions attrs cs

  -- The map that the conditions read.
  unfoldable pub add_prefixed : Str → Attrs F → Attrs F → Attrs F
  add_prefixed prefix [] all = all
  add_prefixed prefix ((k, v) ∷ attrs) all = add_prefixed prefix attrs (store all (prefix ++ k) v)

  abbrev pub all_attrs : Attrs F → Attrs F → Attrs F
  all_attrs subject resource =
      add_prefixed (codes "resource.") resource (add_prefixed (codes "subject.") subject [])

  -- matchesPolicy
  unfoldable pub matches_policy : Attrs F → Attrs F → Str → Policy F → Bool
  matches_policy subject resource action p =
      match_action action p.actions
      && (match_attributes subject p.subjects
          && (match_attributes resource p.resources
              && all_conditions (all_attrs subject resource) p.conditions))

-- The errors of CheckAccessWithError: the id and the name of the policy, or no policy.
pub data AccessError : Type 0 where
  denied_by : Str → Str → AccessError
  no_matching_policy : AccessError

module _ {F : Type 0} where
  -- AddPolicy: in front of the first policy of a lower priority.
  unfoldable pub add_policy : Policy F → List (Policy F) → List (Policy F)
  add_policy policy [] = policy ∷ []
  add_policy policy (p ∷ ps) =
      let later = p ∷ add_policy policy ps in
      if ltb_ℤ p.priority policy.priority then policy ∷ p ∷ ps else later

  -- RemovePolicy
  unfoldable pub remove_policy : Str → List (Policy F) → List (Policy F)
  remove_policy id [] = []
  remove_policy id (p ∷ ps) =
      let later = p ∷ remove_policy id ps in if p.id == id then ps else later

  -- GetPolicy
  unfoldable pub get_policy : Str → List (Policy F) → Option (Policy F)
  get_policy id [] = none
  get_policy id (p ∷ ps) = if p.id == id then some p else get_policy id ps

  abbrev pub decide : (Policy F → Bool) → List (Policy F) → Bool × Option (Policy F)
  decide matches [] = (false, none)
  decide matches (p ∷ ps) =
      if matches p then (p.effect == codes "allow", some p) else decide matches ps

  -- CheckAccess
  unfoldable pub check_access :
      FloatOps F → Attrs F → Attrs F → Str → List (Policy F) → Bool × Option (Policy F)
  check_access ops subject resource action ps =
      decide (matches_policy ops subject resource action) ps

  abbrev pub access_error : Bool × Option (Policy F) → Option AccessError
  access_error (true, p) = none
  access_error (false, some p) = some (denied_by p.id p.name)
  access_error (false, none) = some no_matching_policy

  -- CheckAccessWithError
  unfoldable pub check_access_with_error :
      FloatOps F → Attrs F → Attrs F → Str → List (Policy F) → Option AccessError
  check_access_with_error ops subject resource action ps =
      access_error (check_access ops subject resource action ps)
