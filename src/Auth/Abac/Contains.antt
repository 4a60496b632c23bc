-- ===== src/Auth/Abac/Contains.antt =====
-- The operator contains of a condition (contains and containsMiddle of pkg/auth/abac.go).
use mathlib.Core.Bool.{false≢true}
use mathlib.Core.List.{append-nil}
use ling_framework.Base.{
  ℕ, zero, suc, ◌+◌, ◌-◌, ◌≤◌, ◌<◌, ◌≡◌, ◌≢◌, refl, sym, ap, ◌∙◌, ◌↔◌, Bool, true, [], ◌∷◌, ◌++◌,
  arith, Str, str_comparable, nat_beq, ltb, length, length-append, take, drop, take-append-drop,
  take-length, drop-length, Bool-cases, ◌==◌, ==-refl, inl, inr,
}
use ling_framework.Auth.Abac.{contains, contains_middle, contains_middle_from}

abbrev found_at : ℕ → Str → Str → Bool
found_at i str substr = take (length substr) (drop i str) == substr

found_at-split :
    (i : ℕ) (str substr : Str)
    → found_at i str substr ≡ true
    → str ≡ take i str ++ (substr ++ drop (length substr) (drop i str))
found_at-split i str substr h =
    let n = length substr in
    let here : take n (drop i str) ≡ substr = (str_comparable.same_iff _ _).0 h in
    sym (
      ap (λ w. take i str ++ (w ++ drop n (drop i str))) (sym here)
      ∙ ap (λ w. take i str ++ w) (take-append-drop n (drop i str))
      ∙ take-append-drop i str)

middle_sound :
    (rounds i : ℕ) (str substr : Str)
    → contains_middle_from rounds i str substr ≡ true
    → (j : ℕ) × (found_at j str substr ≡ true)
unfolding contains_middle_from
middle_sound zero i str substr h = cc
middle_sound (suc rounds) i str substr h = elim (Bool-cases (found_at i str substr)) [
  | inl here ↦ (i, here)
  | inr not_here ↦ middle_sound rounds (i + 1) str substr (ground arith)
]

middle_complete :
    (rounds i j : ℕ) (str substr : Str)
    → i ≤ j
    → j < i + rounds
    → found_at j str substr ≡ true
    → contains_middle_from rounds i str substr ≡ true
unfolding contains_middle_from
middle_complete zero i j str substr low high h = absurd (omega arith)
middle_complete (suc rounds) i j str substr low high h = elim (Bool-cases (found_at i str substr)) [
  | inl here ↦ ground arith
  | inr not_here ↦
      let other : i ≢ j = λ e. false≢true (sym not_here ∙ ap (λ k. found_at k str substr) e ∙ h) in
      let later : i + 1 ≤ j = omega arith in
      ground (arith, middle_complete rounds (i + 1) j str substr later (omega arith) h)
]

found_at-append :
    (pre substr post : Str) → found_at (length pre) (pre ++ (substr ++ post)) substr ≡ true
found_at-append pre substr post = rw (drop-length, take-length) (==-refl substr)

abbrev pub Occurs : Str → Str → Type 0
Occurs substr str = (pre : Str) × (post : Str) × (str ≡ pre ++ (substr ++ post))

whole_found : (str substr : Str) → (str == substr) ≡ true → Occurs substr str
whole_found str substr h =
    ([], [], (str_comparable.same_iff str substr).0 h ∙ sym (append-nil substr))

empty_found : (str substr : Str) → nat_beq (length substr) 0 ≡ true → Occurs substr str
empty_found str [] h = ([], str, refl)
empty_found str (x ∷ substr) h = absurd (ground arith)

found_here : (i : ℕ) (str substr : Str) → found_at i str substr ≡ true → Occurs substr str
found_here i str substr h =
    (take i str, drop (length substr) (drop i str), found_at-split i str substr h)

end_found : (i : ℕ) (str substr : Str) → (drop i str == substr) ≡ true → Occurs substr str
end_found i str substr h = (
  take i str,
  [],
  sym (
      ap (λ w. take i str ++ w)
        (append-nil substr ∙ sym ((str_comparable.same_iff (drop i str) substr).0 h))
      ∙ take-append-drop i str),
)

middle_found : (str substr : Str) → contains_middle str substr ≡ true → Occurs substr str
middle_found str substr h =
    let (i, here) = middle_sound (length str + 1 - length substr) 0 str substr h in
    found_here i str substr here

contains-Occurs : (str substr : Str) → contains str substr ≡ true → Occurs substr str
unfolding contains
contains-Occurs str substr h = elim (Bool-cases (str == substr)) [
  | inl e ↦ whole_found str substr e
  | inr e₁ ↦ elim (Bool-cases (nat_beq (length substr) 0)) [
    | inl e ↦ empty_found str substr e
    | inr e₂ ↦ elim (Bool-cases (found_at 0 str substr)) [
      | inl e ↦ found_here 0 str substr e
      | inr e₃ ↦ elim (Bool-cases (drop (length str - length substr) str == substr)) [
        | inl e ↦ end_found (length str - length substr) str substr e
        | inr e₄ ↦ middle_found str substr (ground arith)
      ]
    ]
  ]
]

middle_of_append : (pre substr post : Str) → contains_middle (pre ++ (substr ++ post)) substr ≡ true
middle_of_append pre substr post =
    let str = pre ++ (substr ++ post) in
    middle_complete (length str + 1 - length substr) 0 (length pre) str substr (omega arith)
      (omega (arith, length-append pre (substr ++ post), length-append substr post))
      (found_at-append pre substr post)

nothing_around :
    (pre substr post : Str) → length pre ≡ 0 → length post ≡ 0 → pre ++ (substr ++ post) ≡ substr
nothing_around [] substr [] h k = append-nil substr
nothing_around [] substr (x ∷ post) h k = absurd (omega arith)
nothing_around (x ∷ pre) substr post h k = absurd (omega arith)

Occurs-contains : (str substr : Str) → Occurs substr str → contains str substr ≡ true
unfolding contains
Occurs-contains str substr (pre, post, e) =
    let found : contains_middle str substr ≡ true =
      ap (λ w. contains_middle w substr) e ∙ middle_of_append pre substr post in
    let fits : length str ≡ length pre + (length substr + length post) =
      ap length e
      ∙ length-append pre (substr ++ post)
      ∙ ap (λ n. length pre + n) (length-append substr post) in
    elim (Bool-cases (ltb (length substr) (length str))) [
      | inl shorter ↦ ground (arith, found)
      | inr not_shorter ↦
          let whole : (str == substr) ≡ true =
            (str_comparable.same_iff str substr).1
              (e ∙ nothing_around pre substr post (ground arith) (ground arith)) in
          ground (arith, whole)
    ]

-- The operator contains answers true exactly if the one string occurs in the other, somewhere.
pub contains_iff : (str substr : Str) → (contains str substr ≡ true) ↔ Occurs substr str
contains_iff str substr = (contains-Occurs str substr, Occurs-contains str substr)
