-- ===== src/Transaction/Errors.antt =====
-- Which errors roll a transaction back (ShouldRollback of pkg/transaction/types.go).
use ling_framework.Base.{
  ◌≡◌, ◌↔◌, refl, ap, ◌∙◌, true, false, some, List, [], ◌∷◌, ◌++◌, arith, All, Bool-cases, ◌⊎◌, inl,
  inr,
}
use ling_framework.Transaction.{GoError, Config, errors_is, is_any, rolls_back_on, should_rollback}

-- A target of the list is in the chain of the error.
abbrev pub Matched : GoError → List GoError → Type 0
Matched err targets =
    (pre : List GoError) × (target : GoError) × (post : List GoError) × (targets
      ≡ pre ++ target ∷ post)
    × (errors_is err target ≡ true)

Matched-is_any :
    (err : GoError) (targets : List GoError) → is_any err targets ≡ true → Matched err targets
unfolding is_any
Matched-is_any err [] h = cc
Matched-is_any err (t ∷ ts) h = elim (Bool-cases (errors_is err t)) [
  | inl hit ↦ ([], t, ts, refl, hit)
  | inr miss ↦
      let (pre, target, post, e, hit) = Matched-is_any err ts (ground arith) in
      (t ∷ pre, target, post, ap (◌∷◌ t) e, hit)
]

is_any-append :
    (err target : GoError) (pre post : List GoError)
    → errors_is err target ≡ true
    → is_any err (pre ++ target ∷ post) ≡ true
unfolding is_any
is_any-append err target [] post h = ground arith
is_any-append err target (t ∷ pre) post h = ground (arith, is_any-append err target pre post h)

is_any-Matched :
    (err : GoError) (targets : List GoError) → Matched err targets → is_any err targets ≡ true
is_any-Matched err targets (pre, target, post, e, h) =
    ap (is_any err) e ∙ is_any-append err target pre post h

none_matched :
    (err : GoError) (targets : List GoError)
    → (is_any err targets ≡ false) ↔ All (λ t. errors_is err t ≡ false) targets
unfolding is_any
none_matched err [] = (λ h. tt, λ h. refl)
none_matched err (t ∷ ts) = ground (arith, none_matched err ts)

listed :
    (err : GoError) (targets : List GoError)
    → (rolls_back_on err targets ≡ true) ↔ ((targets ≡ []) ⊎ Matched err targets)
listed err [] = (λ h. inl refl, λ h. refl)
listed err (t ∷ ts) = (
  λ h. inr (Matched-is_any err (t ∷ ts) h),
  λ h. elim h [ inl e ↦ cc | inr m ↦ is_any-Matched err (t ∷ ts) m ],
)

-- An error rolls a transaction back exactly if none of NoRollbackOn is in its chain and RollbackOn
-- is empty or names an error of its chain.
pub should_rollback_iff :
    (config : Config) (err : GoError)
    → (should_rollback config (some err) ≡ true) ↔ (
        All (λ t. errors_is err t ≡ false) config.no_rollback_on
        × ((config.rollback_on ≡ []) ⊎ Matched err config.rollback_on))
unfolding should_rollback
should_rollback_iff config err =
    let excluded = none_matched err config.no_rollback_on in
    let included = listed err config.rollback_on in
    elim (Bool-cases (is_any err config.no_rollback_on)) [
      | inl e ↦ rw e (λ h. cc, λ h. absurd (ground (arith, excluded.1 h.0)))
      | inr e ↦ rw e (λ h. (excluded.0 e, included.0 h), λ h. included.1 h.1)
    ]
