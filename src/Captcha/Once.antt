-- ===== src/Captcha/Once.antt =====
-- When an answer is accepted, and how often (VerifyWithFunc of pkg/utils/captcha/store.go).
use ling_framework.Base.{
  ◌≡◌, ◌↔◌, refl, ap, ◌∙◌, Bool, true, false, Option, none, some, arith, Str, str_comparable,
  Bool-cases, ==-refl, ◌⊎◌, inl, inr,
}
use ling_framework.Base.Dict.{fetch, delete, fetch-delete}
use ling_framework.Base.Time.{Time, after}
use ling_framework.Captcha.{
  Value, StoreData, StoreError, captcha_not_found, MemoryStore, get, get_found, finish_verify,
  verify_with_func,
}

-- A captcha of this id is stored, has not expired, and its value is accepted.
abbrev pub Acceptable : Time → Str → (Value → Bool) → MemoryStore → Type 0
Acceptable now id accepts s =
    (d : StoreData) × (fetch s id ≡ some d)
    × (after now d.expires ≡ false)
    × (accepts d.data_of ≡ true)

abbrev answer :
    Time → Str → (Value → Bool) → Option StoreData → MemoryStore → MemoryStore × (StoreError ⊎ Bool)
answer now id accepts found s = finish_verify id accepts (get_found now id found s)

accepted :
    (now : Time) (id : Str) (accepts : Value → Bool) (found : Option StoreData) (s : MemoryStore)
    → (answer now id accepts found s).1 ≡ inr true
    → (d : StoreData) × (found ≡ some d)
      × (after now d.expires ≡ false)
      × (accepts d.data_of ≡ true)
      × ((answer now id accepts found s).0 ≡ delete s id)
accepted now id accepts none s h = cc
accepted now id accepts (some d) s h = elim (Bool-cases (after now d.expires)) [
  | inl late ↦ absurd (ground (arith, h, late))
  | inr in_time ↦ elim (Bool-cases (accepts d.data_of)) [
    | inl taken ↦ (d, refl, in_time, taken, rw (in_time, taken) refl)
    | inr refused ↦ absurd (ground (arith, h, in_time, refused))
  ]
]

-- VerifyWithFunc answers true exactly if a captcha of this id is stored, its expiration has not
-- passed, and the comparison accepts its value.
pub verify_with_func_iff :
    (now : Time) (id : Str) (accepts : Value → Bool) (s : MemoryStore)
    → ((verify_with_func now id accepts s).1 ≡ inr true) ↔ Acceptable now id accepts s
unfolding verify_with_func get
verify_with_func_iff now id accepts s = (
  λ h.
      let (d, found, in_time, taken, gone) = accepted now id accepts (fetch s id) s h in
      (d, found, in_time, taken),
  λ (d, found, in_time, taken).
      ap (λ o. (answer now id accepts o s).1) found ∙ rw (in_time, taken) refl,
)

gone_after : (id : Str) (s : MemoryStore) → fetch (delete s id) id ≡ none
gone_after id s = fetch-delete s id id ∙ rw (==-refl id) refl

-- A captcha is good for one answer: after VerifyWithFunc has answered true, every later call for the
-- same id gives the error that the captcha was not found, whatever the input and the instant, and
-- leaves the store as it is.
pub verify_with_func-twice :
    (now later : Time) (id : Str) (accepts again : Value → Bool) (s : MemoryStore)
    → (verify_with_func now id accepts s).1 ≡ inr true
    → verify_with_func later id again (verify_with_func now id accepts s).0
      ≡ ((verify_with_func now id accepts s).0, inl captcha_not_found)
unfolding verify_with_func get
verify_with_func-twice now later id accepts again s h =
    let (d, found, in_time, taken, gone) = accepted now id accepts (fetch s id) s h in
    rw gone (ap (λ o. answer later id again o (delete s id)) (gone_after id s))
