-- ===== src/Captcha/Tests.antt =====
-- Tests of the captchas on concrete answers.
use ling_framework.Base.{◌≡◌, refl, Bool, false, [], ◌∷◌, str_comparable, codes, inl}
use ling_framework.Base.Dict.{fetch}
use ling_framework.Base.Int.{pos, ◌-ℤ◌, wrap64}
use ling_framework.Captcha.{
  Point, Value, captcha_not_found, MemoryStore, verify_with_func, same_text, is_near, match_clicks,
  get, claim, claim_all, abs,
}
use ling_framework.Captcha.Once.{verify_with_func-twice}
use ling_framework.Captcha.Clicks.{Matching, match_clicks-Matching}

abbrev one_code : MemoryStore
one_code = (codes "id", record { data_of = Value.text (codes "ab3"); expires = 900 }) ∷ []

abbrev accepts_code : Value → Bool
accepts_code v = same_text (λ s. s) v (Value.text (codes "ab3"))

verify_with_func-twice_example :
    verify_with_func 850
      (codes "id")
      accepts_code
      (verify_with_func 800 (codes "id") accepts_code one_code).0
    ≡ ((verify_with_func 800 (codes "id") accepts_code one_code).0, inl captcha_not_found)
unfolding verify_with_func get fetch
verify_with_func-twice_example =
    verify_with_func-twice 800 850 (codes "id") accepts_code accepts_code one_code refl

abbrev left_point : Point
left_point = record { x = pos 0; y = pos 0 }

abbrev right_point : Point
right_point = record { x = pos 8; y = pos 0 }

abbrev middle_point : Point
middle_point = record { x = pos 4; y = pos 0 }

-- Both clicks can be matched, the middle one with the right point, but the first click in reach of
-- the left point is taken for it.
greedy_refuses :
    match_clicks (pos 5) (left_point ∷ right_point ∷ []) (middle_point ∷ left_point ∷ []) ≡ false
unfolding match_clicks claim claim_all is_near abs wrap64 ◌-ℤ◌
greedy_refuses = refl

match_clicks-Matching_example :
    Matching (pos 5) (left_point ∷ right_point ∷ []) (right_point ∷ left_point ∷ [])
unfolding match_clicks claim claim_all is_near abs wrap64 ◌-ℤ◌
match_clicks-Matching_example =
    match_clicks-Matching (pos 5) (left_point ∷ right_point ∷ []) (right_point ∷ left_point ∷ [])
      refl
