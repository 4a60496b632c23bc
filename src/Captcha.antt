-- ===== src/Captcha.antt =====
-- The captcha store and the checks of answers, pkg/utils/captcha: store.go and the methods Verify of
-- image.go, slider.go, puzzle.go and click.go. `lower` stands for strings.ToLower. The memory store
-- is shared by all four kinds; Get, Delete and cleanup are steps under its lock, and VerifyWithFunc
-- is a Get with a Delete behind it. An int is an int64.
pub mod Once
pub mod Near
pub mod Clicks
mod Tests
use ling_framework.Base.{
  ℕ, Bool, true, false, ◌&&◌, not, Option, none, some, List, [], ◌∷◌, Str, str_comparable, codes,
  length, nat_beq, ◌==◌, if◌then◌else◌, ◌⊎◌, inl, inr,
}
use ling_framework.Base.Dict.{Dict, fetch, store, delete}
use ling_framework.Base.Int.{ℤ, pos, negsuc, ◌-ℤ◌, leb_ℤ, ltb_ℤ, wrap64}
use ling_framework.Base.Time.{Time, after}

pub record Point : Type 0 where
  pub x : ℤ
  pub y : ℤ

-- What the captchas store, and what the user answers.
pub data Value : Type 0 where
  text : Str → Value
  position : Dict Str ℤ → Value
  points : List Point → Value

pub record StoreData : Type 0 where
  pub data_of : Value
  pub expires : Time

pub data StoreError : Type 0 where
  captcha_not_found captcha_expired : StoreError

abbrev pub MemoryStore : Type 0
MemoryStore = Dict Str StoreData

unfoldable pub set : Str → Value → Time → MemoryStore → MemoryStore
set id value expires s = store s id (record { data_of = value; expires = expires })

-- Delete
abbrev pub delete_captcha : Str → MemoryStore → MemoryStore
delete_captcha id s = delete s id

abbrev pub get_found :
    Time → Str → Option StoreData → MemoryStore → MemoryStore × (StoreError ⊎ Value)
get_found now id none s = (s, inl captcha_not_found)
get_found now id (some d) s =
    if after now d.expires then (delete s id, inl captcha_expired) else (s, inr d.data_of)

unfoldable pub get : Time → Str → MemoryStore → MemoryStore × (StoreError ⊎ Value)
get now id s = get_found now id (fetch s id) s

unfoldable pub cleanup : Time → MemoryStore → MemoryStore
cleanup now [] = []
cleanup now ((id, d) ∷ s) =
    let rest = cleanup now s in if after now d.expires then rest else (id, d) ∷ rest

abbrev pub finish_verify :
    Str → (Value → Bool) → MemoryStore × (StoreError ⊎ Value) → MemoryStore × (StoreError ⊎ Bool)
finish_verify id accepts (s, inl err) = (s, inl err)
finish_verify id accepts (s, inr value) =
    if accepts value then (delete_captcha id s, inr true) else (s, inr false)

-- VerifyWithFunc, with the comparison applied to the input.
unfoldable pub verify_with_func :
    Time → Str → (Value → Bool) → MemoryStore → MemoryStore × (StoreError ⊎ Bool)
verify_with_func now id accepts s = finish_verify id accepts (get now id s)

-- The comparison of ImageCaptcha.Verify, which is also the one without a compareFunc.
abbrev pub same_text : (Str → Str) → Value → Value → Bool
same_text lower (text code) (text input) = lower code == lower input
same_text lower _ _ = false

-- abs, which has no positive value for the least int.
unfoldable pub abs : ℤ → ℤ
abs v = if ltb_ℤ v (pos 0) then wrap64 (pos 0 -ℤ v) else v

unfoldable pub is_near : ℤ → ℤ → ℤ → Bool
is_near tolerance input stored = leb_ℤ (abs (wrap64 (input -ℤ stored))) tolerance

-- m[k] of a map[string]int: 0 for a missing key.
abbrev pub int_of : Option ℤ → ℤ
int_of none = pos 0
int_of (some v) = v

abbrev pub at_position : ℤ → Dict Str ℤ → Dict Str ℤ → Bool
at_position tolerance stored input =
    is_near tolerance (int_of (fetch input (codes "x"))) (int_of (fetch stored (codes "x")))
    && is_near tolerance (int_of (fetch input (codes "y"))) (int_of (fetch stored (codes "y")))

-- The comparison of SliderCaptcha.Verify and of PuzzleCaptcha.Verify.
abbrev pub same_position : ℤ → Value → Value → Bool
same_position tolerance (position stored) (position input) = at_position tolerance stored input
same_position tolerance _ _ = false

abbrev pub hits : ℤ → Point → Point → Bool
hits tolerance stored input =
    is_near tolerance input.x stored.x && is_near tolerance input.y stored.y

abbrev pub pass_by : Point × Bool → Option (List (Point × Bool)) → Option (List (Point × Bool))
pass_by input none = none
pass_by input (some later) = some (input ∷ later)

-- The inner loop of ClickCaptcha.Verify: the inputs with their marks in `matched`.
unfoldable pub claim : ℤ → Point → List (Point × Bool) → Option (List (Point × Bool))
claim tolerance stored [] = none
claim tolerance stored ((input, matched) ∷ inputs) =
    let rest = claim tolerance stored inputs in
    if not matched && hits tolerance stored input
    then some ((input, true) ∷ inputs)
    else pass_by (input, matched) rest

unfoldable pub claim_all : ℤ → List Point → List (Point × Bool) → Bool
claim_all tolerance [] inputs = true
claim_all tolerance (stored ∷ more) inputs = elim (claim tolerance stored inputs) [
  | none ↦ false
  | some later ↦ claim_all tolerance more later
]

abbrev pub unmatched : List Point → List (Point × Bool)
unmatched [] = []
unmatched (p ∷ ps) = (p, false) ∷ unmatched ps

unfoldable pub match_clicks : ℤ → List Point → List Point → Bool
match_clicks tolerance stored inputs =
    if nat_beq (length stored) (length inputs)
    then claim_all tolerance stored (unmatched inputs)
    else false

-- The comparison of ClickCaptcha.Verify.
abbrev pub same_clicks : ℤ → Value → Value → Bool
same_clicks tolerance (points stored) (points inputs) = match_clicks tolerance stored inputs
same_clicks tolerance _ _ = false

unfoldable pub verify_image :
    (Str → Str) → Time → Str → Str → MemoryStore → MemoryStore × (StoreError ⊎ Bool)
verify_image lower now id code s = verify_with_func now id (λ v. same_text lower v (text code)) s

-- The Verify of the slider and of the puzzle.
unfoldable pub verify_position :
    ℤ → Time → Str → ℤ → ℤ → MemoryStore → MemoryStore × (StoreError ⊎ Bool)
verify_position tolerance now id user_x user_y s =
    verify_with_func now id
      (λ v. same_position tolerance v (position ((codes "x", user_x) ∷ (codes "y", user_y) ∷ []))) s

unfoldable pub verify_click :
    ℤ → Time → Str → List Point → MemoryStore → MemoryStore × (StoreError ⊎ Bool)
verify_click tolerance now id user_positions s =
    verify_with_func now id (λ v. same_clicks tolerance v (points user_positions)) s
