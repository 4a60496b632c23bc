-- ===== src/Captcha/Near.antt =====
-- The tolerance of the slider and of the puzzle (pkg/utils/captcha/slider.go and puzzle.go).
use ling_framework.Base.{ℕ, ◌≡◌, ◌↔◌, true, arith}
use ling_framework.Base.Int.{ℤ, pos, negsuc, ◌-ℤ◌, ◌+ℤ◌, ◌≤ℤ◌, ◌<ℤ◌, wrap64}
use ling_framework.Captcha.{abs, is_near}

-- For coordinates below 2^62 in size the test of a coordinate holds exactly if the two are at most
-- the tolerance apart.
pub is_near_iff :
    (tolerance : ℕ) (input stored : ℤ)
    → input <ℤ pos 4611686018427387904
    → negsuc 4611686018427387904 <ℤ input
    → stored <ℤ pos 4611686018427387904
    → negsuc 4611686018427387904 <ℤ stored
    → (is_near (pos tolerance) input stored ≡ true)
      ↔ ((input ≤ℤ stored +ℤ pos tolerance) × (stored ≤ℤ input +ℤ pos tolerance))
unfolding is_near abs wrap64 ◌-ℤ◌ ◌+ℤ◌
is_near_iff tolerance (pos a) (pos b) h₁ h₂ h₃ h₄ = ground arith
is_near_iff tolerance (pos a) (negsuc b) h₁ h₂ h₃ h₄ = ground arith
is_near_iff tolerance (negsuc a) (pos b) h₁ h₂ h₃ h₄ = ground arith
is_near_iff tolerance (negsuc a) (negsuc b) h₁ h₂ h₃ h₄ = ground arith
