-- ===== src/Base/Time.antt =====
-- Instants and durations of the package time. An instant is a number of nanoseconds since
-- January 1 of year 1, the zero time; a duration spans at most 292 years, so that no duration
-- takes an instant of our days below 0.
use Prim.Native.Nat.{ℕ, suc, ◌+◌, ◌-◌}
use mathlib.Core.Bool.{Bool}
use ling_framework.Base.Int.{ℤ, pos, negsuc, sub_ℕ}
use ling_framework.Base.Tests.{ltb, nat_beq}

abbrev pub Time : Type 0
Time = ℕ

abbrev pub Duration : Type 0
Duration = ℤ

-- t.IsZero()
abbrev pub is_zero : Time → Bool
is_zero t = nat_beq t 0

-- t.After(u)
abbrev pub after : Time → Time → Bool
after t u = ltb u t

-- t.Add(d)
abbrev pub add_time : Time → Duration → Time
add_time t (pos d) = t + d
add_time t (negsuc d) = t - suc d

-- t.Sub(u)
abbrev pub sub_time : Time → Time → Duration
sub_time t u = sub_ℕ t u
