-- ===== src/Guard.antt =====
-- The guards of logins and registrations in pkg/utils/security. They keep their counters and locks
-- in a cache.Cache, which is the interface `CacheOps` here; the local cache of pkg/cache fills it in
-- Guard/Local, the Redis cache does not fill it. A guard's record holds its settings; the cache, which other code shares, is passed
-- apart, and is none where the source has nil. A method reads the clock once.
pub mod Login
pub mod Registration
pub mod Attempts
pub mod Lock
pub mod UserAgent
pub mod Counted
pub mod Limits
pub mod Failures
pub mod Exclusion
pub mod Local
mod Tests
use ling_framework.Base.{◌≤◌, ◌<◌, ◌≡◌, ◌+◌, Option, none, some, Str, ltb, if◌then◌else◌}
use ling_framework.Base.Int.{ℤ, pos}
use ling_framework.Base.Time.{Time, Duration}
use ling_framework.Cache.{Value, int, int64, float64, other}

-- The operations of cache.Cache that the guards call, and what they promise by `peek`: what a Get
-- would return at an instant. Nothing is promised of keys that Set does not name. A Get is to give
-- the very int that was Set, as the local cache does. redisCache of pkg/cache/redis.go does not: it
-- keeps JSON, from which an int comes back as a float64; with it the guards read every count as 0.
pub record CacheOps (C V : Type 0) : Type 0 where
  pub get : Time → Str → C → Option V × C
  pub set : Time → Str → V → Duration → C → C
  pub delete : Str → C → C
  pub peek : Time → Str → C → Option V
  pub get-peek : (now : Time) (key : Str) (c : C) → (get now key c).0 ≡ peek now key c
  pub peek-get :
      (now t : Time) (j key : Str) (c : C) → now ≤ t → peek t j (get now key c).1 ≡ peek t j c
  pub peek-set :
      (now t life : Time) (key : Str) (v : V) (c : C)
      → 0 < life
      → peek t key (set now key v (pos life) c) ≡ (if ltb (now + life) t then none else some v)
  pub peek-delete : (t : Time) (key : Str) (c : C) → peek t key (delete key c) ≡ none

-- time.Minute and time.Hour
abbrev pub minute : Time
minute = 60000000000

abbrev pub hour : Time
hour = 3600000000000

module _ {F O : Type 0} where
  -- if val, ok := Get(key); ok { if c, ok := val.(int); ok { count = c } }, with count at 0 before
  abbrev pub number_in : Option (Value F O) → ℤ
  number_in none = pos 0
  number_in (some (int n)) = n
  number_in (some (int64 n)) = pos 0
  number_in (some (float64 x)) = pos 0
  number_in (some (other x)) = pos 0
