-- ===== src/Guard/Lock.antt =====
-- pkg/utils/security/distributed_lock.go: MemoryLock, and the lock of a registration in the cache.
use ling_framework.Base.{
  Bool, true, false, Option, none, some, [], ◌++◌, Str, str_comparable, codes, if◌then◌else◌,
}
use ling_framework.Base.Dict.{Dict, fetch, store, delete, is_some}
use ling_framework.Base.Int.{pos}
use ling_framework.Base.Time.{Time, Duration, after, add_time}
use ling_framework.Cache.{Value, other}
use ling_framework.Guard.{CacheOps}

-- The expiry of each lock.
abbrev pub MemoryLock : Type 0
MemoryLock = Dict Str Time

-- NewMemoryLock
abbrev pub new_memory_lock : MemoryLock
new_memory_lock = []

abbrev pub lock_found : Time → Str → Duration → MemoryLock → Option Time → Bool × MemoryLock
lock_found now key ttl ml none = (true, store ml key (add_time now ttl))
lock_found now key ttl ml (some expire_time) =
    if after expire_time now
    then (false, ml)
    else (true, store (delete ml key) key (add_time now ttl))

-- Lock, at an instant: true, or false with the error that the lock exists.
unfoldable pub lock : Time → Str → Duration → MemoryLock → Bool × MemoryLock
lock now key ttl ml = lock_found now key ttl ml (fetch ml key)

-- TryLock
abbrev pub try_lock : Time → Str → Duration → MemoryLock → Bool × MemoryLock
try_lock = lock

-- Unlock
unfoldable pub unlock : Str → MemoryLock → MemoryLock
unlock key ml = delete ml key

-- `held` is the value true that stands in the cache.
module _ {C F O : Type 0} (ops : CacheOps C (Value F O)) (held : O) where
  -- AcquireRegistrationLock
  unfoldable pub acquire_registration_lock : Time → Str → Option C → Bool × Option C
  acquire_registration_lock now email none = (true, none)
  acquire_registration_lock now email (some c) =
      let key = codes "reg:lock:" ++ email in
      let got = ops.get now key c in
      if is_some got.0
      then (false, some got.1)
      else (true, some (ops.set now key (other held) (pos 300000000000) got.1))

module _ {C F O : Type 0} (ops : CacheOps C (Value F O)) where
  -- ReleaseRegistrationLock; the error of Delete is left out, the local cache has none.
  unfoldable pub release_registration_lock : Str → Option C → Option C
  release_registration_lock email none = none
  release_registration_lock email (some c) = some (ops.delete (codes "reg:lock:" ++ email) c)
