-- ===== src/Guard/Exclusion.antt =====
-- What the locks of pkg/utils/security/distributed_lock.go exclude.
use ling_framework.Base.{
  ◌+◌, ◌≤◌, ◌<◌, ◌≡◌, ◌≢◌, refl, ap, true, false, Option, none, some, List, [], ◌∷◌, ◌++◌, arith,
  Str, str_comparable, codes, ltb, leb, ==-refl,
}
use ling_framework.Base.Dict.{fetch, delete, fetch-store, fetch-delete}
use ling_framework.Base.Time.{Time, Duration, add_time}
use ling_framework.Cache.{Value}
use ling_framework.Guard.{CacheOps}
use ling_framework.Guard.Lock.{
  MemoryLock, lock, lock_found, unlock, acquire_registration_lock, release_registration_lock,
}

-- A call of Lock (or TryLock) at an instant, or of Unlock.
pub data LockCall : Type 0 where
  locks : Time → Str → Duration → LockCall
  unlocks : Str → LockCall

abbrev pub call : LockCall → MemoryLock → MemoryLock
call (locks now key ttl) ml = (lock now key ttl ml).1
call (unlocks key) ml = unlock key ml

abbrev pub call_all : List LockCall → MemoryLock → MemoryLock
call_all [] ml = ml
call_all (e ∷ es) ml = call_all es (call e ml)

-- Calls before an instant, none of which unlocks a key.
abbrev pub Keeps : Str → Time → LockCall → Type 0
Keeps key until (locks now k ttl) = now < until
Keeps key until (unlocks k) = k ≢ key

abbrev pub AllKeep : Str → Time → List LockCall → Type 0
AllKeep key until [] = Unit
AllKeep key until (e ∷ es) = Keeps key until e × AllKeep key until es

lock-fetch :
    (now : Time) (key : Str) (ttl : Duration) (ml : MemoryLock) (o : Option Time)
    → fetch ml key ≡ o
    → (lock_found now key ttl ml o).0 ≡ true
    → fetch (lock now key ttl ml).1 key ≡ some (add_time now ttl)
unfolding lock
lock-fetch now key ttl ml none h granted = rw h (rw (fetch-store, ==-refl key) refl)
lock-fetch now key ttl ml (some expire) h granted =
    rw h (ground (arith, fetch-store (delete ml key) key key (add_time now ttl), ==-refl key))

lock_found-fetch :
    (now : Time) (k key : Str) (ttl : Duration) (ml : MemoryLock) (o : Option Time) (until : Time)
    → fetch ml k ≡ o
    → fetch ml key ≡ some until
    → now < until
    → fetch (lock_found now k ttl ml o).1 key ≡ some until
lock_found-fetch now k key ttl ml none until h held early = ground (
  arith,
  fetch-store ml k key (add_time now ttl),
  str_comparable.same_iff k key,
  ap (λ x. fetch ml x),
)
lock_found-fetch now k key ttl ml (some expire) until h held early = ground (
  arith,
  fetch-store (delete ml k) k key (add_time now ttl),
  fetch-delete ml k key,
  str_comparable.same_iff k key,
  ap (λ x. fetch ml x),
)

call-fetch :
    (key : Str) (until : Time) (e : LockCall) (ml : MemoryLock)
    → fetch ml key ≡ some until
    → Keeps key until e
    → fetch (call e ml) key ≡ some until
unfolding lock unlock
call-fetch key until (locks now k ttl) ml h early =
    lock_found-fetch now k key ttl ml (fetch ml k) until refl h early
call-fetch key until (unlocks k) ml h other_key =
    ground (arith, fetch-delete ml k key, str_comparable.same_iff k key)

call_all-fetch :
    (key : Str) (until : Time) (es : List LockCall) (ml : MemoryLock)
    → fetch ml key ≡ some until
    → AllKeep key until es
    → fetch (call_all es ml) key ≡ some until
call_all-fetch key until [] ml h all = h
call_all-fetch key until (e ∷ es) ml h all =
    call_all-fetch key until es (call e ml) (call-fetch key until e ml h all.0) all.1

-- A lock that was granted excludes: whatever is locked and unlocked after it, as long as the lock
-- itself is not unlocked, every Lock of its key before it expires is refused, and leaves the locks
-- as they are.
pub lock-excludes :
    (t now : Time) (key : Str) (ttl ttl' : Duration) (es : List LockCall) (ml : MemoryLock)
    → (lock t key ttl ml).0 ≡ true
    → AllKeep key (add_time t ttl) es
    → now < add_time t ttl
    → lock now key ttl' (call_all es (lock t key ttl ml).1)
      ≡ (false, call_all es (lock t key ttl ml).1)
unfolding lock
lock-excludes t now key ttl ttl' es ml granted all early =
    let held =
      call_all-fetch key (add_time t ttl) es (lock t key ttl ml).1
        (lock-fetch t key ttl ml (fetch ml key) refl granted) all in
    rw held (ground (arith, early))

-- A lock that has expired is granted to the next call.
pub lock-expired :
    (now until : Time) (key : Str) (ttl : Duration) (ml : MemoryLock)
    → fetch ml key ≡ some until
    → (lock now key ttl ml).0 ≡ leb until now
unfolding lock
lock-expired now until key ttl ml h = rw h (ground arith)

module _ {C F O : Type 0} (ops : CacheOps C (Value F O)) (held : O) where
  -- Of two registrations of one e-mail, the second is let in if the cache had no lock at the first
  -- and the second comes more than five minutes after it, or after the first released the lock.
  pub acquire-acquire :
      (t now : Time) (email : Str) (c : C)
      → ops.peek t (codes "reg:lock:" ++ email) c ≡ none
      → t ≤ now
      → ((acquire_registration_lock ops held now email
            (acquire_registration_lock ops held t email (some c)).1).0
          ≡ ltb (t + 300000000000) now)
        × ((acquire_registration_lock ops held now email (
              release_registration_lock ops email
                (acquire_registration_lock ops held t email (some c)).1)).0
            ≡ true)
  unfolding acquire_registration_lock release_registration_lock
  acquire-acquire t now email c absent le =
      let positive : 0 < 300000000000 = omega arith in
      (
        rw (ops.get-peek, absent, ops.get-peek, ops.peek-set, positive) (ground arith),
        rw (ops.get-peek, absent, ops.get-peek, ops.peek-delete) refl,
      )
