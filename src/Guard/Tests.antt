-- ===== src/Guard/Tests.antt =====
-- The guards of pkg/utils/security on the local cache of pkg/cache, and their theorems at concrete
-- inputs.
use ling_framework.Base.{
  ℕ, ◌*◌, ◌≡◌, ◌≢◌, refl, Bool, true, false, Option, some, List, [], ◌∷◌, arith, Str,
  str_comparable, codes, map,
}
use ling_framework.Base.Dict.{fetch}
use ling_framework.Base.Int.{pos}
use ling_framework.Base.Time.{Time}
use ling_framework.Cache.{Value, LruCache, new_local_cache, lru_get, get_live, get}
use ling_framework.Guard.{minute, hour}
use ling_framework.Guard.Local.{local_cache}
use ling_framework.Guard.Login.{new_login_security_manager, check_ip_rate_limit}
use ling_framework.Guard.Registration.{
  RegistrationGuard, new_registration_guard, too_many_failed, too_short, split_at, validate_ip,
  validate_email, validate_password, mask_email,
}
use ling_framework.Guard.Attempts.{
  check_failed_attempts, check_registration_allowed,
  check_ip_rate_limit as check_ip_rate_limit_for_registration,
}
use ling_framework.Guard.Lock.{lock}
use ling_framework.Guard.UserAgent.{
  parse_user_agent, mobile, linux, mac_os, chrome, safari, has_text,
}
use ling_framework.Guard.Counted.{Close}
use ling_framework.Guard.Limits.{login_attempts, attempts-limit}
use ling_framework.Guard.Failures.{fail_all, check_failed_attempts-fail_all}
use ling_framework.Guard.Exclusion.{LockCall, locks, unlocks, call_all, lock-excludes}

abbrev Val : Type 0
Val = Value (Unit {0}) (Unit {0})

abbrev empty_cache : LruCache Val
empty_cache = new_local_cache (pos 100) (pos 0)

abbrev address : Str
address = codes "10.0.0.1"

-- Ten login_attempts, one a minute, from the second minute on.
abbrev every_minute : List Time
every_minute =
    minute * 3
    ∷ minute * 4
    ∷ minute * 5
    ∷ minute * 6
    ∷ minute * 7
    ∷ minute * 8
    ∷ minute * 9
    ∷ minute * 10
    ∷ minute * 11
    ∷ []

every_minute-Close : Close minute (minute * 2) every_minute
every_minute-Close = ground arith

attempts-limit_example :
    ((login_attempts local_cache new_login_security_manager address
        (minute * 2 ∷ every_minute)
        (some empty_cache)).0
      ≡ map (λ _. true) (minute * 2 ∷ every_minute))
    × ((check_ip_rate_limit local_cache new_login_security_manager
          (minute * 12)
          address
          (login_attempts local_cache new_login_security_manager address
            (minute * 2 ∷ every_minute)
            (some empty_cache)).1).0
        ≡ false)
unfolding fetch
attempts-limit_example =
    attempts-limit local_cache new_login_security_manager address 10 (minute * 2) (minute * 12)
      every_minute empty_cache refl (omega arith) refl every_minute-Close refl (omega arith)

abbrev guard : RegistrationGuard (Unit {0})
guard = new_registration_guard

abbrev failures : List Time
failures = hour * 2 ∷ hour * 3 ∷ hour * 4 ∷ hour * 5 ∷ []

failures-Close : Close hour hour failures
failures-Close = ground arith

check_failed_attempts-fail_all_example :
    (check_failed_attempts local_cache guard
      (hour * 6)
      address
      (fail_all local_cache guard address (hour ∷ failures) (some empty_cache))).0
    ≡ some too_many_failed
unfolding fetch
check_failed_attempts-fail_all_example =
    check_failed_attempts-fail_all local_cache guard address hour 5 hour (hour * 6) failures
      empty_cache refl (omega arith) refl (omega arith) refl failures-Close (omega arith)
      (omega arith)

abbrev others : List LockCall
others = locks 5 (codes "b") (pos 10) ∷ unlocks (codes "b") ∷ locks 8 (codes "a") (pos 20) ∷ []

b-other : codes "b" ≢ codes "a"
b-other = ground (arith, str_comparable.same_iff (codes "b") (codes "a"))

lock-excludes_example :
    lock 9 (codes "a") (pos 1) (call_all others (lock 3 (codes "a") (pos 10) []).1)
    ≡ (false, call_all others (lock 3 (codes "a") (pos 10) []).1)
unfolding lock fetch
lock-excludes_example =
    lock-excludes 3 9 (codes "a") (pos 10) (pos 1) others [] refl
      (omega arith, (b-other, (omega arith, tt))) (omega arith)

abbrev as_is : Str → Str
as_is s = s

abbrev any_email : Str → Bool
any_email s = true

-- Every text is an address here, and the one blocked net holds no address.
abbrev parse_any : Str → Option ℕ
parse_any s = some 1

abbrev no_net : Unit {0} → ℕ → Bool
no_net net ip = false

short_password :
    (check_registration_allowed local_cache guard as_is any_email parse_any no_net 7 address
      (codes "me@b.cd")
      (codes "secret")
      (some empty_cache)).0
    ≡ some (too_short (pos 8))
unfolding check_registration_allowed check_failed_attempts fetch validate_ip validate_email
    validate_password split_at get get_live lru_get check_ip_rate_limit_for_registration
short_password = refl

masked : mask_email (codes "someone@b.cd") ≡ codes "so***@b.cd"
unfolding mask_email split_at
masked = refl

-- The agent of an Android phone names Linux first, that of an iPhone says "like Mac OS X".
android_agent :
    parse_user_agent as_is (codes "mozilla/5.0 (linux; android 14) chrome/120 mobile safari/537")
    ≡ (mobile, linux, chrome)
unfolding parse_user_agent has_text
android_agent = refl

iphone_agent :
    parse_user_agent as_is (codes "mozilla/5.0 (iphone; cpu iphone os 17 like mac os x) safari/604")
    ≡ (mobile, mac_os, safari)
unfolding parse_user_agent has_text
iphone_agent = refl
