-- ===== src/Guard/Attempts.antt =====
-- pkg/utils/security/registration_guard.go: the counts of successful and failed registrations of an
-- address, and CheckRegistrationAllowed, which puts the tests of Registration.antt together.
use ling_framework.Base.{Bool, false, Option, none, some, ◌++◌, Str, codes, if◌then◌else◌}
use ling_framework.Base.Int.{ℤ, leb_ℤ, inc64}
use ling_framework.Base.Time.{Time, Duration}
use ling_framework.Cache.{Value, int}
use ling_framework.Guard.{CacheOps, number_in}
use ling_framework.Guard.Registration.{
  RegistrationGuard, RegistrationError, too_many_failed, rate_limit_exceeded, validate_ip,
  validate_email, validate_password,
}

-- One test after the other, on the cache that the last one left.
abbrev pub and_then :
    {C : Type 0}
    → Option RegistrationError × Option C
    → (Option C → Option RegistrationError × Option C)
    → Option RegistrationError × Option C
and_then (some err, cache) next = (some err, cache)
and_then (none, cache) next = next cache

module _ {C F O : Type 0} (ops : CacheOps C (Value F O)) where
  -- The test of a count against its limit, and the cache after the Get.
  abbrev pub test_count :
      Time → Str → ℤ → RegistrationError → C → Option RegistrationError × Option C
  test_count now key limit err c =
      let got = ops.get now key c in
      (if leb_ℤ limit (number_in got.0) then some err else none, some got.1)

  -- Get of a count, its increment and Set.
  abbrev pub count_up : Time → Str → Duration → C → C
  count_up now key window c =
      let got = ops.get now key c in ops.set now key (int (inc64 (number_in got.0))) window got.1

  module _ {Net : Type 0} (rg : RegistrationGuard Net) where
    -- CheckIPRateLimit
    unfoldable pub check_ip_rate_limit : Time → Str → Option C → Option RegistrationError × Option C
    check_ip_rate_limit now ip none = (none, none)
    check_ip_rate_limit now ip (some c) =
        test_count now (codes "reg:ip:" ++ ip) rg.max_registrations_per_ip rate_limit_exceeded c

    -- CheckFailedAttempts
    unfoldable pub check_failed_attempts :
        Time → Str → Option C → Option RegistrationError × Option C
    check_failed_attempts now ip none = (none, none)
    check_failed_attempts now ip (some c) =
        test_count now (codes "reg:failed:ip:" ++ ip) rg.max_failed_attempts_per_ip too_many_failed
          c

    -- RecordRegistrationAttempt; its e-mail and reason only reach the log.
    unfoldable pub record_registration_attempt : Time → Str → Bool → Option C → Option C
    record_registration_attempt now ip success none = none
    record_registration_attempt now ip success (some c) =
        if success
        then some (count_up now (codes "reg:ip:" ++ ip) rg.ip_rate_limit_window c)
        else some (count_up now (codes "reg:failed:ip:" ++ ip) rg.failed_attempt_window c)

    -- The last two tests of CheckRegistrationAllowed, which count a failure.
    abbrev pub record_error :
        Time
        → Str
        → Option RegistrationError
        → Option RegistrationError
        → Option C
        → Option RegistrationError × Option C
    record_error now ip (some err) next cache =
        (some err, record_registration_attempt now ip false cache)
    record_error now ip none (some err) cache =
        (some err, record_registration_attempt now ip false cache)
    record_error now ip none none cache = (none, cache)

    module _ (lower : Str → Str) (matches_email : Str → Bool) {Ip : Type 0}
        (parse_ip : Str → Option Ip) (contains_ip : Net → Ip → Bool) where
      -- CheckRegistrationAllowed
      unfoldable pub check_registration_allowed :
          Time → Str → Str → Str → Option C → Option RegistrationError × Option C
      check_registration_allowed now ip email password cache =
          and_then (validate_ip parse_ip contains_ip rg ip, cache)
            (λ cache0. and_then (check_failed_attempts now ip cache0) (λ cache1.
              and_then (check_ip_rate_limit now ip cache1) (λ cache2.
                record_error now ip (validate_email lower matches_email rg email)
                  (validate_password rg password) cache2)))
