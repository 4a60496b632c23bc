-- ===== src/Guard/Login.antt =====
-- pkg/utils/security/login_security.go: LoginSecurityManager. `DB` is the state of the database
-- that the functions given to the methods read and write. Log lines are left out.
use ling_framework.Base.{
  ℕ, Bool, true, false, ◌&&◌, ◌||◌, not, Option, none, some, List, [], ◌∷◌, ◌++◌, Str,
  str_comparable, codes, nat_beq, ◌==◌, if◌then◌else◌, ◌⊎◌, inl, inr,
}
use ling_framework.Base.Int.{ℤ, pos, leb_ℤ, inc64}
use ling_framework.Base.Time.{Time, Duration, sub_time}
use ling_framework.Cache.{Value, int}
use ling_framework.Guard.{CacheOps, number_in, minute, hour}

pub record LoginSecurityManager : Type 0 where
  pub max_failed_attempts : ℤ
  pub lock_duration : Duration
  pub max_password_logins : ℤ
  pub ip_rate_limit_per_minute : ℤ

-- NewLoginSecurityManager
abbrev pub new_login_security_manager : LoginSecurityManager
new_login_security_manager = record {
  max_failed_attempts = pos 7;
  lock_duration = pos 1800000000000;
  max_password_logins = pos 25;
  ip_rate_limit_per_minute = pos 10;
}

pub record AccountLockInfo : Type 0 where
  pub is_locked : Bool
  pub unlock_at : Time

pub record LoginLocation : Type 0 where
  pub country : Str
  pub city : Str

-- The errors; `account_locked` has the remaining time that the message prints in minutes, and
-- `failed` is an error of a function that was given to the method.
pub data LoginError (E : Type 0) : Type 0 where
  account_locked : Duration → LoginError E
  too_many_attempts invalid_ip_address : LoginError E
  failed : E → LoginError E

-- login.Country != "" && currentCountry != "" && login.Country != currentCountry
abbrev pub differs : Str → Str → Bool
differs country current = not (country == []) && not (current == []) && not (country == current)

abbrev pub any_differs : List LoginLocation → Str → Bool
any_differs [] current = false
any_differs (l ∷ ls) current = differs l.country current || any_differs ls current

module _ {E : Type 0} where
  abbrev pub judge_lock : Time → E ⊎ Option AccountLockInfo → Option (LoginError E)
  judge_lock now (inl err) = some (failed err)
  judge_lock now (inr none) = none
  judge_lock now (inr (some info)) =
      if info.is_locked then some (account_locked (sub_time info.unlock_at now)) else none

  abbrev pub judge_limit : LoginSecurityManager → E ⊎ ℤ → LoginError E ⊎ Bool
  judge_limit m (inl err) = inl (failed err)
  judge_limit m (inr count) = inr (leb_ℤ m.max_password_logins count)

  abbrev pub judge_locations : Str → E ⊎ List LoginLocation → LoginError E ⊎ Bool
  judge_locations current (inl err) = inl (failed err)
  judge_locations current (inr logins) = inr (any_differs logins current)

  -- CheckProxyIP; `parses` tells whether net.ParseIP accepts the text.
  unfoldable pub check_proxy_ip : (Str → Bool) → Str → LoginError E ⊎ Bool
  check_proxy_ip parses ip = if parses ip then inr false else inl invalid_ip_address

module _ {E DB : Type 0} where
  -- CheckAccountLock
  unfoldable pub check_account_lock :
      Time
      → DB
      → Str
      → ℕ
      → Option (DB → Str → ℕ → E ⊎ Option AccountLockInfo)
      → Option (LoginError E)
  check_account_lock now db email user_id none = none
  check_account_lock now db email user_id (some check_func) =
      judge_lock now (check_func db email user_id)

  -- CheckPasswordLoginLimit
  unfoldable pub check_password_login_limit :
      LoginSecurityManager → DB → ℕ → Option (DB → ℕ → E ⊎ ℤ) → LoginError E ⊎ Bool
  check_password_login_limit m db user_id none = inr false
  check_password_login_limit m db user_id (some check_func) =
      if nat_beq user_id 0 then inr false else judge_limit m (check_func db user_id)

  -- DetectSuspiciousLogin; its currentIP and currentLocation only reach the log.
  unfoldable pub detect_suspicious_login :
      DB → ℕ → Str → Option (DB → ℕ → ℕ → E ⊎ List LoginLocation) → LoginError E ⊎ Bool
  detect_suspicious_login db user_id current_country none = inr false
  detect_suspicious_login db user_id current_country (some get_locations_func) =
      if nat_beq user_id 0
      then inr false
      else judge_locations current_country (get_locations_func db user_id 5)

module _ {C F O : Type 0} (ops : CacheOps C (Value F O)) where
  -- The count under a key, and the cache after the Get.
  abbrev pub read_count : Time → Str → C → ℤ × C
  read_count now key c = (number_in (ops.get now key c).0, (ops.get now key c).1)

  abbrev pub decide_rate : Time → LoginSecurityManager → Str → ℤ × C → Bool × C
  decide_rate now m key (count, c) =
      if leb_ℤ m.ip_rate_limit_per_minute count
      then (false, c)
      else (true, ops.set now key (int (inc64 count)) (pos minute) c)

  abbrev pub with_some : Bool × C → Bool × Option C
  with_some (b, c) = (b, some c)

  -- CheckIPRateLimit: true stands for the error nil, false for the one error that it has.
  unfoldable pub check_ip_rate_limit :
      LoginSecurityManager → Time → Str → Option C → Bool × Option C
  check_ip_rate_limit m now ip none = (true, none)
  check_ip_rate_limit m now ip (some c) =
      let key = codes "login:ip:" ++ ip in with_some (decide_rate now m key (read_count now key c))

  -- RecordFailedLogin increments the count in the cache, or from 0 where there is none.
  abbrev pub read_failed : Time → Str → Option C → ℤ × Option C
  read_failed now key none = (pos 0, none)
  read_failed now key (some c) = (number_in (ops.get now key c).0, some (ops.get now key c).1)

  abbrev pub write_failed : Time → Str → ℤ → Option C → Option C
  write_failed now key n none = none
  write_failed now key n (some c) = some (ops.set now key (int n) (pos hour) c)

  module _ {DB : Type 0} where
    -- The call of recordFunc, whose error is only logged.
    abbrev pub lock_account :
        LoginSecurityManager → Str → ℕ → Str → Option (DB → Str → ℕ → Str → ℤ → DB) → ℤ → DB → DB
    lock_account m email user_id ip none n db = db
    lock_account m email user_id ip (some record_func) n db =
        if leb_ℤ m.max_failed_attempts n then record_func db email user_id ip n else db

    -- RecordFailedLogin
    unfoldable pub record_failed_login :
        LoginSecurityManager
        → Time
        → Str
        → ℕ
        → Str
        → Option (DB → Str → ℕ → Str → ℤ → DB)
        → Option C × DB
        → Option C × DB
    record_failed_login m now email user_id ip record_func (cache, db) =
        let key = codes "login:failed:" ++ email in
        let n = inc64 (read_failed now key cache).0 in
        (
          write_failed now key n (read_failed now key cache).1,
          lock_account m email user_id ip record_func n db,
        )

  -- ClearFailedLoginCount
  unfoldable pub clear_failed_login_count : Str → Option C → Option C
  clear_failed_login_count email none = none
  clear_failed_login_count email (some c) = some (ops.delete (codes "login:failed:" ++ email) c)
