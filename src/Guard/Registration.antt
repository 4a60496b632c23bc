-- ===== src/Guard/Registration.antt =====
-- pkg/utils/security/registration_guard.go: RegistrationGuard. Parameters: `lower` for
-- strings.ToLower, `matches_email` for the regular expression of e-mail addresses, `Ip` and `Net`
-- with their functions for package net. Log lines are left out.
use ling_framework.Base.{
  ℕ, Bool, true, false, ◌&&◌, ◌||◌, not, Option, none, some, List, [], ◌∷◌, ◌++◌, Str,
  str_comparable, number_comparable, codes, length, member, map, leb, nat_beq, if◌then◌else◌, take,
  ◌⊎◌, inl, inr,
}
use ling_framework.Base.Int.{ℤ, pos, ltb_ℤ}
use ling_framework.Base.Time.{Duration}
use ling_framework.Guard.{hour}

pub record RegistrationGuard (Net : Type 0) : Type 0 where
  pub max_registrations_per_ip : ℤ
  pub ip_rate_limit_window : Duration
  pub max_failed_attempts_per_ip : ℤ
  pub failed_attempt_window : Duration
  pub email_domain_blacklist : List Str
  pub disposable_email_domains : List Str
  pub min_password_length : ℤ
  pub require_uppercase : Bool
  pub require_lowercase : Bool
  pub require_number : Bool
  pub require_special_char : Bool
  pub ip_blacklist : List Net

abbrev pub get_default_disposable_email_domains : List Str
get_default_disposable_email_domains =
    codes "10minutemail.com"
    ∷ codes "guerrillamail.com"
    ∷ codes "mailinator.com"
    ∷ codes "tempmail.com"
    ∷ codes "throwaway.email"
    ∷ codes "yopmail.com"
    ∷ codes "temp-mail.org"
    ∷ codes "getnada.com"
    ∷ codes "maildrop.cc"
    ∷ codes "mohmal.com"
    ∷ codes "fakeinbox.com"
    ∷ codes "trashmail.com"
    ∷ codes "meltmail.com"
    ∷ codes "mintemail.com"
    ∷ codes "sharklasers.com"
    ∷ codes "spamgourmet.com"
    ∷ codes "throwawaymail.com"
    ∷ codes "tmpmail.org"
    ∷ codes "getairmail.com"
    ∷ codes "mytemp.email"
    ∷ []

-- NewRegistrationGuard; initIPBlacklist adds nothing, its list is empty.
abbrev pub new_registration_guard : {Net : Type 0} → RegistrationGuard Net
new_registration_guard = record {
  max_registrations_per_ip = pos 3;
  ip_rate_limit_window = pos hour;
  max_failed_attempts_per_ip = pos 5;
  failed_attempt_window = pos hour;
  email_domain_blacklist = [];
  disposable_email_domains = get_default_disposable_email_domains;
  min_password_length = pos 8;
  require_uppercase = false;
  require_lowercase = true;
  require_number = false;
  require_special_char = false;
  ip_blacklist = [];
}

pub data RegistrationError : Type 0 where
  invalid_ip ip_blocked too_many_failed rate_limit_exceeded invalid_email_format : RegistrationError
  domain_not_allowed disposable_not_allowed no_uppercase no_lowercase : RegistrationError
  no_number no_special_char invalid_cidr : RegistrationError
  too_short : ℤ → RegistrationError

-- strings.Split at one byte: the parts before and after its places.
abbrev pub add_byte : ℕ → List Str → List Str
add_byte c [] = (c ∷ []) ∷ []
add_byte c (part ∷ parts) = (c ∷ part) ∷ parts

unfoldable pub split_at : ℕ → Str → List Str
split_at sep [] = [] ∷ []
split_at sep (c ∷ s) =
    let parts = split_at sep s in if nat_beq c sep then [] ∷ parts else add_byte c parts

-- A byte of a range, and the search of a regular expression [a-z] or of a set of bytes.
abbrev pub in_range : ℕ → ℕ → ℕ → Bool
in_range lo hi c = leb lo c && leb c hi

abbrev pub any_byte : (ℕ → Bool) → Str → Bool
any_byte p [] = false
any_byte p (c ∷ s) = p c || any_byte p s

-- The bytes of the class of special characters, the quote (34) among them.
abbrev pub special : ℕ → Bool
special c = member c (34 ∷ codes "!@#$%^&*()_+-=[]{};':\\|,.<>/?")

abbrev pub demand : Bool → Bool → RegistrationError → Option RegistrationError
demand required has err = if required && not has then some err else none

abbrev pub or_else : Option RegistrationError → Option RegistrationError → Option RegistrationError
or_else (some err) next = some err
or_else none next = next

-- maskEmail: the parts around the one @ of an address, the name cut to two bytes.
abbrev pub mask_name : Str → Str
mask_name name = if leb (length name) 2 then codes "***" else take 2 name ++ codes "***"

abbrev pub mask_parts : List Str → Str
mask_parts (name ∷ domain ∷ []) = mask_name name ++ codes "@" ++ domain
mask_parts (name ∷ domain ∷ more ∷ parts) = codes "***@***"
mask_parts (name ∷ []) = codes "***@***"
mask_parts [] = codes "***@***"

unfoldable pub mask_email : Str → Str
mask_email email = mask_parts (split_at 64 email)

module _ {Net : Type 0} where
  -- AddIPToBlacklist; `parse_cidr` stands for net.ParseCIDR.
  abbrev pub add_net :
      RegistrationGuard Net → Option Net → RegistrationError ⊎ RegistrationGuard Net
  add_net rg none = inl invalid_cidr
  add_net rg (some net) = inr (record rg { ip_blacklist = rg.ip_blacklist ++ net ∷ [] })

  unfoldable pub add_ip_to_blacklist :
      (Str → Option Net) → Str → RegistrationGuard Net → RegistrationError ⊎ RegistrationGuard Net
  add_ip_to_blacklist parse_cidr cidr rg = add_net rg (parse_cidr cidr)

  -- ValidatePassword: the first test that fails.
  unfoldable pub validate_password : RegistrationGuard Net → Str → Option RegistrationError
  validate_password rg password =
      if ltb_ℤ (pos (length password)) rg.min_password_length
      then some (too_short rg.min_password_length)
      else or_else (demand rg.require_uppercase (any_byte (in_range 65 90) password) no_uppercase) (
          or_else (demand rg.require_lowercase (any_byte (in_range 97 122) password) no_lowercase) (
            or_else (demand rg.require_number (any_byte (in_range 48 57) password) no_number)
              (demand rg.require_special_char (any_byte special password) no_special_char)))

  module _ (lower : Str → Str) (matches_email : Str → Bool) where
    -- The two loops over the domains.
    abbrev pub judge_domain : RegistrationGuard Net → Str → Option RegistrationError
    judge_domain rg domain =
        if member domain (map lower rg.email_domain_blacklist)
        then some domain_not_allowed
        else (if member domain rg.disposable_email_domains
            then some disposable_not_allowed
            else none)

    abbrev pub judge_parts : RegistrationGuard Net → List Str → Option RegistrationError
    judge_parts rg (name ∷ domain ∷ []) = judge_domain rg (lower domain)
    judge_parts rg (name ∷ domain ∷ more ∷ parts) = some invalid_email_format
    judge_parts rg (name ∷ []) = some invalid_email_format
    judge_parts rg [] = some invalid_email_format

    -- ValidateEmail
    unfoldable pub validate_email : RegistrationGuard Net → Str → Option RegistrationError
    validate_email rg email =
        if matches_email email
        then judge_parts rg (split_at 64 email)
        else some invalid_email_format

  module _ {Ip : Type 0} (parse_ip : Str → Option Ip) (contains_ip : Net → Ip → Bool) where
    abbrev pub any_contains : List Net → Ip → Bool
    any_contains [] ip = false
    any_contains (net ∷ nets) ip = contains_ip net ip || any_contains nets ip

    abbrev pub judge_ip : RegistrationGuard Net → Option Ip → Option RegistrationError
    judge_ip rg none = some invalid_ip
    judge_ip rg (some ip) = if any_contains rg.ip_blacklist ip then some ip_blocked else none

    -- ValidateIP
    unfoldable pub validate_ip : RegistrationGuard Net → Str → Option RegistrationError
    validate_ip rg ip = judge_ip rg (parse_ip ip)
