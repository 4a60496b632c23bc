-- ===== src/Guard/UserAgent.antt =====
-- ParseUserAgent and GetDeviceID of pkg/utils/security/login_security.go. `lower` stands for
-- strings.ToLower; the hash of GetDeviceID is not modelled.
use ling_framework.Base.{
  Bool, true, false, ◌&&◌, ◌||◌, not, [], ◌∷◌, Str, number_comparable, codes, String, ◌==◌,
  if◌then◌else◌,
}

pub data DeviceType : Type 0 where
  mobile tablet desktop : DeviceType

pub data Os : Type 0 where
  windows mac_os linux android ios unknown_os : Os

pub data Browser : Type 0 where
  chrome firefox safari edge opera unknown_browser : Browser

-- Whether a text begins with another, and strings.Contains.
abbrev pub starts_with : Str → Str → Bool
starts_with [] s = true
starts_with (c ∷ cs) [] = false
starts_with (c ∷ cs) (d ∷ s) = c == d && starts_with cs s

unfoldable pub has_text : Str → Str → Bool
has_text [] t = starts_with t []
has_text (c ∷ s) t = starts_with t (c ∷ s) || has_text s t

abbrev pub has : Str → String → Bool
has ua text = has_text ua (codes text)

abbrev pub device_type_of : Str → DeviceType
device_type_of ua =
    if has ua "mobile" || has ua "android" || has ua "iphone"
    then mobile
    else (if has ua "tablet" || has ua "ipad" then tablet else desktop)

abbrev pub os_of : Str → Os
os_of ua =
    if has ua "windows"
    then windows
    else (if has ua "mac" || has ua "darwin"
        then mac_os
        else (if has ua "linux"
            then linux
            else (if has ua "android"
                then android
                else (if has ua "ios" || has ua "iphone" || has ua "ipad"
                    then ios
                    else unknown_os))))

abbrev pub browser_of : Str → Browser
browser_of ua =
    if has ua "chrome" && not (has ua "edg")
    then chrome
    else (if has ua "firefox"
        then firefox
        else (if has ua "safari" && not (has ua "chrome")
            then safari
            else (if has ua "edg"
                then edge
                else (if has ua "opera" then opera else unknown_browser))))

-- ParseUserAgent
unfoldable pub parse_user_agent : (Str → Str) → Str → DeviceType × Os × Browser
parse_user_agent lower user_agent =
    let ua = lower user_agent in (device_type_of ua, os_of ua, browser_of ua)
