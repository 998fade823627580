-- ===== src/UserAgent.antt =====
-- internal/useragent/useragent.go: the operating system and the browser family of a User-Agent.
use knives.Prelude.{
  Text, String, codes, text_eq, trim_space, contains, Bool, ◌||◌, if◌then◌else◌, [],
}

-- The systems that mileusna/useragent tells apart, and any other value of its `OS`.
pub data ParsedOs : Type 0 where
  windows windows_phone mac_os ios android chrome_os free_bsd blackberry harmony linux : ParsedOs
  unlisted : ParsedOs

pub record ParsedAgent : Type 0 where
  pub os : ParsedOs
  pub name : String

abbrev pub has : Text → String → Bool
has raw token = contains raw (codes token)

unfoldable pub categorize_linux_distro : Text → String
categorize_linux_distro raw =
    if has raw "Ubuntu"
    then "Ubuntu"
    else if has raw "Debian"
    then "Debian"
    else if has raw "Fedora"
    then "Fedora"
    else if has raw "Arch Linux" || has raw "; Arch"
    then "Arch Linux"
    else "Linux"

-- The second `switch`: tokens of systems that the parser does not classify.
unfoldable pub categorize_by_token : Text → String
categorize_by_token raw =
    if has raw "Silk"
    then "Fire OS"
    else if has raw "KAIOS"
    then "KaiOS"
    else if has raw "Apple TV" || has raw "tvOS"
    then "tvOS"
    else if has raw "Apple Watch" || has raw "watchOS"
    then "watchOS"
    else if has raw "FreeBSD"
    then "FreeBSD"
    else if has raw "OpenBSD"
    then "OpenBSD"
    else if has raw "NetBSD"
    then "NetBSD"
    else if has raw "SunOS"
    then "Solaris"
    else ""

unfoldable pub categorize_os : ParsedOs → Text → String
categorize_os ParsedOs.windows raw = "Windows"
categorize_os ParsedOs.windows_phone raw = "Windows Phone"
categorize_os ParsedOs.mac_os raw = if has raw "iPad" then "iPadOS" else "macOS"
categorize_os ParsedOs.ios raw = if has raw "iPad" then "iPadOS" else "iOS"
categorize_os ParsedOs.android raw = "Android"
categorize_os ParsedOs.chrome_os raw = "Chrome OS"
categorize_os ParsedOs.free_bsd raw = "FreeBSD"
categorize_os ParsedOs.blackberry raw = "BlackBerry OS"
categorize_os ParsedOs.harmony raw = "HarmonyOS"
categorize_os ParsedOs.linux raw = categorize_linux_distro raw
categorize_os ParsedOs.unlisted raw = categorize_by_token raw

pub record Categories : Type 0 where
  pub os : String
  pub browser : String

-- `parse_agent` is mileusna/useragent's Parse.
unfoldable pub categorize : (Text → ParsedAgent) → Text → Categories
categorize parse_agent raw =
    let ua = parse_agent raw in
    if text_eq (trim_space raw) []
    then record { os = ""; browser = "" }
    else record { os = categorize_os ua.os raw; browser = ua.name }
