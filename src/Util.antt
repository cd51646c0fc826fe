-- ===== src/Util.antt =====
-- sylar/util.cpp: the encoding of URLs, trimming, and the case of letters. A `std::string` is the list of
-- its bytes, and `isxdigit`, `toupper` and `tolower` are those of the C locale.
pub mod Url
pub mod Trim
mod Examples
use sylar_leo.Base.{
  ℕ, ◌+◌, ◌-◌, ◌*◌, ◌/◌, ◌%◌, Bool, true, false, ◌&&◌, ◌||◌, not, List, [], ◌∷◌, ◌++◌, map, leb,
  ltb, ◌==◌, if◌then◌else◌,
}
use sylar_leo.Base.Text.{Text}
use mathlib.Core.List.{reverse}

abbrev pub is_upper : ℕ → Bool
is_upper c = leb b'A' c && leb c b'Z'

abbrev pub is_lower : ℕ → Bool
is_lower c = leb b'a' c && leb c b'z'

abbrev pub is_digit : ℕ → Bool
is_digit c = leb b'0' c && leb c b'9'

abbrev pub upper : ℕ → ℕ
upper c = if is_lower c then c - 32 else c

abbrev pub lower : ℕ → ℕ
lower c = if is_upper c then c + 32 else c

pub to_upper : Text → Text
to_upper s = map upper s

unfoldable pub to_lower : Text → Text
to_lower s = map lower s

-- The ones of the table `uri_chars`: `-`, `.`, the digits, `=`, the letters, `_` and `~`.
abbrev pub char_is_unreserved : ℕ → Bool
char_is_unreserved c =
    (c == b'-')
    || (c == b'.')
    || is_digit c
    || (c == b'=')
    || is_upper c
    || is_lower c
    || (c == b'_')
    || (c == b'~')

abbrev pub hexdigit : ℕ → ℕ
hexdigit n = if ltb n 10 then 48 + n else 55 + n

abbrev pub is_xdigit : ℕ → Bool
is_xdigit c = is_digit c || (leb b'A' c && leb c b'F') || (leb b'a' c && leb c b'f')

-- The table `xdigit_chars`.
abbrev pub xdigit_value : ℕ → ℕ
xdigit_value c =
    if is_digit c
    then c - 48
    else if leb b'A' c && leb c b'F'
    then c - 55
    else if leb b'a' c && leb c b'f'
    then c - 87
    else 0

-- `UrlEncode`. The source copies the text only from the first byte on that it replaces.
pub url_encode : Bool → Text → Text
url_encode space_as_plus [] = []
url_encode space_as_plus (c ∷ s) =
    (if char_is_unreserved c
      then c ∷ []
      else if (c == b' ') && space_as_plus
      then b'+' ∷ []
      else b'%' ∷ hexdigit (c / 16) ∷ hexdigit (c % 16) ∷ [])
    ++ url_encode space_as_plus s

-- `UrlDecode`: two hexadecimal digits behind `%` are taken together.
pub url_decode : Bool → Text → Text
url_decode space_as_plus [] = []
url_decode space_as_plus (c ∷ []) = (if (c == b'+') && space_as_plus then b' ' else c) ∷ []
url_decode space_as_plus (c ∷ h ∷ []) =
    (if (c == b'+') && space_as_plus then b' ' else c) ∷ url_decode space_as_plus (h ∷ [])
url_decode space_as_plus (c ∷ h ∷ l ∷ s) =
    let plain =
      (if (c == b'+') && space_as_plus then b' ' else c) ∷ url_decode space_as_plus (h ∷ l ∷ s) in
    let joined = (xdigit_value h * 16 + xdigit_value l) ∷ url_decode space_as_plus s in
    if (c == b'%') && is_xdigit h && is_xdigit l then joined else plain

abbrev pub contains : Text → ℕ → Bool
contains [] c = false
contains (d ∷ ds) c = (d == c) || contains ds c

-- The text from the first byte on that is not a delimiter; nothing where each is one.
pub trim_left : Text → Text → Text
trim_left delimit [] = []
trim_left delimit (c ∷ s) =
    let rest = trim_left delimit s in if contains delimit c then rest else c ∷ s

-- The text up to and with the last byte that is not a delimiter.
pub up_to_last : Text → Text → Text
up_to_last delimit [] = []
up_to_last delimit (c ∷ s) = elim (up_to_last delimit s) [
  | [] ↦ if contains delimit c then [] else c ∷ []
  | d ∷ rest ↦ c ∷ d ∷ rest
]

pub trim : Text → Text → Text
unfolding trim_left up_to_last
trim delimit s = up_to_last delimit (trim_left delimit s)

-- All but the last byte.
pub without_last : Text → Text
without_last [] = []
without_last (c ∷ []) = []
without_last (c ∷ d ∷ s) = c ∷ without_last (d ∷ s)

-- `TrimRight` returns `str.substr(0, end)`, without the byte at `end`.
pub trim_right : Text → Text → Text
unfolding up_to_last without_last
trim_right delimit s = without_last (up_to_last delimit s)
