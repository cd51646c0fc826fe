-- ===== src/Log.antt =====
-- sylar/log.cpp and log.h: levels, and the pattern of a LogFormatter. Text is a list of bytes.
pub mod Pattern
pub mod Loggers
pub mod Format
mod Examples
use sylar_leo.Base.{
  ℕ, zero, suc, ◌+◌, Bool, true, false, ◌&&◌, ◌||◌, not, Option, none, some, List, [], ◌∷◌, ◌++◌,
  ◌==◌, if◌then◌else◌, length,
}
use sylar_leo.Base.Text.{Text, codes, text_eq, is_nil}
use sylar_leo.Util.{is_upper, is_lower}

pub data Level : Type 0 where
  unknow debug info warn level_error fatal : Level

unfoldable pub level_to_string : Level → Text
level_to_string unknow = codes "UNKNOW"
level_to_string debug = codes "DEBUG"
level_to_string info = codes "INFO"
level_to_string warn = codes "WARN"
level_to_string level_error = codes "ERROR"
level_to_string fatal = codes "FATAL"

unfoldable pub level_from_string : Text → Level
level_from_string str =
    if text_eq str (codes "debug")
    then debug
    else if text_eq str (codes "info")
    then info
    else if text_eq str (codes "warn")
    then warn
    else if text_eq str (codes "error")
    then level_error
    else if text_eq str (codes "fatal")
    then fatal
    else if text_eq str (codes "DEBUG")
    then debug
    else if text_eq str (codes "INFO")
    then info
    else if text_eq str (codes "WARN")
    then warn
    else if text_eq str (codes "ERROR")
    then level_error
    else if text_eq str (codes "FATAL")
    then fatal
    else unknow

-- An entry of `vec` in `LogFormatter::init`: plain text, or the key and the format of an item.
pub data Piece : Type 0 where
  plain : Text → Piece
  item : (str fmt : Text) → Piece

abbrev pub is_alpha : ℕ → Bool
is_alpha c = is_upper c || is_lower c

-- The inner loop in its status 0: the letters and closing braces from the front, and what follows.
pub scan_key : Text → Text × Text
scan_key [] = ([], [])
scan_key (c ∷ s) =
    let (str, rest) = scan_key s in if is_alpha c || c == b'}' then (c ∷ str, rest) else ([], c ∷ s)

-- The inner loop in its status 1: what stands before a closing brace, and what follows it.
pub scan_fmt : Text → Option (Text × Text)
scan_fmt [] = none
scan_fmt (c ∷ s) =
    let more : Option (Text × Text) = elim (scan_fmt s) [
      | none ↦ none
      | some (fmt, rest) ↦ some (c ∷ fmt, rest)
    ] in
    if c == b'}' then some ([], s) else more

-- What the text after a `%` is: an item with the text behind it, or an opening brace with no closing one.
scan_brace : Text → Text → Option (Piece × Text)
unfolding scan_fmt
scan_brace str [] = some (item str [], [])
scan_brace str (c ∷ s) =
    let inside : Option (Piece × Text) = elim (scan_fmt s) [
      | none ↦ none
      | some (fmt, rest) ↦ some (item str fmt, rest)
    ] in
    if c == b'{' then inside else some (item str [], c ∷ s)

pub scan : Text → Option (Piece × Text)
unfolding scan_key scan_brace
scan s = let (str, rest) = scan_key s in scan_brace str rest

-- One turn of the loop over the pattern.
pub data Turn : Type 0 where
  one_char : ℕ → Text → Turn
  one_item : Piece → Text → Turn
  -- The turn goes on behind the `%`.
  unclosed : Text → Turn

turn_item : Text → Turn
unfolding scan
turn_item s = elim (scan s) [ none ↦ unclosed s | some (p, rest) ↦ one_item p rest ]

turn_percent : Text → Turn
unfolding turn_item
turn_percent [] = turn_item []
turn_percent (c ∷ s) = if c == b'%' then one_char b'%' s else turn_item (c ∷ s)

pub turn : ℕ → Text → Turn
unfolding turn_percent
turn c s = if c == b'%' then turn_percent s else one_char c s

-- The plain text that is stored before an item, and at the end.
abbrev pub flush : Text → List Piece → List Piece
flush [] pieces = pieces
flush (c ∷ nstr) pieces = plain (c ∷ nstr) ∷ pieces

abbrev pub Parsed : Type 0
Parsed = Option (List Piece × Bool)

abbrev pub then_item : Text → Piece → Parsed → Parsed
then_item nstr p none = none
then_item nstr p (some (later, e)) = some (flush nstr (p ∷ later), e)

abbrev pub then_error : Parsed → Parsed
then_error none = none
then_error (some (later, e)) = some (plain (codes "<<pattern_error>>") ∷ later, true)

-- Parts 2 to 5 of `init`, on fuel: `vec` and whether `m_error` is set.
pub parse : ℕ → (nstr : Text) → Text → Parsed
unfolding turn
parse fuel nstr [] = some (flush nstr [], false)
parse zero nstr (c ∷ s) = none
parse (suc fuel) nstr (c ∷ s) = elim (turn c s) [
  | one_char d rest ↦ parse fuel (nstr ++ d ∷ []) rest
  | one_item p rest ↦ then_item nstr p (parse fuel [] rest)
  | unclosed rest ↦ then_error (parse fuel nstr rest)
]

pub parse_pattern : Text → Parsed
unfolding parse
parse_pattern pattern_text = parse (length pattern_text) [] pattern_text

-- The classes of format items, in the order of `s_format_items`.
pub data FormatItem : Type 0 where
  message_item level_item elapse_item name_item thread_id_item new_line_item :
      (fmt : Text) → FormatItem
  date_time_item file_name_item line_item tab_item fiber_id_item thread_name_item :
      (fmt : Text) → FormatItem
  string_item : Text → FormatItem

pub format_item : Text → Option (Text → FormatItem)
format_item str =
    if text_eq str (codes "m")
    then some message_item
    else if text_eq str (codes "p")
    then some level_item
    else if text_eq str (codes "r")
    then some elapse_item
    else if text_eq str (codes "c")
    then some name_item
    else if text_eq str (codes "t")
    then some thread_id_item
    else if text_eq str (codes "n")
    then some new_line_item
    else if text_eq str (codes "d")
    then some date_time_item
    else if text_eq str (codes "f")
    then some file_name_item
    else if text_eq str (codes "l")
    then some line_item
    else if text_eq str (codes "T")
    then some tab_item
    else if text_eq str (codes "F")
    then some fiber_id_item
    else if text_eq str (codes "N")
    then some thread_name_item
    else none

-- Part 7 of `init`: `m_items`, and `m_error`.
pub make_items : List Piece → Bool → List FormatItem × Bool
unfolding format_item
make_items [] e = ([], e)
make_items (plain s ∷ pieces) e =
    let (items, e') = make_items pieces e in (string_item s ∷ items, e')
make_items (item str fmt ∷ pieces) e =
    let (items, e') = make_items pieces e in
    elim (format_item str) [
      | none ↦ (string_item (codes "<<error_format %" ++ str ++ codes ">>") ∷ items, true)
      | some c ↦ (c fmt ∷ items, e')
    ]

pub init : Text → Option (List FormatItem × Bool)
unfolding parse_pattern make_items
init pattern_text = elim (parse_pattern pattern_text) [
  | none ↦ none
  | some (pieces, e) ↦ some (make_items pieces e)
]
