-- ===== src/Log/Format.antt =====
-- sylar/log.cpp: what the items of a LogFormatter write for an event, and a LogFormatter as a whole. Local
-- time as text is a parameter: what `os << buf` writes after `localtime_r` and a `strftime` into the 64 bytes
-- of `buf`, which has no stated contents where the text is longer; `std::endl` writes a line break.
use sylar_leo.Base.{
  ℕ, ◌≡◌, refl, ap, ◌∙◌, Bool, true, false, Option, none, some, List, [], ◌∷◌, ◌++◌, if◌then◌else◌,
  ap₂, Bool-cases, inl, inr,
}
use sylar_leo.Base.Text.{Text, codes, decimal, is_nil, text_eq}
use sylar_leo.Log.{
  Level, level_to_string, FormatItem, message_item, level_item, elapse_item, name_item,
  thread_id_item, new_line_item, date_time_item, file_name_item, line_item, tab_item, fiber_id_item,
  thread_name_item, string_item, Piece, plain, item, format_item, make_items, init,
}
use sylar_leo.Log.Pattern.Printing.{Printable, print_pattern, parse_pattern-print_pattern}

pub record LogEvent : Type 0 where
  pub file : Text
  pub line : ℕ
  pub elapse : ℕ
  pub thread_id : ℕ
  pub fiber_id : ℕ
  pub time : ℕ
  pub thread_name : Text
  pub content : Text
  pub logger_name : Text
  pub level : Level

-- The item that a piece of a pattern is made into.
abbrev made : Option (Text → FormatItem) → (str fmt : Text) → FormatItem
made none str fmt = string_item (codes "<<error_format %" ++ str ++ codes ">>")
made (some c) str fmt = c fmt

abbrev first_item : Piece → FormatItem
first_item (plain s) = string_item s
first_item (item str fmt) = made (format_item str) str fmt

make_items-cons :
    (p : Piece) (pieces : List Piece) (err : Bool)
    → (make_items (p ∷ pieces) err).0 ≡ first_item p ∷ (make_items pieces err).0
unfolding make_items
make_items-cons (plain s) pieces err = refl
make_items-cons (item str fmt) pieces err = go (format_item str)
  where
    go :
        (o : Option (Text → FormatItem))
        → (elim o as (λ _. List FormatItem × Bool) [
          | none ↦ (
            string_item (codes "<<error_format %" ++ str ++ codes ">>") ∷ (make_items pieces err).0,
            true,
          )
          | some c ↦ (c fmt ∷ (make_items pieces err).0, (make_items pieces err).1)
        ]).0
          ≡ made o str fmt ∷ (make_items pieces err).0
    go none = refl
    go (some c) = refl

init-print_pattern :
    (pieces : List Piece)
    → Printable pieces
    → init (print_pattern pieces) ≡ some (make_items pieces false)
unfolding init
init-print_pattern pieces p =
    ap
      (λ r. elim r as (λ _. Option (List FormatItem × Bool)) [
        | none ↦ none
        | some (ps, e) ↦ some (make_items ps e)
      ])
      (parse_pattern-print_pattern pieces p)

-- The text for a key in a list of keys.
abbrev pub text_for : (key : Text) → List (Text × Text) → (otherwise : Text) → Text
text_for key [] otherwise = otherwise
text_for key ((k, t) ∷ more) otherwise = if text_eq key k then t else text_for key more otherwise

-- The classes of items by their keys, and the one for a key.
abbrev item_classes : List (Text × (Text → FormatItem))
item_classes =
    (codes "m", message_item)
    ∷ (codes "p", level_item)
    ∷ (codes "r", elapse_item)
    ∷ (codes "c", name_item)
    ∷ (codes "t", thread_id_item)
    ∷ (codes "n", new_line_item)
    ∷ (codes "d", date_time_item)
    ∷ (codes "f", file_name_item)
    ∷ (codes "l", line_item)
    ∷ (codes "T", tab_item)
    ∷ (codes "F", fiber_id_item)
    ∷ (codes "N", thread_name_item)
    ∷ []

abbrev pick : (key : Text) → List (Text × (Text → FormatItem)) → Option (Text → FormatItem)
pick key [] = none
pick key ((k, c) ∷ more) = if text_eq key k then some c else pick key more

module _ (local_time : (format : Text) → (time : ℕ) → Text) where
  -- `m_format` of a DateTimeFormatItem.
  abbrev pub time_format : Text → Text
  time_format fmt = if is_nil fmt then codes "%Y-%m-%d %H:%M:%S" else fmt

  -- `format` of each class of items.
  unfoldable pub format_one : Level → LogEvent → FormatItem → Text
  format_one level e (message_item fmt) = e.content
  format_one level e (level_item fmt) = level_to_string level
  format_one level e (elapse_item fmt) = decimal e.elapse
  format_one level e (name_item fmt) = e.logger_name
  format_one level e (thread_id_item fmt) = decimal e.thread_id
  format_one level e (new_line_item fmt) = b'\n' ∷ []
  format_one level e (date_time_item fmt) = local_time (time_format fmt) e.time
  format_one level e (file_name_item fmt) = e.file
  format_one level e (line_item fmt) = decimal e.line
  format_one level e (tab_item fmt) = b'\t' ∷ []
  format_one level e (fiber_id_item fmt) = decimal e.fiber_id
  format_one level e (thread_name_item fmt) = e.thread_name
  format_one level e (string_item s) = s

  abbrev pub format_items : Level → LogEvent → List FormatItem → Text
  format_items level e [] = []
  format_items level e (i ∷ items) = format_one level e i ++ format_items level e items

  abbrev pub format_parsed : Level → LogEvent → Option (List FormatItem × Bool) → Option Text
  format_parsed level e none = none
  format_parsed level e (some (items, err)) = some (format_items level e items)

  -- `LogFormatter::format` of the formatter made from a pattern.
  unfoldable pub format : (pattern_text : Text) → Level → LogEvent → Option Text
  unfolding format_one
  format pattern_text level e = format_parsed level e (init pattern_text)

  -- What the keys of a pattern stand for, by the list of them in sylar/log.h.
  abbrev pub documented : Level → LogEvent → (fmt : Text) → List (Text × Text)
  documented level e fmt =
      (codes "m", e.content)
      ∷ (codes "p", level_to_string level)
      ∷ (codes "r", decimal e.elapse)
      ∷ (codes "c", e.logger_name)
      ∷ (codes "t", decimal e.thread_id)
      ∷ (codes "n", codes "\n")
      ∷ (codes "d", local_time (if is_nil fmt then codes "%Y-%m-%d %H:%M:%S" else fmt) e.time)
      ∷ (codes "f", e.file)
      ∷ (codes "l", decimal e.line)
      ∷ (codes "T", codes "\t")
      ∷ (codes "F", decimal e.fiber_id)
      ∷ (codes "N", e.thread_name)
      ∷ []

  -- What a piece of a pattern stands for: the text of its key, or a note that there is none.
  abbrev pub piece_text : Level → LogEvent → Piece → Text
  piece_text level e (plain s) = s
  piece_text level e (item str fmt) =
      text_for str (documented level e fmt) (codes "<<error_format %" ++ str ++ codes ">>")

  abbrev pub pieces_text : Level → LogEvent → List Piece → Text
  pieces_text level e [] = []
  pieces_text level e (p ∷ pieces) = piece_text level e p ++ pieces_text level e pieces

  -- The texts that the items of the keys write.
  abbrev texts :
      Level → LogEvent → (fmt : Text) → List (Text × (Text → FormatItem)) → List (Text × Text)
  texts level e fmt [] = []
  texts level e fmt ((key, c) ∷ more) = (key, format_one level e (c fmt)) ∷ texts level e fmt more

  pick-text_for :
      (level : Level) (e : LogEvent) (str fmt : Text) (cs : List (Text × (Text → FormatItem)))
      → format_one level e (made (pick str cs) str fmt)
        ≡ text_for str (texts level e fmt cs) (codes "<<error_format %" ++ str ++ codes ">>")
  unfolding format_one
  pick-text_for level e str fmt [] = refl
  pick-text_for level e str fmt ((key, c) ∷ more) = elim (Bool-cases (text_eq str key)) [
    | inl here ↦ rw here refl
    | inr there ↦ rw there (pick-text_for level e str fmt more)
  ]

  first_item-piece_text :
      (level : Level) (e : LogEvent) (p : Piece)
      → format_one level e (first_item p) ≡ piece_text level e p
  unfolding format_one format_item
  first_item-piece_text level e (plain s) = refl
  first_item-piece_text level e (item str fmt) = pick-text_for level e str fmt item_classes

  items_text :
      (level : Level) (e : LogEvent) (pieces : List Piece) (err : Bool)
      → format_items level e (make_items pieces err).0 ≡ pieces_text level e pieces
  unfolding make_items
  items_text level e [] err = refl
  items_text level e (p ∷ pieces) err =
      ap (format_items level e) (make_items-cons p pieces err)
      ∙ ap₂ (λ t u. t ++ u) (first_item-piece_text level e p) (items_text level e pieces err)

  -- For a pattern printed from pieces whose keys are letters, whose formats have no closing brace, and
  -- whose plain texts are not empty and not next to each other: the line of an event has for each key,
  -- one after the other, what the list of keys gives for it (the format only changes the date), a note
  -- for a key that is not in the list, and the plain texts as they are.
  pub format-print_pattern :
      (pieces : List Piece) (level : Level) (e : LogEvent)
      → Printable pieces
      → format (print_pattern pieces) level e ≡ some (pieces_text level e pieces)
  unfolding format
  format-print_pattern pieces level e p =
      ap (format_parsed level e) (init-print_pattern pieces p)
      ∙ ap some (items_text level e pieces false)
