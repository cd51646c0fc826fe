-- ===== src/Log/Examples.antt =====
-- A pattern of the server's default one, and one whose brace is not closed.
use sylar_leo.Base.{ℕ, ◌≡◌, refl, Bool, true, false, some, List, [], ◌∷◌}
use sylar_leo.Base.Text.{Text, codes, decimal}
use sylar_leo.Log.{info, Piece, plain, item, parse, parse_pattern}
use sylar_leo.Log.Format.{LogEvent, format, pieces_text, format-print_pattern}
use sylar_leo.Log.Pattern.{parse_pattern_total}
use sylar_leo.Log.Pattern.Printing.{
  print_pattern, no_letter, letter, other_char, empty, Printable, nothing, an_item, text_item,
  parse_pattern-print_pattern,
}

-- The marker of the error comes before the text that stands in front of it.
unclosed_test :
    parse_pattern (codes "a%d{b")
    ≡ some (plain (codes "<<pattern_error>>") ∷ plain (codes "ad{b") ∷ [], true)
unfolding parse_pattern parse
unclosed_test = refl

parse_pattern_total_example : (r : List Piece × Bool) × (parse_pattern (codes "a%d{b") ≡ some r)
parse_pattern_total_example = parse_pattern_total (codes "a%d{b")

abbrev pieces : List Piece
pieces = item (codes "d") (codes "%H") ∷ plain (codes " 100%") ∷ item (codes "m") [] ∷ []

print_pattern_test : print_pattern pieces ≡ codes "%d{%H} 100%%%m{}"
unfolding print_pattern
print_pattern_test = refl

pieces-Printable : Printable pieces
pieces-Printable =
    an_item (letter refl no_letter) (other_char refl (other_char refl empty))
      (text_item b' ' (codes "100%") (an_item (letter refl no_letter) empty nothing))

parse_pattern-print_pattern_example : parse_pattern (print_pattern pieces) ≡ some (pieces, false)
parse_pattern-print_pattern_example = parse_pattern-print_pattern pieces pieces-Printable

abbrev event : LogEvent
event = record {
  file = codes "a.cpp";
  line = 3;
  elapse = 0;
  thread_id = 1;
  fiber_id = 0;
  time = 12;
  thread_name = codes "main";
  content = codes "hi";
  logger_name = codes "root";
  level = info;
}

abbrev hour : Text → ℕ → Text
hour fmt time = decimal time

format-print_pattern_example :
    format hour (print_pattern pieces) info event ≡ some (pieces_text hour info event pieces)
format-print_pattern_example = format-print_pattern hour pieces info event pieces-Printable
