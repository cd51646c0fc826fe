-- ===== src/Log/Pattern/Printing.antt =====
-- The pattern that stands for a list of pieces, and that it is read as those pieces.
use sylar_leo.Base.{
  ℕ, zero, suc, ◌≤◌, ◌≡◌, refl, sym, ap, ◌∙◌, true, false, ◌||◌, some, List, [], ◌∷◌, ◌++◌,
  append_assoc, append-nil, arith, ◌==◌, if◌then◌else◌, length, length-append, Bool-cases, inl, inr,
}
use sylar_leo.Base.Text.{Text}
use sylar_leo.Log.{
  Piece, plain, item, one_char, one_item, is_alpha, scan_key, scan_fmt, scan_brace, scan, turn_item,
  turn_percent, turn, flush, then_item, parse, parse_pattern,
}
use sylar_leo.Log.Pattern.{parse-enough}

-- Plain text as a pattern: a percent sign is written twice.
pub escape : Text → Text
escape [] = []
escape (c ∷ s) = if c == b'%' then b'%' ∷ b'%' ∷ escape s else c ∷ escape s

unfoldable pub print_pattern : List Piece → Text
unfolding escape
print_pattern [] = []
print_pattern (plain s ∷ pieces) = escape s ++ print_pattern pieces
print_pattern (item str fmt ∷ pieces) = b'%' ∷ (str ++ b'{' ∷ (fmt ++ b'}' ∷ print_pattern pieces))

pub data Letters : Text → Type 0 where
  no_letter : Letters []
  letter : {c : ℕ} {s : Text} → is_alpha c ≡ true → Letters s → Letters (c ∷ s)

pub data NoClosing : Text → Type 0 where
  empty : NoClosing []
  other_char : {c : ℕ} {s : Text} → (c == b'}') ≡ false → NoClosing s → NoClosing (c ∷ s)

-- Keys are letters, formats have no closing brace, plain text is not empty and not cut in two.
pub data Printable : List Piece → Type 0 where
  nothing : Printable []
  an_item :
      {str fmt : Text} {pieces : List Piece}
      → Letters str
      → NoClosing fmt
      → Printable pieces
      → Printable (item str fmt ∷ pieces)
  last_text : (c : ℕ) (s : Text) → Printable (plain (c ∷ s) ∷ [])
  text_item :
      (c : ℕ) (s : Text) {str fmt : Text} {pieces : List Piece}
      → Printable (item str fmt ∷ pieces)
      → Printable (plain (c ∷ s) ∷ item str fmt ∷ pieces)

scan_key-Letters :
    (str rest : Text) → Letters str → scan_key (str ++ b'{' ∷ rest) ≡ (str, b'{' ∷ rest)
unfolding scan_key
scan_key-Letters [] rest no_letter = refl
scan_key-Letters (c ∷ str) rest (letter h others) =
    let inside : (is_alpha c || c == b'}') ≡ true = rw h refl in
    rw (inside, scan_key-Letters str rest others) refl

scan_fmt-closing :
    (fmt rest : Text) → NoClosing fmt → scan_fmt (fmt ++ b'}' ∷ rest) ≡ some (fmt, rest)
unfolding scan_fmt
scan_fmt-closing [] rest empty = refl
scan_fmt-closing (c ∷ fmt) rest (other_char h others) =
    rw (h, scan_fmt-closing fmt rest others) refl

scan-item :
    (str fmt rest : Text)
    → Letters str
    → NoClosing fmt
    → scan (str ++ b'{' ∷ (fmt ++ b'}' ∷ rest)) ≡ some (item str fmt, rest)
unfolding scan scan_brace
scan-item str fmt rest l n =
    rw (scan_key-Letters str (fmt ++ b'}' ∷ rest) l, scan_fmt-closing fmt rest n) refl

turn-item :
    (str fmt rest : Text)
    → Letters str
    → NoClosing fmt
    → turn b'%' (str ++ b'{' ∷ (fmt ++ b'}' ∷ rest)) ≡ one_item (item str fmt) rest
unfolding turn turn_percent turn_item
turn-item [] fmt rest no_letter n =
    rw (turn, turn_percent, turn_item, scan-item [] fmt rest no_letter n) refl
turn-item (c ∷ str) fmt rest (letter h others) n =
    let not_percent : (c == b'%') ≡ false = ground (arith, h) in
    rw
      (turn, turn_percent, not_percent, turn_item, scan-item (c ∷ str) fmt rest (letter h others) n)
      refl

turn-plain : (c : ℕ) (s : Text) → (c == b'%') ≡ false → turn c s ≡ one_char c s
unfolding turn
turn-plain c s other = rw other refl

parse_item :
    (fuel : ℕ) (nstr str fmt rest : Text)
    → Letters str
    → NoClosing fmt
    → parse (suc fuel) nstr (b'%' ∷ (str ++ b'{' ∷ (fmt ++ b'}' ∷ rest)))
      ≡ then_item nstr (item str fmt) (parse fuel [] rest)
unfolding parse
parse_item fuel nstr str fmt rest l n = rw (parse, turn-item str fmt rest l n) refl

parse_plain :
    (fuel : ℕ) (nstr : Text) (c : ℕ) (s : Text)
    → (c == b'%') ≡ false
    → parse (suc fuel) nstr (c ∷ s) ≡ parse fuel (nstr ++ c ∷ []) s
unfolding parse
parse_plain fuel nstr c s other = rw (parse, turn-plain c s other) refl

parse_percent :
    (fuel : ℕ) (nstr s : Text)
    → parse (suc fuel) nstr (b'%' ∷ b'%' ∷ s) ≡ parse fuel (nstr ++ b'%' ∷ []) s
unfolding parse turn turn_percent
parse_percent fuel nstr s = refl

escape-cons :
    (c : ℕ) (s rest : Text) → suc (length (escape s ++ rest)) ≤ length (escape (c ∷ s) ++ rest)
unfolding escape
escape-cons c s rest = elim (Bool-cases (c == b'%')) [
  | inl h ↦ rw h (omega arith)
  | inr h ↦ rw h (omega arith)
]

-- Reading escaped text adds the text to what is kept.
parse-escape :
    (s nstr rest : Text) (f g : ℕ)
    → length (escape s ++ rest) ≤ f
    → length rest ≤ g
    → parse f nstr (escape s ++ rest) ≡ parse g (nstr ++ s) rest
unfolding escape
parse-escape [] nstr rest f g hf hg =
    (parse-enough f g nstr rest hf hg).1 ∙ ap (λ t. parse g t rest) (sym (append-nil nstr))
parse-escape (c ∷ s) nstr rest zero g hf hg =
    let longer = escape-cons c s rest in absurd (omega (arith, hf, longer))
parse-escape (c ∷ s) nstr rest (suc f) g hf hg =
    let longer = escape-cons c s rest in
    let later = parse-escape s (nstr ++ c ∷ []) rest f g (omega (arith, hf, longer)) hg in
    let joined = ap (λ t. parse g t rest) (append_assoc nstr (c ∷ []) s) in
    elim (Bool-cases (c == b'%')) [
      | inl percent ↦
          let same : c ≡ b'%' = ground (arith, percent) in
          rw percent (
            parse_percent f nstr (escape s ++ rest)
            ∙ ap (λ x. parse f (nstr ++ x ∷ []) (escape s ++ rest)) (sym same)
            ∙ later
            ∙ joined)
      | inr other ↦ rw other (parse_plain f nstr c (escape s ++ rest) other ∙ later ∙ joined)
    ]

-- Reading a pattern that starts with an item, after some plain text.
parse-print_item :
    (f : ℕ) (nstr str fmt : Text) (pieces : List Piece)
    → Letters str
    → NoClosing fmt
    → ((g : ℕ)
        → length (print_pattern pieces) ≤ g
        → parse g [] (print_pattern pieces) ≡ some (pieces, false))
    → length (print_pattern (item str fmt ∷ pieces)) ≤ f
    → parse f nstr (print_pattern (item str fmt ∷ pieces))
      ≡ some (flush nstr (item str fmt ∷ pieces), false)
unfolding print_pattern
parse-print_item zero nstr str fmt pieces l n later hf = absurd (omega (arith, hf))
parse-print_item (suc f) nstr str fmt pieces l n later hf =
    let whole = length-append str (b'{' ∷ (fmt ++ b'}' ∷ print_pattern pieces)) in
    let inner = length-append fmt (b'}' ∷ print_pattern pieces) in
    parse_item f nstr str fmt (print_pattern pieces) l n
    ∙ ap (then_item nstr (item str fmt)) (later f (omega (arith, hf, whole, inner)))

parse-print_pattern :
    (f : ℕ) (pieces : List Piece)
    → Printable pieces
    → length (print_pattern pieces) ≤ f
    → parse f [] (print_pattern pieces) ≡ some (pieces, false)
unfolding print_pattern parse
parse-print_pattern f [] nothing hf = refl
parse-print_pattern f (item str fmt ∷ pieces) (an_item l n p) hf =
    parse-print_item f [] str fmt pieces l n (λ g hg. parse-print_pattern g pieces p hg) hf
parse-print_pattern f (plain _ ∷ []) (last_text c s) hf =
    parse-escape (c ∷ s) [] [] f 0 hf (omega arith)
parse-print_pattern f (plain _ ∷ plain _ ∷ pieces) p hf = elim p [ ]
parse-print_pattern f (plain _ ∷ item str fmt ∷ pieces) (text_item c s (an_item l n p)) hf =
    let rest = print_pattern (item str fmt ∷ pieces) in
    parse-escape (c ∷ s) [] rest f (length rest) hf (omega arith)
    ∙ parse-print_item (length rest) (c ∷ s) str fmt pieces l n
        (λ g hg. parse-print_pattern g pieces p hg) (omega arith)

-- A list of pieces whose keys are letters, whose formats have no closing brace, and whose plain texts are
-- not empty and not next to each other, is read back from its pattern, without an error.
pub parse_pattern-print_pattern :
    (pieces : List Piece)
    → Printable pieces
    → parse_pattern (print_pattern pieces) ≡ some (pieces, false)
unfolding parse_pattern
parse_pattern-print_pattern pieces p =
    parse-print_pattern (length (print_pattern pieces)) pieces p (omega arith)
