-- ===== src/Http/Headers.antt =====
-- `MapType`: a `std::map` whose keys are compared by `CaseInsensitiveLess`, as the list of its pairs in
-- order. `strcasecmp` reads a text up to a NUL, and compares its bytes in lower case.
pub mod Order
pub mod Replay
use sylar_leo.Base.{
  ℕ, Bool, true, false, ◌&&◌, not, Option, none, some, List, [], ◌∷◌, map, ltb, ◌==◌, if◌then◌else◌,
}
use sylar_leo.Base.Text.{Text}
use sylar_leo.Util.{lower}

unfoldable pub c_str : Text → Text
c_str [] = []
c_str (c ∷ s) = let rest = c ∷ c_str s in if c == 0 then [] else rest

-- The key as `strcasecmp` sees it.
unfoldable pub folded : Text → Text
unfolding c_str
folded s = map lower (c_str s)

unfoldable pub text_less : Text → Text → Bool
text_less [] [] = false
text_less [] (y ∷ ys) = true
text_less (x ∷ xs) [] = false
text_less (x ∷ xs) (y ∷ ys) =
    let rest = text_less xs ys in if ltb x y then true else if ltb y x then false else rest

unfoldable pub case_insensitive_less : Text → Text → Bool
unfolding folded text_less
case_insensitive_less lhs rhs = text_less (folded lhs) (folded rhs)

-- `strcasecmp(a, b) == 0`.
unfoldable pub same_key : Text → Text → Bool
unfolding case_insensitive_less
same_key a b = not (case_insensitive_less a b) && not (case_insensitive_less b a)

abbrev pub MapType : Type 0
MapType = List (Text × Text)

-- `find`.
unfoldable pub lookup : Text → MapType → Option Text
lookup key [] = none
lookup key ((k, v) ∷ m) = let rest = lookup key m in if same_key k key then some v else rest

-- `m[key] = val`.
pub set_value : Text → Text → MapType → MapType
set_value key val [] = (key, val) ∷ []
set_value key val ((k, v) ∷ m) =
    let rest = (k, v) ∷ set_value key val m in
    if same_key k key
    then (k, val) ∷ m
    else if case_insensitive_less key k
    then (key, val) ∷ (k, v) ∷ m
    else rest

-- `m.insert({key, val})` keeps the old value.
pub insert_value : Text → Text → MapType → MapType
insert_value key val [] = (key, val) ∷ []
insert_value key val ((k, v) ∷ m) =
    let rest = (k, v) ∷ insert_value key val m in
    if same_key k key
    then (k, v) ∷ m
    else if case_insensitive_less key k
    then (key, val) ∷ (k, v) ∷ m
    else rest

pub erase_key : Text → MapType → MapType
erase_key key [] = []
erase_key key ((k, v) ∷ m) =
    let rest = (k, v) ∷ erase_key key m in if same_key k key then m else rest
