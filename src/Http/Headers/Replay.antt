-- ===== src/Http/Headers/Replay.antt =====
-- The map as a client sees it, over any sequence of calls.
use sylar_leo.Base.{◌≡◌, refl, ◌∙◌, ap, Option, none, some, List, [], ◌∷◌, fun_ext, if◌then◌else◌}
use sylar_leo.Base.Text.{Text, text_eq}
use sylar_leo.Http.Headers.{folded, MapType, lookup, set_value, erase_key}
use sylar_leo.Http.Headers.Order.{
  IsSorted, set_value-IsSorted, erase_key-IsSorted, lookup-set_value, lookup-erase_key,
  same_key_lem,
}

-- `setHeader` and `delHeader`.
pub data Call : Type 0 where
  set_header : Text → Text → Call
  del_header : Text → Call

pub run : List Call → MapType → MapType
run [] m = m
run (set_header key val ∷ calls) m = run calls (set_value key val m)
run (del_header key ∷ calls) m = run calls (erase_key key m)

-- A map from names in lower case to values, changed at one name.
abbrev pub update : (Text → Option Text) → Text → Option Text → Text → Option Text
update f key val other = if text_eq (folded key) (folded other) then val else f other

pub replay : List Call → (Text → Option Text) → Text → Option Text
replay [] f = f
replay (set_header key val ∷ calls) f = replay calls (update f key (some val))
replay (del_header key ∷ calls) f = replay calls (update f key none)

abbrev pub view : MapType → Text → Option Text
view m key = lookup key m

view-set_value :
    (key val : Text) (m : MapType) → view (set_value key val m) ≡ update (view m) key (some val)
view-set_value key val m = fun_ext λ other.
    lookup-set_value key val other m
    ∙ ap (λ b. if b then some val else lookup other m) (same_key_lem key other)

view-erase_key :
    (key : Text) (m : MapType) → IsSorted m → view (erase_key key m) ≡ update (view m) key none
view-erase_key key m s = fun_ext λ other.
    lookup-erase_key key other m s
    ∙ ap (λ b. if b then none else lookup other m) (same_key_lem key other)

-- From headers in order, any sequence of `setHeader` and `delHeader` leaves headers in order, and
-- `getHeader` then finds what the same calls leave in a function from names, taken in lower case, to
-- values.
pub run-replay :
    (calls : List Call) (m : MapType)
    → IsSorted m
    → IsSorted (run calls m) × (view (run calls m) ≡ replay calls (view m))
unfolding run replay
run-replay [] m s = (s, refl)
run-replay (set_header key val ∷ calls) m s =
    let (sorted, e) = run-replay calls (set_value key val m) (set_value-IsSorted key val m s) in
    (sorted, e ∙ ap (replay calls) (view-set_value key val m))
run-replay (del_header key ∷ calls) m s =
    let (sorted, e) = run-replay calls (erase_key key m) (erase_key-IsSorted key m s) in
    (sorted, e ∙ ap (replay calls) (view-erase_key key m s))
