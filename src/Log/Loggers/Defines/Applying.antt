-- ===== src/Log/Loggers/Defines/Applying.antt =====
-- What the listener makes of each logger, by its name.
use sylar_leo.Base.{
  ◌≡◌, refl, ap, subst, ◌∙◌, Bool, false, Option, none, some, List, [], ◌∷◌, if◌then◌else◌,
  Bool-cases, inl, inr, arith,
}
use sylar_leo.Base.Text.{Text, text_eq, text_eq_refl, eq_of_text_eq}
use sylar_leo.Base.Assoc.{find, assign, find-assign}
use sylar_leo.Log.Loggers.{Logger, LoggerManager, found_or_new, get_logger}
use sylar_leo.Log.Loggers.Defines.{
  LogDefine, find_define, configure, retire, change, unchanged, present, change_each,
  on_logger_conf_changed,
}

-- No name twice.
pub data Distinct : List LogDefine → Type 0 where
  empty : Distinct []
  more :
      {d : LogDefine} {defines : List LogDefine}
      → find_define d.name defines ≡ none
      → Distinct defines
      → Distinct (d ∷ defines)

-- The logger of a name after the listener, from its defines before and after.
abbrev pub configured : Option LogDefine → Option LogDefine → Text → Option Logger → Option Logger
configured old_ none name l = if present old_ then some (retire (found_or_new name l)) else l
configured old_ (some d) name l =
    if unchanged d old_ then l else some (configure d (found_or_new name l))

find-change :
    (name u : Text) (f : Logger → Logger) (m : LoggerManager)
    → find u (change name f m)
      ≡ (if text_eq name u then some (f (found_or_new name (find name m))) else find u m)
unfolding get_logger
find-change name u f m =
    let l = found_or_new name (find name m) in
    find-assign name u (f l) (assign name l m) ∙ elim (Bool-cases (text_eq name u)) [
      | inl here ↦ rw here refl
      | inr there ↦ rw there (find-assign name u l m ∙ rw there refl)
    ]

module _ (skip : LogDefine → Bool) (f : LogDefine → Logger → Logger) where
  -- One turn of a loop, for another name.
  turn-other :
      (d : LogDefine) (u : Text) (m : LoggerManager)
      → text_eq d.name u ≡ false
      → find u (if skip d then m else change d.name (f d) m) ≡ find u m
  turn-other d u m there = elim (Bool-cases (skip d)) [
    | inl same ↦ rw same refl
    | inr changed ↦ rw changed (find-change d.name u (f d) m ∙ rw there refl)
  ]

  change_each-other :
      (defines : List LogDefine) (u : Text) (m : LoggerManager)
      → find_define u defines ≡ none
      → find u (change_each skip f defines m) ≡ find u m
  change_each-other [] u m fresh = refl
  change_each-other (d ∷ defines) u m fresh = elim (Bool-cases (text_eq d.name u)) [
    | inl here ↦ absurd (ground (arith, here, fresh))
    | inr there ↦
        change_each-other defines u (if skip d then m else change d.name (f d) m)
          (rw there at fresh)
        ∙ turn-other d u m there
  ]

  -- What a loop makes of the logger of a name.
  abbrev pass : Option LogDefine → Text → Option Logger → Option Logger
  pass none u l = l
  pass (some d) u l = if skip d then l else some (f d (found_or_new u l))

  turn-here :
      (d : LogDefine) (m : LoggerManager)
      → find d.name (if skip d then m else change d.name (f d) m)
        ≡ pass (some d) d.name (find d.name m)
  turn-here d m = elim (Bool-cases (skip d)) [
    | inl same ↦ rw same refl
    | inr changed ↦ rw changed (find-change d.name d.name (f d) m ∙ rw (text_eq_refl d.name) refl)
  ]

  find-change_each :
      (defines : List LogDefine) (u : Text) (m : LoggerManager)
      → Distinct defines
      → find u (change_each skip f defines m) ≡ pass (find_define u defines) u (find u m)
  find-change_each [] u m empty = refl
  find-change_each (d ∷ defines) u m (more fresh distinct) = elim (Bool-cases (text_eq d.name u)) [
    | inl here ↦ rw here (
        subst
          (λ x.
            find x (change_each skip f defines (if skip d then m else change d.name (f d) m))
            ≡ pass (some d) x (find x m))
          (eq_of_text_eq d.name u here)
          (change_each-other defines d.name (if skip d then m else change d.name (f d) m) fresh
            ∙ turn-here d m))
    | inr there ↦ rw there (
        find-change_each defines u (if skip d then m else change d.name (f d) m) distinct
        ∙ ap (pass (find_define u defines) u) (turn-other d u m there))
  ]

-- A define that is found has the name that was looked for.
data Finds (u : Text) : Option LogDefine → Type 0 where
  misses : Finds u none
  finds : {d : LogDefine} → d.name ≡ u → Finds u (some d)

find_define-Finds : (u : Text) (defines : List LogDefine) → Finds u (find_define u defines)
find_define-Finds u [] = misses
find_define-Finds u (d ∷ defines) = elim (Bool-cases (text_eq d.name u)) [
  | inl here ↦ rw here (finds (eq_of_text_eq d.name u here))
  | inr there ↦ rw there (find_define-Finds u defines)
]

-- The two loops together, for one name.
passes :
    (old_value new_value : List LogDefine) (u : Text) (o n : Option LogDefine) (l : Option Logger)
    → find_define u old_value ≡ o
    → find_define u new_value ≡ n
    → Finds u o
    → Finds u n
    → pass
        (λ d. present (find_define d.name new_value))
        (λ d. retire)
        o
        u
        (pass (λ d. unchanged d (find_define d.name old_value)) configure n u l)
      ≡ configured o n u l
passes old_value new_value u _ _ l eo en misses misses = refl
passes old_value new_value u _ _ l eo en misses (finds {d} e) =
    ap (λ o. if unchanged d o then l else some (configure d (found_or_new u l)))
      (ap (λ x. find_define x old_value) e ∙ eo)
passes old_value new_value u _ _ l eo en (finds {d} e) misses =
    ap (λ o. if present o then l else some (retire (found_or_new u l)))
      (ap (λ x. find_define x new_value) e ∙ en)
passes old_value new_value u _ _ l eo en (finds {d = d0} e) (finds {d = d'} e') =
    let first =
      if unchanged d' (find_define d'.name old_value)
      then l
      else some (configure d' (found_or_new u l)) in
    ap (λ o. if present o then first else some (retire (found_or_new u first)))
      (ap (λ x. find_define x new_value) e ∙ en)
    ∙ ap (λ o. if unchanged d' o then l else some (configure d' (found_or_new u l)))
        (ap (λ x. find_define x old_value) e' ∙ eo)

-- For sets of defines with no name twice, the listener acts on the logger of each name alone: a define
-- that is new or changed configures it, making it where the manager has none; one that is equal leaves
-- it; one that is gone sets its level to UNKNOW and takes its appenders; and the logger of any other
-- name is what it was.
pub on_logger_conf_changed_lem :
    (old_value new_value : List LogDefine) (u : Text) (m : LoggerManager)
    → Distinct old_value
    → Distinct new_value
    → find u (on_logger_conf_changed old_value new_value m)
      ≡ configured (find_define u old_value) (find_define u new_value) u (find u m)
unfolding on_logger_conf_changed
on_logger_conf_changed_lem old_value new_value u m old_ new_ =
    let first =
      change_each (λ d. unchanged d (find_define d.name old_value)) configure new_value m in
    find-change_each (λ d. present (find_define d.name new_value)) (λ d. retire) old_value u first
      old_
    ∙ ap
        (pass (λ d. present (find_define d.name new_value)) (λ d. retire) (find_define u old_value)
          u)
        (find-change_each (λ d. unchanged d (find_define d.name old_value)) configure new_value u m
          new_)
    ∙ passes old_value new_value u (find_define u old_value) (find_define u new_value) (find u m)
        refl refl (find_define-Finds u old_value) (find_define-Finds u new_value)
