-- ===== src/Log/Loggers/Defines/Syncing.antt =====
-- The variable `logs` and the loggers together, over any changes of the variable.
use sylar_leo.Base.{
  ℕ, ◌≡◌, refl, sym, ap, subst, ◌∙◌, Bool, Option, none, some, List, [], ◌∷◌, ◌++◌, map,
  append_assoc, append-nil, All, if◌then◌else◌, Bool-cases, inl, inr,
}
use sylar_leo.Base.Text.{Text, is_nil}
use sylar_leo.Base.Assoc.{find}
use sylar_leo.Config.{ConfigVar, Callback, returned, caught, store, set_value, notify}
use sylar_leo.Log.Loggers.{
  Target, LogAppender, Logger, LoggerManager, found_or_new, new_appender, appender_set_formatter,
  is_error, set_formatter, set_pattern, fill_formatter, add_appender, clear_appenders, set_level,
  given,
}
use sylar_leo.Log.Loggers.Defines.{
  LogAppenderDefine, LogDefine, define_equal, find_define, target_of, make_appender, add_all,
  configure, on_logger_conf_changed,
}
use sylar_leo.Log.Loggers.Defines.Equality.{defined_targets, define_equal-same}
use sylar_leo.Log.Loggers.Defines.Applying.{Distinct, configured, on_logger_conf_changed_lem}

abbrev pub targets : List LogAppender → List Target
targets appenders = map (λ a. a.target) appenders

-- The logger has the level and the targets of the define.
pub record Matches (d : LogDefine) (l : Logger) : Type 0 where
  pub same_level_ : l.level ≡ d.level
  pub same_targets : targets l.appenders ≡ defined_targets d.appenders

target-fill_formatter : (val : Text) (a : LogAppender) → (fill_formatter val a).target ≡ a.target
unfolding fill_formatter
target-fill_formatter val a = elim (Bool-cases (given a.formatter)) [
  | inl has_one ↦ rw has_one refl
  | inr has_none ↦ rw has_none refl
]

target-make_appender : (a : LogAppenderDefine) → (make_appender a).target ≡ target_of a.type a.file
unfolding make_appender new_appender appender_set_formatter
target-make_appender a = elim (Bool-cases (is_nil a.formatter)) [
  | inl empty_one ↦ rw empty_one refl
  | inr some_one ↦ elim (Bool-cases (is_error a.formatter)) [
    | inl bad ↦ rw (some_one, bad) refl
    | inr good ↦ rw (some_one, good) refl
  ]
]

level-add_all :
    (appenders : List LogAppenderDefine) (l : Logger) → (add_all appenders l).level ≡ l.level
unfolding add_appender
level-add_all [] l = refl
level-add_all (a ∷ more) l = level-add_all more (add_appender (make_appender a) l)

map-append : (xs ys : List LogAppender) → targets (xs ++ ys) ≡ targets xs ++ targets ys
map-append [] ys = refl
map-append (x ∷ xs) ys = ap (λ t. x.target ∷ t) (map-append xs ys)

targets-add_all :
    (appenders : List LogAppenderDefine) (l : Logger)
    → targets (add_all appenders l).appenders ≡ targets l.appenders ++ defined_targets appenders
unfolding add_appender
targets-add_all [] l = sym (append-nil (targets l.appenders))
targets-add_all (a ∷ more) l =
    let added = fill_formatter l.formatter (make_appender a) in
    targets-add_all more (add_appender (make_appender a) l)
    ∙ ap (λ t. t ++ defined_targets more)
        (map-append l.appenders (added ∷ [])
          ∙ ap (λ t. targets l.appenders ++ t ∷ [])
              (target-fill_formatter l.formatter (make_appender a) ∙ target-make_appender a))
    ∙ append_assoc (targets l.appenders) (target_of a.type a.file ∷ []) (defined_targets more)

level-formatted :
    (d : LogDefine) (l : Logger)
    → (if is_nil d.formatter then l else set_pattern d.formatter l).level ≡ l.level
unfolding set_pattern set_formatter
level-formatted d l = elim (Bool-cases (is_nil d.formatter)) [
  | inl empty_one ↦ rw empty_one refl
  | inr some_one ↦ elim (Bool-cases (is_error d.formatter)) [
    | inl bad ↦ rw (some_one, bad) refl
    | inr good ↦ rw (some_one, good) refl
  ]
]

configure-Matches : (d : LogDefine) (l : Logger) → Matches d (configure d l)
unfolding configure clear_appenders set_level
configure-Matches d l =
    let leveled = set_level d.level l in
    let formatted = if is_nil d.formatter then leveled else set_pattern d.formatter leveled in
    record {
      same_level_ =
          level-add_all d.appenders (clear_appenders formatted) ∙ level-formatted d leveled;
      same_targets = targets-add_all d.appenders (clear_appenders formatted);
    }

-- Each define of the value has a logger that matches it.
unfoldable pub InSync : List LogDefine → LoggerManager → Type 0
InSync defines m =
    (u : Text) (d : LogDefine)
    → find_define u defines ≡ some d
    → (l : Logger) × ((find u m ≡ some l) × Matches d l)

configured-InSync :
    (old_ : Option LogDefine) (d : LogDefine) (u : Text) (l : Option Logger)
    → ((before : LogDefine) → old_ ≡ some before → (k : Logger) × ((l ≡ some k) × Matches before k))
    → (k : Logger) × ((configured old_ (some d) u l ≡ some k) × Matches d k)
configured-InSync none d u l h =
    (configure d (found_or_new u l), (refl, configure-Matches d (found_or_new u l)))
configured-InSync (some before) d u l h = elim (Bool-cases (define_equal d before)) [
  | inl same ↦
      let (k, (e, matches)) = h before refl in
      let (level, appenders) = define_equal-same d before same in
      rw same (
        k,
        (
          e,
          record {
            same_level_ = matches.same_level_ ∙ level;
            same_targets = matches.same_targets ∙ appenders;
          },
        ),
      )
  | inr changed ↦
      rw changed (configure d (found_or_new u l), (refl, configure-Matches d (found_or_new u l)))
]

on_logger_conf_changed-InSync :
    (old_value new_value : List LogDefine) (m : LoggerManager)
    → Distinct old_value
    → Distinct new_value
    → InSync old_value m
    → InSync new_value (on_logger_conf_changed old_value new_value m)
unfolding InSync
on_logger_conf_changed-InSync old_value new_value m old_ new_ h u d e =
    let (k, (found_k, matches)) =
      configured-InSync (find_define u old_value) d u (find u m) (h u) in
    (
      k,
      (
        on_logger_conf_changed_lem old_value new_value u m old_ new_
            ∙ ap (λ n. configured (find_define u old_value) n u (find u m)) e
            ∙ found_k,
        matches,
      ),
    )

-- The variable `logs` with the loggers around it.
abbrev pub LogsVar : Type 0
LogsVar = ConfigVar (List LogDefine) LoggerManager

-- The listener of `logs`, which returns.
abbrev pub logs_listener : Callback (List LogDefine) LoggerManager
logs_listener old_value new_value m = returned (on_logger_conf_changed old_value new_value m)

-- `setValue` of each of a list of values.
abbrev pub set_all :
    (equal : List LogDefine → List LogDefine → Bool)
    → List (List LogDefine)
    → LogsVar × LoggerManager
    → LogsVar × LoggerManager
set_all equal [] st = st
set_all equal (v ∷ vs) st = set_all equal vs (caught (set_value equal v st))

-- Where the listener is the only one of the variable `logs` and no value has a name twice: loggers that
-- match the defines of the value that the variable has (each is there, with the level of its define and
-- appenders on just the targets of its define) match them again after any sequence of changes.
pub set_all-InSync :
    (equal : List LogDefine → List LogDefine → Bool) (key : ℕ) (vs : List (List LogDefine))
    (var : LogsVar) (m : LoggerManager)
    → var.cbs ≡ (key, logs_listener) ∷ []
    → Distinct var.val
    → All Distinct vs
    → InSync var.val m
    → InSync (set_all equal vs (var, m)).0.val (set_all equal vs (var, m)).1
unfolding set_value
set_all-InSync equal key [] var m listener old_ new_ h = h
set_all-InSync equal key (v ∷ vs) var m listener old_ (one, others) h =
    elim (Bool-cases (equal v var.val)) [
      | inl same ↦
          let e : caught (set_value equal v (var, m)) ≡ (var, m) = rw same refl in
          subst (λ st. InSync (set_all equal vs st).0.val (set_all equal vs st).1) (sym e)
            (set_all-InSync equal key vs var m listener old_ others h)
      | inr differs ↦
          let m' = on_logger_conf_changed var.val v m in
          let e : caught (set_value equal v (var, m)) ≡ (record var { val = v }, m') =
            rw differs (ap (λ cbs. caught (store v var (notify cbs var.val v m))) listener) in
          subst (λ st. InSync (set_all equal vs st).0.val (set_all equal vs st).1) (sym e)
            (set_all-InSync equal key vs (record var { val = v }) m' listener one others
              (on_logger_conf_changed-InSync var.val v m old_ one h))
    ]
