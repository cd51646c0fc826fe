-- ===== src/Log/Loggers/Defines.antt =====
-- sylar/log.cpp: the configuration variable `logs`, and the listener that LogIniter puts on it. A set
-- of LogDefine is a list with no name twice. The reader of the variable stores no appender of a type
-- other than a file and the standard output.
pub mod Applying
pub mod Casts
pub mod Reading
pub mod Equality
pub mod Syncing
mod Examples
use sylar_leo.Base.{
  Bool, true, false, not, ◌&&◌, Option, none, some, List, [], ◌∷◌, if◌then◌else◌, ◌==◌,
}
use sylar_leo.Base.Text.{Text, codes, text_eq, is_nil}
use sylar_leo.Base.Assoc.{find, assign}
use sylar_leo.Log.{Level, unknow, level_from_string, level_to_string}
use sylar_leo.Log.Loggers.{
  Target, stdout_target, file_target, LogAppender, Logger, LoggerManager, new_appender,
  appender_set_formatter, is_error, set_pattern, add_appender, clear_appenders, set_level,
  get_logger, level_number,
}

pub data AppenderType : Type 0 where
  file_type stdout_type : AppenderType

pub record LogAppenderDefine : Type 0 where
  pub type : AppenderType
  pub level : Level
  pub formatter : Text
  pub file : Text

pub record LogDefine : Type 0 where
  pub name : Text
  pub level : Level
  pub formatter : Text
  pub appenders : List LogAppenderDefine

abbrev same_type : AppenderType → AppenderType → Bool
same_type file_type file_type = true
same_type file_type stdout_type = false
same_type stdout_type file_type = false
same_type stdout_type stdout_type = true

abbrev same_level : Level → Level → Bool
same_level a b = level_number a == level_number b

-- `LogAppenderDefine::operator==`.
unfoldable pub appender_define_equal : LogAppenderDefine → LogAppenderDefine → Bool
appender_define_equal a b =
    same_type a.type b.type
    && same_level a.level b.level
    && text_eq a.formatter b.formatter
    && text_eq a.file b.file

abbrev pub appender_defines_equal : List LogAppenderDefine → List LogAppenderDefine → Bool
appender_defines_equal [] [] = true
appender_defines_equal [] (b ∷ bs) = false
appender_defines_equal (a ∷ more) [] = false
appender_defines_equal (a ∷ more) (b ∷ bs) =
    appender_define_equal a b && appender_defines_equal more bs

-- `LogDefine::operator==`.
unfoldable pub define_equal : LogDefine → LogDefine → Bool
define_equal a b =
    text_eq a.name b.name
    && same_level a.level b.level
    && text_eq a.formatter b.formatter
    && appender_defines_equal a.appenders b.appenders

-- `find` of the set, whose order is the order of the names.
abbrev pub find_define : Text → List LogDefine → Option LogDefine
find_define name [] = none
find_define name (d ∷ defines) = if text_eq d.name name then some d else find_define name defines

abbrev pub target_of : AppenderType → (file : Text) → Target
target_of file_type file = file_target file
target_of stdout_type file = stdout_target

-- The appender that the listener makes.
unfoldable pub make_appender : LogAppenderDefine → LogAppender
unfolding new_appender appender_set_formatter is_error
make_appender a =
    let ap = record (new_appender (target_of a.type a.file)) { level = a.level } in
    if is_nil a.formatter
    then ap
    else if is_error a.formatter
    then ap
    else appender_set_formatter (some a.formatter) ap

abbrev pub add_all : List LogAppenderDefine → Logger → Logger
add_all [] l = l
add_all (a ∷ appenders) l = add_all appenders (add_appender (make_appender a) l)

-- What the listener does to the logger of a define that is new or changed.
unfoldable pub configure : LogDefine → Logger → Logger
unfolding set_level set_pattern clear_appenders make_appender add_appender
configure d l =
    let leveled = set_level d.level l in
    let formatted = if is_nil d.formatter then leveled else set_pattern d.formatter leveled in
    add_all d.appenders (clear_appenders formatted)

-- What the listener does to the logger of a define that is gone.
unfoldable pub retire : Logger → Logger
unfolding set_level clear_appenders
retire l = clear_appenders (set_level unknow l)

-- A change of the logger of that name, through the pointer that `getLogger` returns.
abbrev pub change : Text → (Logger → Logger) → LoggerManager → LoggerManager
change name f m = let (l, m') = get_logger name m in assign name (f l) m'

-- Whether the define is there and equal.
abbrev pub unchanged : LogDefine → Option LogDefine → Bool
unchanged d none = false
unchanged d (some before) = define_equal d before

abbrev pub present : Option LogDefine → Bool
present none = false
present (some d) = true

-- A loop of the listener: the loggers of the defines that it does not skip are changed.
abbrev pub change_each :
    (skip : LogDefine → Bool)
    → (f : LogDefine → Logger → Logger) → List LogDefine
    → LoggerManager
    → LoggerManager
change_each skip f [] m = m
change_each skip f (d ∷ defines) m =
    change_each skip f defines (if skip d then m else change d.name (f d) m)

-- The listener.
unfoldable pub on_logger_conf_changed :
    (old_value new_value : List LogDefine) → LoggerManager → LoggerManager
on_logger_conf_changed old_value new_value m =
    change_each (λ d. present (find_define d.name new_value)) (λ d. retire) old_value
      (change_each (λ d. unchanged d (find_define d.name old_value)) configure new_value m)
