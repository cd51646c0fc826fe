-- ===== src/Log/Loggers.antt =====
-- sylar/log.cpp and log.h: loggers with their appenders, and the LoggerManager. A LogFormatter is kept
-- as its pattern, and an appender as a value of the logger that has it. `m_root` is the logger of the
-- name `root`, which the manager has from the start.
pub mod Defines
pub mod Files
use sylar_leo.Base.{
  ℕ, ◌+◌, Bool, true, false, not, ◌&&◌, Option, none, some, List, [], ◌∷◌, ◌++◌, ltb, leb,
  if◌then◌else◌,
}
use sylar_leo.Base.Text.{Text, codes, text_eq}
use sylar_leo.Base.Assoc.{find, assign}
use sylar_leo.Log.{Level, unknow, debug, info, warn, level_error, fatal, FormatItem, init}

pub data Target : Type 0 where
  stdout_target : Target
  file_target : (filename : Text) → Target

pub record LogAppender : Type 0 where
  pub target : Target
  pub level : Level
  pub has_formatter : Bool
  pub formatter : Option Text

pub record Logger : Type 0 where
  pub name : Text
  pub level : Level
  pub formatter : Text
  pub appenders : List LogAppender
  pub has_root : Bool

unfoldable pub new_appender : Target → LogAppender
new_appender target = record {
  target = target;
  level = debug;
  has_formatter = false;
  formatter = none;
}

abbrev pub default_pattern : Text
default_pattern = codes "%d{%Y-%m-%d %H:%M:%S}%T%t%T%N%T%F%T[%p]%T[%c]%T<%f:%l>%T%m%n"

unfoldable pub new_logger : Text → Logger
new_logger name = record {
  name = name;
  level = debug;
  formatter = default_pattern;
  appenders = [];
  has_root = false;
}

abbrev pub given : Option Text → Bool
given none = false
given (some pattern_text) = true

-- `LogAppender::setFormatter`.
unfoldable pub appender_set_formatter : Option Text → LogAppender → LogAppender
appender_set_formatter val a = record a { formatter = val; has_formatter = given val }

-- An appender that has no formatter of its own gets the logger's.
unfoldable pub pass_formatter : Text → LogAppender → LogAppender
pass_formatter val a = if a.has_formatter then a else record a { formatter = some val }

abbrev pub pass_to_all : Text → List LogAppender → List LogAppender
pass_to_all val [] = []
pass_to_all val (a ∷ appenders) = pass_formatter val a ∷ pass_to_all val appenders

unfoldable pub set_formatter : Text → Logger → Logger
unfolding pass_formatter
set_formatter val l = record l { formatter = val; appenders = pass_to_all val l.appenders }

abbrev pub failed : Option (List FormatItem × Bool) → Bool
failed none = true
failed (some (items, e)) = e

-- `LogFormatter::isError` of a new formatter.
unfoldable pub is_error : Text → Bool
is_error pattern_text = failed (init pattern_text)

-- `setFormatter` of a pattern.
unfoldable pub set_pattern : Text → Logger → Logger
unfolding is_error set_formatter
set_pattern val l = if is_error val then l else set_formatter val l

unfoldable pub fill_formatter : Text → LogAppender → LogAppender
fill_formatter val a = if given a.formatter then a else record a { formatter = some val }

unfoldable pub add_appender : LogAppender → Logger → Logger
unfolding fill_formatter
add_appender a l = record l { appenders = l.appenders ++ fill_formatter l.formatter a ∷ [] }

-- The loop of `delAppender`, with the test that an appender is the one given.
abbrev pub erase_appender : (same : LogAppender → Bool) → List LogAppender → List LogAppender
erase_appender same [] = []
erase_appender same (a ∷ appenders) =
    if same a then appenders else a ∷ erase_appender same appenders

unfoldable pub del_appender : (same : LogAppender → Bool) → Logger → Logger
del_appender same l = record l { appenders = erase_appender same l.appenders }

unfoldable pub clear_appenders : Logger → Logger
clear_appenders l = record l { appenders = [] }

unfoldable pub set_level : Level → Logger → Logger
set_level val l = record l { level = val }

unfoldable pub level_number : Level → ℕ
level_number unknow = 0
level_number debug = 1
level_number info = 2
level_number warn = 3
level_number level_error = 4
level_number fatal = 5

-- `level >= m_level`.
unfoldable pub reaches : (level own : Level) → Bool
unfolding level_number
reaches level own = leb (level_number own) (level_number level)

abbrev pub LoggerManager : Type 0
LoggerManager = List (Text × Logger)

abbrev pub root_name : Text
root_name = codes "root"

unfoldable pub new_logger_manager : LoggerManager
unfolding add_appender new_logger new_appender
new_logger_manager =
    (root_name, add_appender (new_appender stdout_target) (new_logger root_name)) ∷ []

abbrev pub found_or_new : Text → Option Logger → Logger
found_or_new name (some l) = l
found_or_new name none = record (new_logger name) { has_root = true }

unfoldable pub get_logger : Text → LoggerManager → Logger × LoggerManager
unfolding new_logger
get_logger name m = let l = found_or_new name (find name m) in (l, assign name l m)

-- The appenders of a list that write an event.
abbrev pub writers : Level → List LogAppender → List LogAppender
writers level [] = []
writers level (a ∷ appenders) =
    if reaches level a.level then a ∷ writers level appenders else writers level appenders

abbrev pub nonempty : List LogAppender → Bool
nonempty [] = false
nonempty (a ∷ appenders) = true

-- `Logger::log` of a logger that has no root.
pub log_here : Level → Logger → List LogAppender
unfolding reaches
log_here level l = if reaches level l.level then writers level l.appenders else []

abbrev pub log_root : Level → Option Logger → List LogAppender
log_root level none = []
log_root level (some root) = log_here level root

-- `Logger::log`: the appenders that write an event of that level.
pub log : Level → Logger → LoggerManager → List LogAppender
unfolding reaches log_here
log level l m =
    if reaches level l.level
    then if nonempty l.appenders
      then writers level l.appenders
      else if l.has_root
      then log_root level (find root_name m)
      else []
    else []
