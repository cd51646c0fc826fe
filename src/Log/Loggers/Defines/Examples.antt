-- ===== src/Log/Loggers/Defines/Examples.antt =====
-- A logger `a` that changes, one `b` that goes, and one `c` that comes.
use sylar_leo.Base.{some, Bool, true, false, arith, none, ◌≡◌, refl, List, [], ◌∷◌}
use sylar_leo.Base.Text.{Text, codes}
use sylar_leo.Base.Assoc.{find}
use sylar_leo.Log.{Level, info, warn, level_error, unknow}
use sylar_leo.Log.Loggers.{new_logger_manager}
use sylar_leo.Log.Loggers.Defines.{
  LogAppenderDefine, LogDefine, file_type, stdout_type, find_define, on_logger_conf_changed,
}
use sylar_leo.Log.Loggers.Defines.Casts.{read_define, write_define}
use sylar_leo.Log.Loggers.Defines.Reading.{kept_appenders, read_define-write_define}
use sylar_leo.Log.Loggers.Defines.Syncing.{logs_listener, LogsVar, InSync, set_all, set_all-InSync}
use sylar_leo.Log.Loggers.Defines.Applying.{
  Distinct, empty, more, configured, on_logger_conf_changed_lem,
}

abbrev named : Text → Level → List LogAppenderDefine → LogDefine
named name level appenders = record {
  name = name;
  level = level;
  formatter = codes "%m%n";
  appenders = appenders;
}

abbrev old_value : List LogDefine
old_value = named (codes "a") info [] ∷ named (codes "b") warn [] ∷ []

abbrev new_value : List LogDefine
new_value =
    named (codes "a") warn
      (record { type = file_type; level = unknow; formatter = []; file = codes "a.txt" } ∷ [])
    ∷ named (codes "c") level_error
        (record { type = stdout_type; level = unknow; formatter = []; file = [] } ∷ [])
    ∷ []

old_value-Distinct : Distinct old_value
old_value-Distinct = more refl (more refl empty)

new_value-Distinct : Distinct new_value
new_value-Distinct = more refl (more refl empty)

on_logger_conf_changed_lem_example :
    find (codes "a") (on_logger_conf_changed old_value new_value new_logger_manager)
    ≡ configured
        (find_define (codes "a") old_value)
        (find_define (codes "a") new_value)
        (codes "a")
        (find (codes "a") new_logger_manager)
on_logger_conf_changed_lem_example =
    on_logger_conf_changed_lem old_value new_value (codes "a") new_logger_manager old_value-Distinct
      new_value-Distinct

abbrev two_appenders : LogDefine
two_appenders = named (codes "a") warn (
    record { type = file_type; level = level_error; formatter = []; file = codes "a.txt" }
    ∷ record { type = stdout_type; level = unknow; formatter = codes "%m"; file = [] }
    ∷ [])

read_define-write_define_example :
    read_define (λ n. none) (write_define two_appenders)
    ≡ some record two_appenders { appenders = kept_appenders two_appenders.appenders }
read_define-write_define_example = read_define-write_define (λ n. none) two_appenders

abbrev logs : LogsVar
logs = record {
  name = codes "logs";
  description = codes "logs config";
  type = 0;
  val = [];
  cbs = (1, logs_listener) ∷ [];
}

-- Two values are equal where neither has a define.
abbrev both_empty : List LogDefine → List LogDefine → Bool
both_empty [] [] = true
both_empty [] (d ∷ ds) = false
both_empty (d ∷ ds) values = false

nothing-InSync : InSync [] new_logger_manager
unfolding InSync
nothing-InSync u d e = absurd (ground (arith, e))

set_all-InSync_example :
    InSync
      (set_all both_empty (old_value ∷ new_value ∷ []) (logs, new_logger_manager)).0.val
      (set_all both_empty (old_value ∷ new_value ∷ []) (logs, new_logger_manager)).1
set_all-InSync_example =
    set_all-InSync both_empty 1 (old_value ∷ new_value ∷ []) logs new_logger_manager refl empty
      (old_value-Distinct, (new_value-Distinct, tt)) nothing-InSync
