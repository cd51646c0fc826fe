-- ===== src/Log/Loggers/Defines/Reading.antt =====
-- What of a LogDefine is read back from the node that it is written as.
use sylar_leo.Base.{◌≡◌, refl, ap, ap₂, ◌∙◌, Option, none, some, List, [], ◌∷◌, ◌++◌, map}
use sylar_leo.Base.Text.{Text, codes}
use sylar_leo.Config.Yaml.{Node, scalar, mapping, items, of_items, of_fields, items-of_items}
use sylar_leo.Log.{
  Level, unknow, debug, info, warn, level_error, fatal, level_from_string, level_to_string,
}
use sylar_leo.Log.Loggers.Defines.{
  AppenderType, file_type, stdout_type, LogAppenderDefine, LogDefine,
}
use sylar_leo.Log.Loggers.Defines.Casts.{
  subscript, elements, as_string, read_key, read_file_appender, read_stdout_appender, read_appender,
  cons_read, read_appenders, make_define, read_define, level_field, formatter_field, type_fields,
  write_appender, appenders_field, write_define,
}

-- What is read back of an appender: a file without its level, and nothing of the standard output.
abbrev pub kept : AppenderType → (formatter file : Text) → Option LogAppenderDefine
kept file_type formatter file =
    some record { type = file_type; level = unknow; formatter = formatter; file = file }
kept stdout_type formatter file = none

abbrev pub cons_kept {ℓ} : {A : Type ℓ} → Option A → List A → List A
cons_kept none xs = xs
cons_kept (some x) xs = x ∷ xs

abbrev pub kept_appenders : List LogAppenderDefine → List LogAppenderDefine
kept_appenders [] = []
kept_appenders (a ∷ more) = cons_kept (kept a.type a.formatter a.file) (kept_appenders more)

-- The field of a level is missing, or is read as the level.
data LevelFields : Level → List (Text × Node) → Type 0 where
  no_level : LevelFields unknow []
  with_level :
      {level : Level} (s : Text)
      → level_from_string s ≡ level
      → LevelFields level ((codes "level", scalar s) ∷ [])

level_field-LevelFields : (level : Level) → LevelFields level (level_field level)
unfolding level_from_string level_to_string
level_field-LevelFields unknow = no_level
level_field-LevelFields debug = with_level (codes "DEBUG") refl
level_field-LevelFields info = with_level (codes "INFO") refl
level_field-LevelFields warn = with_level (codes "WARN") refl
level_field-LevelFields level_error = with_level (codes "ERROR") refl
level_field-LevelFields fatal = with_level (codes "FATAL") refl

module _ (other : Node → Option Text) where
  appender_fields :
      (type : AppenderType) (formatter file : Text) (level : Level) (fs : List (Text × Node))
      → LevelFields level fs
      → read_appender other
          (mapping (of_fields (type_fields type file ++ fs ++ formatter_field formatter)))
        ≡ some (kept type formatter file)
  unfolding read_appender read_file_appender read_stdout_appender read_key subscript as_string
  appender_fields file_type [] file _ _ no_level = refl
  appender_fields file_type [] file level _ (with_level s e) = refl
  appender_fields file_type (c ∷ f) file _ _ no_level = refl
  appender_fields file_type (c ∷ f) file level _ (with_level s e) = refl
  appender_fields stdout_type formatter file _ _ no_level = refl
  appender_fields stdout_type formatter file level _ (with_level s e) = refl

  cons_read-kept :
      (o : Option LogAppenderDefine) (rest : List LogAppenderDefine)
      → cons_read other (some o) (some rest) ≡ some (cons_kept o rest)
  cons_read-kept none rest = refl
  cons_read-kept (some a) rest = refl

  appenders_read :
      (appenders : List LogAppenderDefine)
      → read_appenders other (map write_appender appenders) ≡ some (kept_appenders appenders)
  unfolding write_appender
  appenders_read [] = refl
  appenders_read (a ∷ more) =
      ap₂ (cons_read other)
        (appender_fields a.type a.formatter a.file a.level (level_field a.level)
          (level_field-LevelFields a.level))
        (appenders_read more)
      ∙ cons_read-kept (kept a.type a.formatter a.file) (kept_appenders more)

  listed :
      (appenders : List LogAppenderDefine)
      → read_appenders other (items (of_items (map write_appender appenders)))
        ≡ some (kept_appenders appenders)
  listed appenders =
      ap (read_appenders other) (items-of_items (map write_appender appenders))
      ∙ appenders_read appenders

  -- A define by its level.
  abbrev built : Text → Text → List LogAppenderDefine → Level → Option LogDefine
  built name formatter appenders level =
      some record { name = name; level = level; formatter = formatter; appenders = appenders }

  define_fields :
      (name : Text) (level : Level) (fs : List (Text × Node)) (formatter : Text)
      (appenders : List LogAppenderDefine)
      → LevelFields level fs
      → read_define other (
          mapping (
            of_fields (
              (codes "name", scalar name) ∷ fs
              ++ formatter_field formatter
              ++ appenders_field appenders)))
        ≡ some record {
          name = name;
          level = level;
          formatter = formatter;
          appenders = kept_appenders appenders;
        }
  unfolding read_define read_key subscript as_string elements level_from_string
  define_fields name _ _ [] [] no_level = refl
  define_fields name level _ [] [] (with_level s e) = ap (built name [] []) e
  define_fields name _ _ (c ∷ f) [] no_level = refl
  define_fields name level _ (c ∷ f) [] (with_level s e) = ap (built name (c ∷ f) []) e
  define_fields name _ _ [] (a ∷ more) no_level =
      ap (make_define other (some (some name)) (some none) (some none)) (listed (a ∷ more))
  define_fields name level _ [] (a ∷ more) (with_level s e) =
      ap (make_define other (some (some name)) (some (some s)) (some none)) (listed (a ∷ more))
      ∙ ap (built name [] (kept_appenders (a ∷ more))) e
  define_fields name _ _ (c ∷ f) (a ∷ more) no_level =
      ap (make_define other (some (some name)) (some none) (some (some (c ∷ f))))
        (listed (a ∷ more))
  define_fields name level _ (c ∷ f) (a ∷ more) (with_level s e) =
      ap (make_define other (some (some name)) (some (some s)) (some (some (c ∷ f))))
        (listed (a ∷ more))
      ∙ ap (built name (c ∷ f) (kept_appenders (a ∷ more))) e

-- A LogDefine is read back from the node that it is written as with its name, level and formatter, and
-- with its file appenders, each of which has lost its level; the appenders of the standard output are
-- gone.
pub read_define-write_define :
    (other : Node → Option Text) (d : LogDefine)
    → read_define other (write_define d) ≡ some record d { appenders = kept_appenders d.appenders }
unfolding write_define
read_define-write_define other d =
    define_fields other d.name d.level (level_field d.level) d.formatter d.appenders
      (level_field-LevelFields d.level)
