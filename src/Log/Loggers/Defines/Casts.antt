-- ===== src/Log/Loggers/Defines/Casts.antt =====
-- sylar/log.cpp: the conversions between a YAML node and a LogDefine. They give `none` where the code
-- throws. `as<std::string>()` of a scalar is its text; of any other node it is the parameter `other`.
use sylar_leo.Base.{Option, none, some, List, [], ◌∷◌, ◌++◌, map, if◌then◌else◌}
use sylar_leo.Base.Text.{Text, codes, text_eq}
use sylar_leo.Config.Yaml.{
  Node, null_node, scalar, sequence, mapping, field, end, items, fields, of_items, of_fields,
  get_in,
}
use sylar_leo.Log.{
  Level, unknow, debug, info, warn, level_error, fatal, level_from_string, level_to_string,
}
use sylar_leo.Log.Loggers.Defines.{
  AppenderType, file_type, stdout_type, LogAppenderDefine, LogDefine,
}

-- `node[key]`: `none` where it throws, `some none` where the node is not defined.
unfoldable pub subscript : Text → Node → Option (Option Node)
subscript key null_node = some none
subscript key (scalar s) = none
subscript key (sequence ns) = some none
subscript key (mapping kns) = some (get_in key (fields kns))

-- The nodes of `n["appenders"]`, in the loop over its size. A map in its place throws, unless its keys
-- are the numbers of the loop, which is not followed here.
unfoldable pub elements : Node → Option (List Node)
elements null_node = some []
elements (scalar s) = some []
elements (sequence ns) = some (items ns)
elements (mapping end) = some []
elements (mapping (field k n kns)) = none

abbrev pub text_or_empty : Option Text → Text
text_or_empty none = []
text_or_empty (some s) = s

module _ (other : Node → Option Text) where
  unfoldable pub as_string : Node → Option Text
  as_string null_node = other null_node
  as_string (scalar s) = some s
  as_string (sequence ns) = other (sequence ns)
  as_string (mapping kns) = other (mapping kns)

  abbrev pub defined_text : Option Node → Option (Option Text)
  defined_text none = some none
  defined_text (some n) = elim (as_string n) [ none ↦ none | some s ↦ some (some s) ]

  -- The text of a key that may be missing.
  unfoldable pub read_key : Text → Node → Option (Option Text)
  unfolding subscript as_string
  read_key key n = elim (subscript key n) [ none ↦ none | some m ↦ defined_text m ]

  unfoldable pub read_file_appender : Node → Option (Option LogAppenderDefine)
  unfolding read_key
  read_file_appender a = elim (read_key (codes "file") a) [
    | none ↦ none
    | some none ↦ some none
    | some (some file) ↦ elim (read_key (codes "formatter") a) [
      | none ↦ none
      | some formatter ↦ some (
          some record {
            type = file_type;
            level = unknow;
            formatter = text_or_empty formatter;
            file = file;
          })
    ]
  ]

  unfoldable pub read_stdout_appender : Node → Option (Option LogAppenderDefine)
  unfolding read_key
  read_stdout_appender a = elim (read_key (codes "formatter") a) [
    | none ↦ none
    | some formatter ↦ some (
        some record {
          type = stdout_type;
          level = unknow;
          formatter = text_or_empty formatter;
          file = [];
        })
  ]

  -- A turn of the loop over the appenders: `some none` where it goes on without storing one.
  unfoldable pub read_appender : Node → Option (Option LogAppenderDefine)
  unfolding read_key read_file_appender read_stdout_appender
  read_appender a = elim (read_key (codes "type") a) [
    | none ↦ none
    | some none ↦ some none
    | some (some type) ↦
        if text_eq type (codes "FileLogAppender")
        then read_file_appender a
        else if text_eq type (codes "StdoutLogAppender")
        then read_stdout_appender a
        else some none
  ]

  abbrev pub cons_read :
      Option (Option LogAppenderDefine)
      → Option (List LogAppenderDefine)
      → Option (List LogAppenderDefine)
  cons_read none rest = none
  cons_read (some o) none = none
  cons_read (some none) (some rest) = some rest
  cons_read (some (some a)) (some rest) = some (a ∷ rest)

  abbrev pub read_appenders : List Node → Option (List LogAppenderDefine)
  read_appenders [] = some []
  read_appenders (a ∷ more) = cons_read (read_appender a) (read_appenders more)

  abbrev pub read_appenders_of : Option (Option Node) → Option (List LogAppenderDefine)
  read_appenders_of none = none
  read_appenders_of (some none) = some []
  read_appenders_of (some (some n)) = elim (elements n) [
    | none ↦ none
    | some ns ↦ read_appenders ns
  ]

  -- The define from its four parts.
  abbrev pub make_define :
      Option (Option Text)
      → (level formatter : Option (Option Text)) → Option (List LogAppenderDefine)
      → Option LogDefine
  make_define (some (some name)) (some level) (some formatter) (some appenders) = some record {
    name = name;
    level = level_from_string (text_or_empty level);
    formatter = text_or_empty formatter;
    appenders = appenders;
  }
  make_define _ _ _ _ = none

  -- `LexicalCast<std::string, LogDefine>`, on the node that is loaded.
  unfoldable pub read_define : Node → Option LogDefine
  unfolding read_key read_appender elements
  read_define n =
      make_define (read_key (codes "name") n) (read_key (codes "level") n)
        (read_key (codes "formatter") n) (read_appenders_of (subscript (codes "appenders") n))

-- The fields that are written only where there is something to write.
abbrev pub level_field : Level → List (Text × Node)
level_field unknow = []
level_field debug = (codes "level", scalar (level_to_string debug)) ∷ []
level_field info = (codes "level", scalar (level_to_string info)) ∷ []
level_field warn = (codes "level", scalar (level_to_string warn)) ∷ []
level_field level_error = (codes "level", scalar (level_to_string level_error)) ∷ []
level_field fatal = (codes "level", scalar (level_to_string fatal)) ∷ []

abbrev pub formatter_field : Text → List (Text × Node)
formatter_field [] = []
formatter_field (c ∷ s) = (codes "formatter", scalar (c ∷ s)) ∷ []

abbrev pub type_fields : AppenderType → (file : Text) → List (Text × Node)
type_fields file_type file =
    (codes "type", scalar (codes "FileLogAppender")) ∷ (codes "file", scalar file) ∷ []
type_fields stdout_type file = (codes "type", scalar (codes "StdoutAppender")) ∷ []

unfoldable pub write_appender : LogAppenderDefine → Node
write_appender a =
    mapping
      (of_fields (type_fields a.type a.file ++ level_field a.level ++ formatter_field a.formatter))

abbrev pub appenders_field : List LogAppenderDefine → List (Text × Node)
appenders_field [] = []
appenders_field (a ∷ more) =
    (codes "appenders", sequence (of_items (map write_appender (a ∷ more)))) ∷ []

-- `LexicalCast<LogDefine, std::string>`, up to the writing of the node.
unfoldable pub write_define : LogDefine → Node
unfolding write_appender
write_define d = mapping (
    of_fields (
      (codes "name", scalar d.name) ∷ level_field d.level
      ++ formatter_field d.formatter
      ++ appenders_field d.appenders))
