-- ===== src/Log/Loggers/Defines/Equality.antt =====
-- That defines which are equal for the program have the same level and the same targets.
use sylar_leo.Base.{◌≡◌, refl, sym, ap₂, Bool, true, false, ◌&&◌, List, [], ◌∷◌, map, arith, ==_iff}
use sylar_leo.Base.Text.{text_eq, eq_of_text_eq}
use sylar_leo.Log.{Level, unknow, debug, info, warn, level_error, fatal}
use sylar_leo.Log.Loggers.{Target, level_number}
use sylar_leo.Log.Loggers.Defines.{
  AppenderType, file_type, stdout_type, LogAppenderDefine, LogDefine, same_type, same_level,
  appender_define_equal, appender_defines_equal, define_equal, target_of,
}

abbrev pub defined_targets : List LogAppenderDefine → List Target
defined_targets appenders = map (λ a. target_of a.type a.file) appenders

and-both : (a b : Bool) → (a && b) ≡ true → (a ≡ true) × (b ≡ true)
and-both true b h = (refl, h)
and-both false b h = absurd (ground (arith, h))

and-four : (a b c d : Bool) → (a && b && c && d) ≡ true → (a ≡ true) × ((b ≡ true) × (d ≡ true))
and-four true true true true h = (refl, (refl, refl))
and-four true true true false h = absurd (ground (arith, h))
and-four true true false d h = absurd (ground (arith, h))
and-four true false c d h = absurd (ground (arith, h))
and-four false b c d h = absurd (ground (arith, h))

level_of_number : (a b : Level) → level_number a ≡ level_number b → a ≡ b
unfolding level_number
level_of_number unknow unknow h = refl
level_of_number debug debug h = refl
level_of_number info info h = refl
level_of_number warn warn h = refl
level_of_number level_error level_error h = refl
level_of_number fatal fatal h = refl
level_of_number a b h = absurd (omega (arith, h))

same_type-equal : (a b : AppenderType) → same_type a b ≡ true → a ≡ b
same_type-equal file_type file_type h = refl
same_type-equal file_type stdout_type h = absurd (ground (arith, h))
same_type-equal stdout_type file_type h = absurd (ground (arith, h))
same_type-equal stdout_type stdout_type h = refl

appenders-equal :
    (a b : List LogAppenderDefine)
    → appender_defines_equal a b ≡ true
    → defined_targets a ≡ defined_targets b
unfolding appender_define_equal
appenders-equal [] [] h = refl
appenders-equal [] (b ∷ bs) h = absurd (ground (arith, h))
appenders-equal (a ∷ more) [] h = absurd (ground (arith, h))
appenders-equal (a ∷ more) (b ∷ bs) h =
    let (same, rest) = and-both (appender_define_equal a b) (appender_defines_equal more bs) h in
    let (type, (_, file)) =
      and-four (same_type a.type b.type) (same_level a.level b.level)
        (text_eq a.formatter b.formatter) (text_eq a.file b.file) same in
    ap₂ (λ t ts. t ∷ ts)
      (ap₂ target_of (same_type-equal a.type b.type type) (eq_of_text_eq a.file b.file file))
      (appenders-equal more bs rest)

pub define_equal-same :
    (d before : LogDefine)
    → define_equal d before ≡ true
    → (before.level ≡ d.level) × (defined_targets before.appenders ≡ defined_targets d.appenders)
unfolding define_equal
define_equal-same d before h =
    let (_, (level, appenders)) =
      and-four (text_eq d.name before.name) (same_level d.level before.level)
        (text_eq d.formatter before.formatter) (appender_defines_equal d.appenders before.appenders)
        h in
    (
      sym (
          level_of_number d.level before.level
            ((==_iff (level_number d.level) (level_number before.level)).0 level)),
      sym (appenders-equal d.appenders before.appenders appenders),
    )
