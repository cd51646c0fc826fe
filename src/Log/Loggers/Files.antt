-- ===== src/Log/Loggers/Files.antt =====
-- sylar/log.cpp: FileLogAppender, on a file as the text it has. `std::ofstream::open` of a name alone
-- empties the file that is there, as the C++ library documents.
use sylar_leo.Base.{
  ℕ, ◌+◌, ◌≤◌, ◌<◌, ◌≡◌, refl, true, false, List, [], ◌∷◌, ◌++◌, leb, if◌then◌else◌, arith,
}
use sylar_leo.Base.Text.{Text}
use sylar_leo.Log.{Level}
use sylar_leo.Log.Loggers.{reaches}

pub record FileLogAppender : Type 0 where
  pub filename : Text
  pub level : Level
  pub last_time : ℕ
  pub content : Text

unfoldable pub reopen : FileLogAppender → FileLogAppender
reopen a = record a { content = [] }

unfoldable pub write_line : Text → FileLogAppender → FileLogAppender
write_line line a = record a { content = a.content ++ line }

-- `log`, for an event of that level and time, with the line that the formatter writes.
unfoldable pub log_file : Level → (now : ℕ) → (line : Text) → FileLogAppender → FileLogAppender
unfolding reopen write_line
log_file level now line a =
    let renewed = record (reopen a) { last_time = now } in
    if reaches level a.level
    then if leb (a.last_time + 3) now then write_line line renewed else write_line line a
    else a

-- An event that the appender writes: its time and its line.
abbrev pub log_all : Level → List (ℕ × Text) → FileLogAppender → FileLogAppender
log_all level [] a = a
log_all level ((now, line) ∷ events) a = log_all level events (log_file level now line a)

-- An event three seconds or more behind the time at which the file was last opened leaves the file with
-- its own line and nothing of what was written before; any other event that the appender's level lets
-- through is added to the file.
pub log_file_lem :
    (level : Level) (now : ℕ) (line : Text) (a : FileLogAppender)
    → reaches level a.level ≡ true
    → (a.last_time + 3 ≤ now → (log_file level now line a).content ≡ line)
      × (now < a.last_time + 3 → (log_file level now line a).content ≡ a.content ++ line)
unfolding log_file reopen write_line
log_file_lem level now line a on = (
  λ h. let late : leb (a.last_time + 3) now ≡ true = ground arith in rw (on, late) refl,
  λ h. let early : leb (a.last_time + 3) now ≡ false = ground arith in rw (on, early) refl,
)
