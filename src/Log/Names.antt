-- ===== src/Log/Names.antt =====
-- The log file: _set_logfile, log_set_config and convert_logfilename of log.c.
pub mod Laws
pub mod Folders
use hiredispool.Base.{
  ℕ, zero, suc, ◌+◌, ◌-◌, Bool, true, false, Option, none, some, List, [], ◌∷◌, ◌++◌, take, length,
  ltb, ◌==◌, if◌then◌else◌,
}
use hiredispool.Log.{LogConfig, LogState, LogEnv, bounded_copy}

-- What precedes the last `c` in `s`, and the rest from that `c` on: strrchr.
unfoldable pub split_last : ℕ → List ℕ → Option (List ℕ × List ℕ)
split_last c [] = none
split_last c (x ∷ xs) = elim (split_last c xs) [
  | some (a, b) ↦ some (x ∷ a, b)
  | none ↦ if x == c then some ([], x ∷ xs) else none
]

-- The `while` loop over the separators: the directories handed to mkdir, in order. `before` is the
-- part of `namebuf` that the loop has passed.
unfoldable pub make_dirs : List ℕ → List ℕ → List (List ℕ)
make_dirs before [] = []
make_dirs before (x ∷ xs) =
    if x == b'/' then before ∷ make_dirs (before ++ x ∷ []) xs else make_dirs (before ++ x ∷ []) xs

-- The part before the last separator, if there is one; the old value otherwise.
unfoldable pub log_dir : List ℕ → List ℕ → List ℕ
log_dir old namebuf = elim (split_last b'/' namebuf) [
  | none ↦ old
  | some (a, b) ↦ bounded_copy 1024 a
]

-- The new state and the directories that were made.
unfoldable pub set_logfile : LogState → Option (List ℕ) → LogState × List (List ℕ)
set_logfile s none = (s, [])
set_logfile s (some filename) =
    let namebuf = bounded_copy 1024 filename in
    (
      record s { dir = log_dir s.dir namebuf; file = bounded_copy 1024 filename },
      make_dirs [] namebuf,
    )

unfoldable pub log_set_config : LogState → LogConfig → LogState × List (List ℕ)
log_set_config s c =
    let (t, dirs) = set_logfile (record s { verbose = c.verbose; dest = c.dest }) c.file in
    (
      record t {
        level_hold = c.level_hold;
        print_millisec = c.print_millisec;
        progname = bounded_copy 256 c.progname;
      },
      dirs,
    )

-- The name with the date before its last dot, or at its end where it has none.
unfoldable pub insert_date : List ℕ → List ℕ → List ℕ
insert_date origin date = elim (split_last b'.' origin) [
  | none ↦ origin ++ b'.' ∷ date
  | some (a, b) ↦ a ++ b'.' ∷ (date ++ b)
]

unfoldable pub convert_logfilename : LogEnv → List ℕ → ℕ → List ℕ
convert_logfilename env origin namelen =
    if ltb namelen (length origin + 10)
    then bounded_copy namelen origin
    else elim env.date [ none ↦ bounded_copy namelen origin | some date ↦ insert_date origin date ]
