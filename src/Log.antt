-- ===== src/Log.antt =====
-- log.h and log.c: the logger. A C string is the list of its bytes, without the NUL. `lvl` is a
-- number: the callers join the L_ constants.
pub mod Names
pub mod Lines
pub mod Routes
use hiredispool.Base.{
  ℕ, zero, suc, ◌+◌, ◌-◌, ◌*◌, ◌/◌, ◌%◌, Bool, true, false, ◌&&◌, ◌||◌, not, Option, none, some,
  List, [], ◌∷◌, ◌++◌, map, take, drop, length, ltb, leb, ◌==◌, if◌then◌else◌, ℤ, pos, negsuc,
  ltb_ℤ, leb_ℤ,
}

abbrev pub l_trace : ℕ
l_trace = 512

abbrev pub l_debug : ℕ
l_debug = 1024

abbrev pub l_info : ℕ
l_info = 2048

abbrev pub l_warn : ℕ
l_warn = 4096

abbrev pub l_error : ℕ
l_error = 8192

abbrev pub l_fatal : ℕ
l_fatal = 16384

abbrev pub l_cons : ℕ
l_cons = 32768

-- `lvl & ~L_CONS`
unfoldable pub plain : ℕ → ℕ
plain lvl = lvl / 65536 * 65536 + lvl % 32768

-- `lvl & L_CONS`
unfoldable pub has_cons : ℕ → Bool
has_cons lvl = lvl / 32768 % 2 == 1

pub data LogDest : Type 0 where
  log_dest_files log_dest_syslog log_dest_stdout log_dest_stderr log_dest_null : LogDest

-- `file` and `progname` are pointers; `none` is NULL.
pub record LogConfig : Type 0 where
  pub verbose : ℤ
  pub dest : LogDest
  pub file : Option (List ℕ)
  pub progname : List ℕ
  pub level_hold : ℤ
  pub print_millisec : Bool

-- LOG_CONFIG_INTERNAL, the type of the variable `C`.
pub record LogState : Type 0 where
  pub verbose : ℤ
  pub dest : LogDest
  pub dir : List ℕ
  pub file : List ℕ
  pub progname : List ℕ
  pub level_hold : ℤ
  pub print_millisec : Bool

-- `strncpy(to, from, size); to[size - 1] = 0;`
abbrev pub bounded_copy : ℕ → List ℕ → List ℕ
bounded_copy size s = take (size - 1) s

-- What the logger asks of libc: the text of the date "%04d%02d%02d", `none` where time fails; the time
-- stamps of a line with and without milliseconds; the text of "%04X"; and whether fopen succeeds.
pub record LogEnv : Type 0 where
  pub date : Option (List ℕ)
  pub stamp : List ℕ
  pub stamp_millisec : List ℕ
  pub hex : ℕ → List ℕ
  pub fopen : List ℕ → Bool

-- The table `L`, up to its end mark.
abbrev pub level_names : List (List ℕ × ℕ)
level_names =
    (32 ∷ 84 ∷ 82 ∷ 65 ∷ 67 ∷ 69 ∷ 32 ∷ [], l_trace)
    ∷ (32 ∷ 68 ∷ 69 ∷ 66 ∷ 85 ∷ 71 ∷ 32 ∷ [], l_debug)
    ∷ (32 ∷ 73 ∷ 78 ∷ 70 ∷ 79 ∷ 32 ∷ 32 ∷ [], l_info)
    ∷ (32 ∷ 87 ∷ 65 ∷ 82 ∷ 78 ∷ 32 ∷ 32 ∷ [], l_warn)
    ∷ (32 ∷ 69 ∷ 82 ∷ 82 ∷ 79 ∷ 82 ∷ 32 ∷ [], l_error)
    ∷ (32 ∷ 70 ∷ 65 ∷ 84 ∷ 65 ∷ 76 ∷ 32 ∷ [], l_fatal)
    ∷ []

unfoldable pub int2str : List (List ℕ × ℕ) → ℕ → List ℕ → List ℕ
int2str [] number def = def
int2str ((name, n) ∷ rest) number def = if n == number then name else int2str rest number def

unfoldable pub log_get_verbose : LogState → ℤ
log_get_verbose s = s.verbose
