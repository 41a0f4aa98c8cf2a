-- ===== src/Log/Routes.antt =====
-- vlog of log.c: where a message goes, and the functions log_, log_debug and log_trace, which call it.
-- The text stands for the format and its arguments.
pub mod Filters
pub mod Outcomes
pub mod Priorities
use hiredispool.Base.{
  ℕ, Bool, true, false, ◌&&◌, Option, none, some, List, [], ◌∷◌, ltb, leb, if◌then◌else◌, ℤ, pos,
  negsuc, ltb_ℤ, leb_ℤ, is_zero,
}
use hiredispool.Log.{
  LogDest, log_dest_files, log_dest_syslog, log_dest_stdout, log_dest_stderr, log_dest_null,
  LogState, LogEnv, plain, has_cons, l_trace, l_debug, l_info, l_warn, l_error, l_fatal,
  log_get_verbose,
}
use hiredispool.Log.Names.{convert_logfilename}
use hiredispool.Log.Lines.{line_of, shown}

pub data Stream : Type 0 where
  stdout stderr : Stream
  log_file : List ℕ → Stream

-- What vlog writes, in order. `complain` is the message on stderr that the file cannot be opened,
-- with the text in it.
pub data Event : Type 0 where
  fputs : Stream → List ℕ → Event
  fflush : Stream → Event
  fclose : Stream → Event
  syslog : ℕ → List ℕ → Event
  complain : List ℕ → List ℕ → List ℕ → Event

-- The priority for the system log: LOG_EMERG is 0, LOG_ALERT 1, LOG_CRIT 2, LOG_ERR 3, LOG_WARNING 4,
-- LOG_NOTICE 5 and LOG_DEBUG 7.
unfoldable pub priority : ℕ → ℕ
priority lvl =
    if ltb 0 lvl && leb lvl l_debug
    then 7
    else if ltb l_debug lvl && leb lvl l_info
    then 5
    else if ltb l_info lvl && leb lvl l_warn
    then 4
    else if ltb l_warn lvl && leb lvl l_error
    then 3
    else if ltb l_error lvl && leb lvl l_fatal
    then 2
    else if ltb l_fatal lvl
    then 1
    else 0

-- The stream for a level on the console.
unfoldable pub console_stream : ℕ → Stream
console_stream lvl = if ltb (plain lvl) l_warn then stdout else stderr

-- The copy on the console of a line that went to a file.
unfoldable pub console : LogState → ℕ → List ℕ → List Event
console s lvl p =
    let out = console_stream lvl in
    if has_cons lvl
    then fputs out p ∷ fflush out ∷ []
    else if is_zero s.verbose
    then []
    else fputs out p ∷ []

-- The output to a stream.
unfoldable pub print : LogState → ℕ → List ℕ → Stream → List Event
print s lvl p stdout = fputs stdout p ∷ fflush stdout ∷ []
print s lvl p stderr = fputs stderr p ∷ fflush stderr ∷ []
print s lvl p (log_file n) = fputs (log_file n) p ∷ fclose (log_file n) ∷ console s lvl p

-- With the destination LOG_DEST_FILES.
unfoldable pub to_file : LogEnv → LogState → ℕ → List ℕ → ℤ × List Event
to_file env s lvl text = elim s.file [
  | [] ↦ (pos 0, print s lvl (shown env s lvl text) stdout)
  | c ∷ cs ↦
      let name = convert_logfilename env (c ∷ cs) 1024 in
      if env.fopen name
      then (pos 0, print s lvl (shown env s lvl text) (log_file name))
      else (negsuc 0, complain s.progname name text ∷ [])
]

-- What follows the filters.
unfoldable pub deliver : LogEnv → LogState → ℕ → List ℕ → ℤ × List Event
deliver env s lvl text = elim s.dest [
  | log_dest_stdout ↦ (pos 0, print s lvl (shown env s lvl text) stdout)
  | log_dest_stderr ↦ (pos 0, print s lvl (shown env s lvl text) stderr)
  | log_dest_files ↦ to_file env s lvl text
  | log_dest_syslog ↦ (pos 0, syslog (priority (plain lvl)) (line_of env s lvl text) ∷ [])
  | log_dest_null ↦ (pos 0, [])
]

unfoldable pub vlog : LogEnv → LogState → ℕ → List ℕ → ℤ × List Event
vlog env s lvl text =
    if ltb_ℤ (pos (plain lvl)) s.level_hold
    then (pos 0, [])
    else if is_zero s.verbose && leb (plain lvl) l_debug
    then (pos 0, [])
    else deliver env s lvl text

unfoldable pub log_debug : LogEnv → LogState → List ℕ → ℤ × List Event
log_debug env s text = vlog env s l_debug text

unfoldable pub log_trace : LogEnv → LogState → List ℕ → ℤ × List Event
log_trace env s text = vlog env s l_trace text

unfoldable pub log_ : LogEnv → LogState → ℕ → List ℕ → ℤ × List Event
log_ env s lvl text = vlog env s lvl text

-- The macros of log.h: DEBUG is `debug 0`, and DEBUG2 to DEBUG5 are `debug 1` to `debug 4`.
unfoldable pub debug : ℕ → LogEnv → LogState → List ℕ → ℤ × List Event
debug n env s text =
    let v = log_get_verbose s in
    let call = log_debug env s text in
    if leb_ℤ (pos 0) v && leb_ℤ v (pos n) then (pos 0, []) else call

-- TRACE is `trace 0`, and TRACE2 to TRACE5 are `trace 1` to `trace 4`.
unfoldable pub trace : ℕ → LogEnv → LogState → List ℕ → ℤ × List Event
trace n env s text =
    let call = log_trace env s text in
    if leb_ℤ (negsuc n) (log_get_verbose s) then (pos 0, []) else call
