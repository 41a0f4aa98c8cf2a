-- ===== src/Log/Lines.antt =====
-- The line that vlog of log.c makes of a message: its `buffer`. The message is the text that the
-- format and its arguments make. `char` is signed, as on x86, where the code runs.
pub mod Shape
use hiredispool.Base.{
  ℕ, ◌-◌, Bool, true, false, ◌||◌, List, [], ◌∷◌, ◌++◌, map, take, drop, length, ltb, leb, ◌==◌,
  if◌then◌else◌, pos, negsuc,
}
use hiredispool.Log.{LogDest, log_dest_syslog, LogState, LogEnv, plain, int2str, level_names}

-- `sprintf(deflvl, " L%04X ", ...)` and the name of the level. The eight bytes of `deflvl` hold four
-- hexadecimal digits: a level with more overflows the buffer, which the model leaves out.
unfoldable pub level_text : LogEnv → ℕ → List ℕ
level_text env lvl =
    int2str level_names (plain lvl) (b' ' ∷ b'L' ∷ env.hex (plain lvl) ++ b' ' ∷ [])

-- What stands in the buffer up to `len0`. There is none for the system log.
unfoldable pub stamp_of : LogEnv → LogState → List ℕ
stamp_of env s = elim s.dest [
  | log_dest_syslog ↦ []
  | _ ↦ if s.print_millisec then env.stamp_millisec else env.stamp
]

-- What stands in the buffer up to `len`.
unfoldable pub head_of : LogEnv → LogState → ℕ → List ℕ
head_of env s lvl = elim s.dest [ log_dest_syslog ↦ [] | _ ↦ stamp_of env s ++ level_text env lvl ]

-- The body of the loop that filters out characters.
unfoldable pub clean_byte : ℕ → ℕ
clean_byte x =
    if (x == b'\r') || (x == b'\n') then b' ' else (if ltb x 32 || leb 128 x then b'?' else x)

-- `vsnprintf(buffer + len, sizeof(buffer) - len - 1, fmt, ap)`, with its NUL, the loop, and
-- `strcat(buffer, "\n")`.
unfoldable pub line_of : LogEnv → LogState → ℕ → List ℕ → List ℕ
line_of env s lvl text =
    let head = head_of env s lvl in
    map clean_byte (head ++ take (8192 - length head - 1 - 1) text) ++ b'\n' ∷ []

-- `p`: the line, without its time stamp if `verbose` is 1.
unfoldable pub shown : LogEnv → LogState → ℕ → List ℕ → List ℕ
shown env s lvl text =
    let line = line_of env s lvl text in
    let rest = drop (length (stamp_of env s)) line in
    elim s.verbose [ pos v ↦ if v == 1 then rest else line | negsuc v ↦ line ]
