-- ===== src/Tests/Log.antt =====
-- The theorems on the logger of log.c, each at an input that exercises it.
use hiredispool.Base.{
  ℕ, ◌≡◌, ◌≢◌, ◌≤◌, ◌⊎◌, refl, true, false, some, List, [], ◌∷◌, ◌++◌, pos, arith, length, All,
}
use hiredispool.Log.{LogState, LogEnv, log_dest_files, l_info, plain, int2str}
use hiredispool.Log.Names.{convert_logfilename, make_dirs}
use hiredispool.Log.Names.Laws.{Fits, Lacks, Named, convert_cases}
use hiredispool.Log.Names.Folders.{dotted_directory}
use hiredispool.Log.Lines.{head_of, stamp_of, level_text}
use hiredispool.Log.Lines.Shape.{IsPrintable}
use hiredispool.Log.Routes.{vlog}
use hiredispool.Log.Routes.Filters.{Filtered}
use hiredispool.Log.Routes.Outcomes.{Refused, Complained, Logged, vlog_outcomes}

-- 20260102
abbrev day : List ℕ
day = b'2' ∷ b'0' ∷ b'2' ∷ b'6' ∷ b'0' ∷ b'1' ∷ b'0' ∷ b'2' ∷ []

-- No file can be opened.
abbrev env : LogEnv
env = record {
  date = some day;
  stamp = b'1' ∷ b'2' ∷ [];
  stamp_millisec = b'1' ∷ b'2' ∷ b',' ∷ b'5' ∷ [];
  hex = λ n. b'0' ∷ [];
  fopen = λ n. false;
}

-- Messages go to the file `a.l`.
abbrev state : LogState
state = record {
  verbose = pos 1;
  dest = log_dest_files;
  dir = [];
  file = b'a' ∷ b'.' ∷ b'l' ∷ [];
  progname = b'p' ∷ [];
  level_hold = pos 0;
  print_millisec = true;
}

abbrev hello : List ℕ
hello = b'h' ∷ b'i' ∷ []

head_length : length (head_of env state l_info) ≤ 8190
unfolding head_of stamp_of level_text plain int2str
head_length = omega arith

day_length : (d : List ℕ) → env.date ≡ some d → length d ≡ 8
day_length d e = ground arith

convert_cases_example :
    Fits 1024 (convert_logfilename env (state.file) 1024)
    × Named env (state.file) 1024 (convert_logfilename env (state.file) 1024)
convert_cases_example = convert_cases env (state.file) 1024 (omega arith) day_length

vlog_outcomes_example :
    (Filtered state l_info × (vlog env state l_info hello ≡ (pos 0, [])))
    ⊎ ((¬ Filtered state l_info)
        × ((Refused env state l_info hello
              × Complained env state l_info hello (vlog env state l_info hello))
            ⊎ (¬ Refused env state l_info hello
                × Logged env state l_info hello (vlog env state l_info hello))))
vlog_outcomes_example = vlog_outcomes env state l_info hello head_length

head-IsPrintable : All IsPrintable (head_of env state l_info)
unfolding head_of stamp_of level_text plain int2str
head-IsPrintable = ground arith

hello-IsPrintable : All IsPrintable hello
hello-IsPrintable = ground arith

head_length_exact : length (head_of env state l_info) ≡ 11
unfolding head_of stamp_of level_text plain int2str
head_length_exact = refl

hello-Lacks_slash : Lacks b'/' hello
hello-Lacks_slash = (λ e. ground arith, (λ e. ground arith, tt))

hello-Lacks_dot : Lacks b'.' hello
hello-Lacks_dot = (λ e. ground arith, (λ e. ground arith, tt))

folder-Lacks_dot : Lacks b'.' (b'd' ∷ [])
folder-Lacks_dot = (λ e. ground arith, tt)

dotted_directory_example :
    (convert_logfilename env ((b'v' ∷ []) ++ b'.' ∷ ((b'd' ∷ []) ++ b'/' ∷ hello)) 1024
      ≡ ((b'v' ∷ []) ++ b'.' ∷ (day ++ b'.' ∷ (b'd' ∷ []))) ++ b'/' ∷ hello)
    × All
        (λ x. x ≢ (b'v' ∷ []) ++ b'.' ∷ (day ++ b'.' ∷ (b'd' ∷ [])))
        (make_dirs [] ((b'v' ∷ []) ++ b'.' ∷ ((b'd' ∷ []) ++ b'/' ∷ hello)))
dotted_directory_example =
    dotted_directory env (b'v' ∷ []) (b'd' ∷ []) hello day 1024 folder-Lacks_dot hello-Lacks_dot
      hello-Lacks_slash refl (omega arith) (omega arith)
