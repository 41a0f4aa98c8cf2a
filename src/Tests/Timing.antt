-- ===== src/Tests/Timing.antt =====
-- The theorem on the times that are logged, at a clock that tells a list of times.
use hiredispool.Base.{
  ℕ, ◌+◌, ◌*◌, ◌≡◌, refl, Option, none, some, List, [], ◌∷◌, pos, negsuc, codes, c_str, arith,
}
use hiredispool.Config.{Timeval}
use hiredispool.Ramcloud.{status, Pack, unpacked, Server}
use hiredispool.Ramcloud.Replies.{reply2status}
use hiredispool.Ramcloud.Timing.{Report, Clock, host_of, port_of, timed_set}
use hiredispool.Ramcloud.Timing.Exact.{tells, report_exact}

-- The times to come, and the lines of the log.
abbrev World : Type 0
World = List Timeval × List Report

abbrev next_time : World → Option Timeval × World
next_time ([], log) = (none, ([], log))
next_time (tv ∷ tvs, log) = (some tv, (tvs, log))

abbrev clock : Clock World
clock = record { gettimeofday = next_time; log_th = λ r w. (w.0, r ∷ w.1) }

abbrev stored : Pack
stored = record {
  reply = some (status (codes "OK"));
  info = record { err = pos 0; errstr = []; host = codes "10.0.0.1"; port = pos 80 };
}

abbrev storing : Server World ℕ
storing = record {
  command = λ r w. (some stored, w);
  print_double = λ x. [];
  atof = λ s. 1;
  atol = λ s. pos 1;
  marshal = λ m. none;
  marshal_error = [];
  unmarshal = λ s m. unpacked m;
}

-- The clock is set back by a second while the command runs.
abbrev earlier : Timeval
earlier = record { tv_sec = pos 1764167491; tv_usec = pos 250 }

abbrev later : Timeval
later = record { tv_sec = pos 1764167490; tv_usec = pos 750 }

report_exact_example :
    timed_set clock storing (codes "k") (codes "v") (earlier ∷ later ∷ [], []) ≡ (
      reply2status (some stored),
      (
        [],
        record {
          command = codes "SET";
          host = host_of (some stored);
          port = port_of (some stored);
          status = c_str (reply2status (some stored)).code;
          cost = negsuc 999499;
        }
            ∷ [],
      ),
    )
report_exact_example =
    report_exact clock storing (codes "k") (codes "v") (earlier ∷ later ∷ [], []) (later ∷ [], [])
      (later ∷ [], []) ([], []) (some earlier) (some later) (1764167491 * 1000000 + 250)
      (1764167490 * 1000000 + 750) (some stored) refl refl refl
      (tells 1764167491 250 (omega arith) (omega arith))
      (tells 1764167490 750 (omega arith) (omega arith))
