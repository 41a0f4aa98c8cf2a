-- ===== src/Ramcloud/Timing.antt =====
-- microsec, the class Command and Client::reportStatus of RedisClientYaf.cpp and RedisClientYaf.h: how
-- long a command takes, and the line of the log that says so.
pub mod Exact
use hiredispool.Base.{
  ℕ, suc, ◌-◌, ◌%◌, Option, none, some, List, [], ◌∷◌, ℤ, pos, negsuc, neg, mul_ℕ, ◌+ℤ◌, ltb,
  if◌then◌else◌, c_str, codes,
}
use hiredispool.Config.{Timeval}
use hiredispool.Ramcloud.{Info, Pack, Status, Request, formatted, word, str, bin, Server}
use hiredispool.Ramcloud.Replies.{reply2status}

-- A 64-bit integer as it is stored: the low 64 bits, signed.
unfoldable pub low_word : ℤ → ℕ
low_word (pos n) = n % 18446744073709551616
low_word (negsuc n) = 18446744073709551615 - n % 18446744073709551616

unfoldable pub to_int64 : ℤ → ℤ
to_int64 z =
    let b = low_word z in
    if ltb b 9223372036854775808 then pos b else neg (18446744073709551616 - b)

unfoldable pub opposite : ℤ → ℤ
opposite (pos n) = neg n
opposite (negsuc n) = pos (suc n)

-- The arguments of logth in reportStatus, in the order of its format.
pub record Report : Type 0 where
  pub command : List ℕ
  pub host : List ℕ
  pub port : ℤ
  pub status : List ℕ
  pub cost : ℤ

-- gettimeofday, where `none` is a failure, which leaves the struct as it was, and logth.
pub record Clock (W : Type 0) : Type 0 where
  pub gettimeofday : W → Option Timeval × W
  pub log_th : Report → W → W

-- The class Command.
pub record Command : Type 0 where
  pub start : ℤ
  pub command : List ℕ

-- `tv`, which is cleared beforehand.
unfoldable pub read_into : Option Timeval → Timeval
read_into none = record { tv_sec = pos 0; tv_usec = pos 0 }
read_into (some tv) = tv

unfoldable pub in_microseconds : Timeval → ℤ
in_microseconds tv = to_int64 (mul_ℕ 1000 (mul_ℕ 1000 tv.tv_sec) +ℤ tv.tv_usec)

-- `p ? p->info.target.host.c_str() : ""` and `p ? p->info.target.port : 0`
unfoldable pub host_of : Option Pack → List ℕ
host_of none = []
host_of (some p) = c_str p.info.host

unfoldable pub port_of : Option Pack → ℤ
port_of none = pos 0
port_of (some p) = p.info.port

module _ {W : Type 0} (c : Clock W) where
  unfoldable pub microsec : W → ℤ × W
  microsec w = let (tv, w1) = c.gettimeofday w in (in_microseconds (read_into tv), w1)

  -- The constructor of Command.
  unfoldable pub construct_command : List ℕ → W → Command × W
  construct_command name w =
      let (now, w1) = microsec w in (record { start = now; command = name }, w1)

  unfoldable pub duration : Command → W → ℤ × W
  duration cmd w = let (now, w1) = microsec w in (to_int64 (now +ℤ opposite cmd.start), w1)

  unfoldable pub report_status : Option Pack → Command → Status → W → W
  report_status p cmd s w =
      let (cost, w1) = duration cmd w in
      c.log_th
        (record {
          command = c_str cmd.command;
          host = host_of p;
          port = port_of p;
          status = c_str s.code;
          cost = cost;
        })
        w1

  -- Client::set, with the time that it takes: what every command does around its request.
  unfoldable pub timed_set : {D : Type 0} → Server W D → List ℕ → List ℕ → W → Status × W
  timed_set t key val w =
      let (cmd, w1) = construct_command (codes "SET") w in
      let (reply, w2) = t.command (formatted (word (codes "SET") ∷ str key ∷ bin val ∷ [])) w1 in
      let s = reply2status reply in (s, report_status reply cmd s w2)
