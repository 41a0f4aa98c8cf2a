-- ===== src/Experimental.antt =====
-- experimental/redisclient/hiredispool.h and hiredispool.c: the pool of a later version, which keeps the
-- last error of each socket. The sockets and the instance, and connect_single_socket.
pub mod Acquire
pub mod Command
pub mod Lifecycle
pub mod Session
pub mod Forgetting
pub mod Client
pub mod Packs
use hiredispool.Base.{
  ℕ, suc, Option, none, some, List, [], ◌∷◌, take, set, length, ltb, if◌then◌else◌, ℤ, pos, negsuc,
  codes,
}
use hiredispool.Config.{Config, count_of}
use hiredispool.Platform.{Platform}
use hiredispool.Instance.{Socket}
use hiredispool.Connect.{Outcome, established, exhausted, connect_loop, on_success, on_failure}

-- The last error of a socket: `errstr` and `errhost` hold the characters before the NUL.
pub record LastError : Type 0 where
  pub err : ℤ
  pub errstr : List ℕ
  pub errhost : List ℕ
  pub errport : ℤ

-- REDIS_SOCKET: the fields that the first version has, and the others.
pub record ErrSocket : Type 0 where
  pub sock : Socket
  pub last : LastError

-- REDIS_INSTANCE, as in Instance.
pub record ErrInstance : Type 0 where
  pub connect_after : ℤ
  pub redis_pool : List ErrSocket
  pub last_used : Option ℕ
  pub config : Config

-- hiredis and the platform, with what this version asks of them besides: `c->errstr`, `c->tcp.host` and
-- `c->tcp.port` of a context, redisCommandArgv, and what malloc leaves in the fields of a last error.
pub record Hiredis (W : Type 0) : Type 0 where
  pub platform : Platform W
  pub errstr : ℕ → W → List ℕ
  pub tcp_host : ℕ → W → List ℕ
  pub tcp_port : ℕ → W → ℤ
  pub redis_command_argv : Option ℕ → List (List ℕ) → W → Option ℕ × W
  pub uninitialised : LastError

pub record ErrConnected (W : Type 0) : Type 0 where
  pub rc : ℤ
  pub sock : ErrSocket
  pub connect_after : ℤ
  pub world : W

-- `cur->next`
unfoldable pub next_of : ErrInstance → ℕ → Option ℕ
next_of s cur = if ltb (suc cur) (length s.redis_pool) then some (suc cur) else none

-- A write through the pointer to socket `cur`.
unfoldable pub store : ErrInstance → ℕ → ErrSocket → ErrInstance
store s cur y = record s { redis_pool = set s.redis_pool cur y }

-- The fields of the first version are written.
abbrev pub with_sock : ErrSocket → Socket → ErrSocket
with_sock y x = record y { sock = x }

unfoldable pub set_last_error : ErrSocket → List ℕ → ErrSocket
set_last_error y errstr = record y {
  last = record {
    err = negsuc 0;
    errstr = take 127 errstr;
    errhost = codes "N/A";
    errport = negsuc 0;
  };
}

module _ {W : Type 0} (t : Hiredis W) where
  -- memcpy takes the whole array, and strncpy 15 characters before the NUL.
  unfoldable pub save_last_error : ErrSocket → ℕ → W → ErrSocket
  save_last_error y c w = record y {
    last = record {
      err = t.platform.err c w;
      errstr = t.errstr c w;
      errhost = take 15 (t.tcp_host c w);
      errport = t.tcp_port c w;
    };
  }

  -- The two branches after the loop, before the context is freed.
  unfoldable pub keep_error : Option ℕ → ErrSocket → W → ErrSocket
  keep_error (some c) y w = save_last_error y c w
  keep_error none y w = set_last_error y (codes "Not enough memory")

  -- What follows the loop over the endpoints, which is that of the first version.
  unfoldable pub finish : Config → ℤ → ErrSocket → Outcome W → ErrConnected W
  finish k after y (established c x w) =
      let r = on_success t.platform k after c x w in
      record {
        rc = r.rc;
        sock = with_sock y r.sock;
        connect_after = r.connect_after;
        world = r.world;
      }
  finish k after y (exhausted c x w) =
      let r = on_failure t.platform k c x w in
      record {
        rc = r.rc;
        sock = with_sock (keep_error c y w) r.sock;
        connect_after = r.connect_after;
        world = r.world;
      }

  unfoldable pub connect_single_socket : Config → ℤ → ErrSocket → W → ErrConnected W
  connect_single_socket k after y w =
      finish k after y (connect_loop t.platform (count_of k) k y.sock w)
