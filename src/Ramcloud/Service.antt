-- ===== src/Ramcloud/Service.antt =====
-- The parts of anka::ramcloud::Client together: the methods of RedisClientYaf.cpp over the class Config and
-- the clients that it keeps.
pub mod Answers
pub mod Errors
pub mod Apart
pub mod Histories
use hiredispool.Base.{List, [], ◌∷◌, ℕ, ℤ}
use hiredispool.Ramcloud.{Server, Request}
use hiredispool.Ramcloud.Watcher.{Clients, ConfigWatcher, my_redis_command, Notice, notice}

-- What can happen: the class Config is told something, or a client is asked for, or a command is given on a
-- database.
pub data Happening (D : Type 0) : Type 0 where
  noticed : Notice → Happening D
  commanded : List ℕ → Request D → Happening D

module _ {W C D : Type 0} (l : Clients W C D) (atoi : List ℕ → ℤ) where
  unfoldable pub happen : Happening D → ConfigWatcher C × W → ConfigWatcher C × W
  happen (noticed n) o = notice l atoi n o
  happen (commanded dbname request) o =
      let (_, s, w) = my_redis_command l dbname request o in (s, w)

  unfoldable pub happen_all : List (Happening D) → ConfigWatcher C × W → ConfigWatcher C × W
  happen_all [] o = o
  happen_all (e ∷ es) o = happen_all es (happen e o)

-- What a method of the object for database `dbname` asks of its surroundings: its command goes through
-- _init to the client of the database; the rest is that of `libc`.
module _ {W C D : Type 0} (l : Clients W C D) (libc : Server W D) where
  unfoldable pub over_config : List ℕ → Server (ConfigWatcher C × W) D
  over_config dbname = record {
    command =
        λ request o. let (reply, s, w) = my_redis_command l dbname request o in (reply, (s, w));
    print_double = libc.print_double;
    atof = libc.atof;
    atol = libc.atol;
    marshal = libc.marshal;
    marshal_error = libc.marshal_error;
    unmarshal = libc.unmarshal;
  }
