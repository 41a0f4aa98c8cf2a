-- ===== src/Platform.antt =====
-- What the pool calls and this repository does not implement: hiredis, the pthread mutexes, the
-- clock and the random numbers of libc. A world `W` stands for all that lies outside the memory of
-- the pool; each call may change it. A context is known by its address, a mutex by the id of the
-- socket that holds it.
pub mod Laws
use hiredispool.Base.{ℕ, Option, List, ℤ}
use hiredispool.Config.{Timeval}

pub record Platform (W : Type 0) : Type 0 where
  -- redisConnectWithTimeout: `none` is NULL
  pub redis_connect_with_timeout : List ℕ → ℤ → Timeval → W → Option ℕ × W
  -- `c->err`
  pub err : ℕ → W → ℤ
  -- redisSetTimeout, redisEnableKeepAlive: 0 is REDIS_OK
  pub redis_set_timeout : ℕ → Timeval → W → ℤ × W
  pub redis_enable_keep_alive : ℕ → W → ℤ × W
  pub redis_free : Option ℕ → W → W
  -- redisvCommand of a context and the formatted command: a reply, or `none` for NULL
  pub redisv_command : Option ℕ → List ℕ → W → Option ℕ × W
  -- time(NULL), in seconds
  pub time : W → ℤ × W
  pub rand : W → ℕ × W
  -- 0 is success, anything else an error code
  pub mutex_init : ℕ → W → ℤ × W
  pub mutex_trylock : ℕ → W → ℤ × W
  pub mutex_unlock : ℕ → W → ℤ × W
  pub mutex_destroy : ℕ → W → ℤ × W
