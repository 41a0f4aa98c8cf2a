-- ===== src/Client.antt =====
-- RedisClient and PooledSocket of RedisClient.h and RedisClient.cpp: a client that takes a socket from
-- the pool for each command and gives it back. `stuck` does not happen on a well-formed pool.
pub mod Commands
pub mod Replies
use hiredispool.Base.{ℕ, Option, none, some, List, [], ◌∷◌}
use hiredispool.Config.{Config}
use hiredispool.Platform.{Platform}
use hiredispool.Instance.{Instance}
use hiredispool.Acquire.{Search, found, nothing, stuck, redis_get_socket, redis_release_socket}
use hiredispool.Command.{redis_vcommand}
use hiredispool.Lifecycle.{redis_pool_create, redis_pool_destroy}

module _ {W : Type 0} (p : Platform W) where
  -- The body of redisvCommand on a pooled socket that is not NULL, and the destructor of the socket,
  -- which releases it.
  unfoldable pub on_socket : ℕ → List ℕ → Instance → W → Option ℕ × Instance × W
  on_socket i cmd t v =
      let (reply, u, x) = redis_vcommand p t i cmd v in
      let (u1, x1) = redis_release_socket p u (some i) x in (reply, u1, x1)

  unfoldable pub redisv_command : Instance → List ℕ → W → Option ℕ × Instance × W
  redisv_command s cmd w = elim (redis_get_socket p s w) [
    | found i t v ↦ on_socket i cmd t v
    | nothing t v ↦ let (t1, v1) = redis_release_socket p t none v in (none, t1, v1)
    | stuck ↦ (none, s, w)
  ]

  -- redisCommand only collects the arguments for it.
  unfoldable pub redis_command : Instance → List ℕ → W → Option ℕ × Instance × W
  redis_command s cmd w = redisv_command s cmd w

  -- One command after the other, with the replies.
  unfoldable pub redis_commands : List (List ℕ) → Instance → W → List (Option ℕ) × Instance × W
  redis_commands [] s w = ([], s, w)
  redis_commands (cmd ∷ cmds) s w =
      let (reply, t, v) = redis_command s cmd w in
      let (replies, u, x) = redis_commands cmds t v in (reply ∷ replies, u, x)

  -- The constructor, which throws where the pool cannot be created, and the destructor.
  unfoldable pub redis_client : Config → W → Option Instance × W
  redis_client conf w = redis_pool_create p conf w

  unfoldable pub close_client : Instance → W → W
  close_client s w = (redis_pool_destroy p (some s) w).1
