-- ===== src/Experimental/Lifecycle.antt =====
-- redis_pool_create, redis_init_socketpool, redis_poolfree, redis_close_socket and redis_pool_destroy of
-- experimental/redisclient/hiredispool.c. The sockets are made, but not connected.
pub mod Build
pub mod Create
use hiredispool.Base.{
  ℕ, zero, suc, Option, none, some, List, [], ◌∷◌, if◌then◌else◌, ℤ, pos, negsuc, pos_part, ltb_ℤ,
  is_zero,
}
use hiredispool.Config.{Config, accept_config}
use hiredispool.Instance.{SockState, sockunconnected, sockconnected}
use hiredispool.Lifecycle
use hiredispool.Experimental.{ErrSocket, ErrInstance, Hiredis}

unfoldable pub blank : Config → ErrInstance
blank k = record { connect_after = pos 0; redis_pool = []; last_used = none; config = k }

module _ {W : Type 0} (t : Hiredis W) where
  -- Socket number `i`, with the fields that no one has written yet.
  unfoldable pub new_socket : Config → ℕ → ErrSocket
  new_socket k i = record { sock = Lifecycle.new_socket k i; last = t.uninitialised }

  -- The loop, from socket `i` on, by the number of sockets left. The code is 0 or -1.
  unfoldable pub init_loop : ℕ → ℕ → ErrInstance → W → ℤ × ErrInstance × W
  init_loop zero i s w = (pos 0, s, w)
  init_loop (suc n) i s w =
      let (rc, w1) = t.platform.mutex_init i w in
      let added : ErrInstance = record s { redis_pool = new_socket s.config i ∷ s.redis_pool } in
      let rest = init_loop n (suc i) added w1 in if is_zero rc then rest else (negsuc 0, s, w1)

  unfoldable pub redis_init_socketpool : ErrInstance → W → ℤ × ErrInstance × W
  redis_init_socketpool s w =
      let blanked : ErrInstance = record s { connect_after = pos 0; redis_pool = [] } in
      let (rc, u, v) = init_loop (pos_part s.config.num_redis_socks) 0 blanked w in
      (rc, record u { last_used = none }, v)

  unfoldable pub redis_close_socket : ErrSocket → W → W
  redis_close_socket y w = elim y.sock.state [
    | sockconnected ↦ (t.platform.mutex_destroy y.sock.id (t.platform.redis_free y.sock.conn w)).1
    | sockunconnected ↦ (t.platform.mutex_destroy y.sock.id w).1
  ]

  unfoldable pub redis_poolfree : List ErrSocket → W → W
  redis_poolfree [] w = w
  redis_poolfree (y ∷ ys) w = redis_poolfree ys (redis_close_socket y w)

  unfoldable pub redis_pool_destroy : Option ErrInstance → W → ℤ × W
  redis_pool_destroy none w = (negsuc 0, w)
  redis_pool_destroy (some s) w = (pos 0, redis_poolfree s.redis_pool w)

  -- `none` is the return value -1, with `*instance` left alone; `some` is 0.
  unfoldable pub build : ℤ × ErrInstance × W → Option ErrInstance × W
  build (rc, s, w) =
      if ltb_ℤ rc (pos 0) then (none, (redis_pool_destroy (some s) w).1) else (some s, w)

  unfoldable pub redis_pool_create : Config → W → Option ErrInstance × W
  redis_pool_create c w = elim (accept_config c) [
    | none ↦ (none, (redis_pool_destroy (some (blank c)) w).1)
    | some k ↦ build (redis_init_socketpool (blank k) w)
  ]
