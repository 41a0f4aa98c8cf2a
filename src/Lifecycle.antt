-- ===== src/Lifecycle.antt =====
-- redis_pool_create, redis_init_socketpool, redis_pool_destroy, redis_poolfree and
-- redis_close_socket of hiredispool.c. Memory allocation is taken to succeed, as the code does.
pub mod Build
pub mod Teardown
pub mod Create
pub mod Ledger
use hiredispool.Base.{
  ℕ, zero, suc, ◌%◌, false, Option, none, some, List, [], ◌∷◌, if◌then◌else◌, ℤ, pos, negsuc,
  pos_part, ltb_ℤ, is_zero,
}
use hiredispool.Config.{Config, count_of, accept_config}
use hiredispool.Platform.{Platform}
use hiredispool.Instance.{sockunconnected, sockconnected, Socket, Instance}
use hiredispool.Connect.{connect_single_socket}

-- Socket number `i` as malloc and the assignments leave it.
unfoldable pub new_socket : Config → ℕ → Socket
new_socket k i = record {
  id = i;
  backup = i % count_of k;
  inuse = false;
  state = sockunconnected;
  conn = none;
}

-- The instance before its sockets are made.
abbrev pub blank : Config → Instance
blank k = record { connect_after = pos 0; redis_pool = []; last_used = none; config = k }

module _ {W : Type 0} (p : Platform W) where
  -- `if (time(NULL) > inst->connect_after) connect_single_socket(...)`
  unfoldable pub first_connect : Instance → Socket → W → Instance × Socket × W
  first_connect s x w =
      let (now, w1) = p.time w in
      let r = connect_single_socket p s.config s.connect_after x w1 in
      if ltb_ℤ s.connect_after now
      then (record s { connect_after = r.connect_after }, r.sock, r.world)
      else (s, x, w1)

  -- Add the socket to the head of the list.
  abbrev pub link : Instance × Socket × W → Instance × W
  link (s, x, w) = (record s { redis_pool = x ∷ s.redis_pool }, w)

  -- The loop, from socket `i` on, by the number of sockets left. The code is 0 or -1.
  unfoldable pub init_loop : ℕ → ℕ → Instance → W → ℤ × Instance × W
  init_loop zero i s w = (pos 0, s, w)
  init_loop (suc n) i s w =
      let (rc, w1) = p.mutex_init i w in
      let (t, w2) = link (first_connect s (new_socket s.config i) w1) in
      let rest = init_loop n (suc i) t w2 in if is_zero rc then rest else (negsuc 0, s, w1)

  unfoldable pub redis_init_socketpool : Instance → W → ℤ × Instance × W
  redis_init_socketpool s w =
      let blanked : Instance = record s { connect_after = pos 0; redis_pool = [] } in
      let (rc, t, v) = init_loop (pos_part s.config.num_redis_socks) 0 blanked w in
      (rc, record t { last_used = none }, v)

  unfoldable pub redis_close_socket : Socket → W → W
  redis_close_socket x w = elim x.state [
    | sockconnected ↦ (p.mutex_destroy x.id (p.redis_free x.conn w)).1
    | sockunconnected ↦ (p.mutex_destroy x.id w).1
  ]

  unfoldable pub redis_poolfree : List Socket → W → W
  redis_poolfree [] w = w
  redis_poolfree (x ∷ xs) w = redis_poolfree xs (redis_close_socket x w)

  -- The freed memory of the instance is gone, so only the world is left. NULL gives -1.
  unfoldable pub redis_pool_destroy : Option Instance → W → ℤ × W
  redis_pool_destroy none w = (negsuc 0, w)
  redis_pool_destroy (some s) w = (pos 0, redis_poolfree s.redis_pool w)

  -- `none` is the return value -1, with `*instance` left alone; `some` is 0.
  unfoldable pub build : ℤ × Instance × W → Option Instance × W
  build (rc, s, w) =
      if ltb_ℤ rc (pos 0) then (none, (redis_pool_destroy (some s) w).1) else (some s, w)

  unfoldable pub redis_pool_create : Config → W → Option Instance × W
  redis_pool_create c w = elim (accept_config c) [
    | none ↦ (none, (redis_pool_destroy (some (blank c)) w).1)
    | some k ↦ build (redis_init_socketpool (blank k) w)
  ]
