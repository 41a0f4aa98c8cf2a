-- ===== src/Experimental/Client.antt =====
-- RedisClient of experimental/redisclient/RedisClient.h and RedisClient.cpp: commands on a pooled socket,
-- whose reply comes with what is known of the server or of the failure.
pub mod Statuses
use hiredispool.Base.{
  ℕ, ◌≡◌, ◌∙◌, refl, sym, ap, Option, none, some, List, [], ◌∷◌, ◌++◌, get_elem?, set, length, ℤ,
  pos, negsuc, codes, arith,
}
use hiredispool.Config.{Config}
use hiredispool.Ramcloud.{Reply, Info, Pack, Piece, Request, formatted, argv}
use hiredispool.Ramcloud.Watcher.{Clients}
use hiredispool.Experimental.{ErrSocket, ErrInstance, Hiredis}
use hiredispool.Experimental.Acquire.{redis_get_socket, redis_release_socket}
use hiredispool.Experimental.Command.{on_pointer}
use hiredispool.Experimental.Lifecycle.{redis_pool_create, redis_pool_destroy}

-- The overload of _setError for a text.
unfoldable pub set_error_text : List ℕ → Info
set_error_text errstr = record {
  err = negsuc 0;
  errstr = errstr;
  host = codes "N/A";
  port = negsuc 0;
}

-- The overload of _setError for a socket.
unfoldable pub set_error : ErrSocket → Info
set_error y = record {
  err = y.last.err;
  errstr = y.last.errstr;
  host = y.last.errhost;
  port = y.last.errport;
}

-- The world, and the pools that have been made, in the order in which they were made.
pub record Heap (W : Type 0) : Type 0 where
  pub world : W
  pub pools : List ErrInstance

-- A RedisClient: the pointer to its pool, and the configuration that it was made with.
pub record RedisClient : Type 0 where
  pub inst : ℕ
  pub conf : Config

module _ {W : Type 0} (t : Hiredis W) (reply_at : ℕ → W → Reply) where
  -- The context of the socket, which is not NULL there.
  unfoldable pub set_target : Option ℕ → W → Info
  set_target none w = record { err = pos 0; errstr = []; host = []; port = pos 0 }
  set_target (some c) w = record {
    err = pos 0;
    errstr = [];
    host = t.tcp_host c w;
    port = t.tcp_port c w;
  }

  -- The reply of a command on socket `y`, or what the socket says of the failure.
  unfoldable pub pack_of : Option ℕ → ErrSocket → W → Pack
  pack_of (some a) y w = record { reply = some (reply_at a w); info = set_target y.sock.conn w }
  pack_of none y w = record { reply = none; info = set_error y }

  module _ (send : Option ℕ → W → Option ℕ × W) where
    -- On the socket that the pool has returned, which the destructor of PooledSocket releases.
    unfoldable pub on_socket : ℕ → ErrInstance → W → Option Pack × ErrInstance × W
    on_socket i s w =
        let (reply, u, v) = on_pointer t send s i w in
        let (u1, v1) = redis_release_socket t u (some i) v in
        elim (get_elem? u.redis_pool i) [
          | none ↦ (none, u1, v1)
          | some y ↦ (some (pack_of reply y v), u1, v1)
        ]

    -- redisvCommand and redisCommandArgv, which differ in the function that sends. A search that does
    -- not end gives no reply here.
    unfoldable pub pooled : ErrInstance → W → Option Pack × ErrInstance × W
    pooled s w = elim (redis_get_socket t s w) [
      | none ↦ (none, s, w)
      | some (none, u, v) ↦
          let (u1, v1) = redis_release_socket t u none v in
          (
            some (record { reply = none; info = set_error_text (codes "No available connection") }),
            u1,
            v1,
          )
      | some (some i, u, v) ↦ on_socket i u v
    ]

  -- What is left after redis_pool_create.
  unfoldable pub keep_pool : Config → Heap W → Option ErrInstance × W → Option RedisClient × Heap W
  keep_pool conf h (none, v) = (none, record h { world = v })
  keep_pool conf h (some s, v) = (
    some (record { inst = length h.pools; conf = conf }),
    record { world = v; pools = h.pools ++ s ∷ [] },
  )

  -- The constructor, which throws where the pool cannot be created.
  unfoldable pub create_client : Config → Heap W → Option RedisClient × Heap W
  create_client conf h = keep_pool conf h (redis_pool_create t conf h.world)

  pub create_client-conf :
      (conf : Config) (h g : Heap W) (c : RedisClient)
      → create_client conf h ≡ (some c, g)
      → c.conf ≡ conf
  unfolding create_client keep_pool
  create_client-conf conf h g c e = kept (redis_pool_create t conf h.world) e
    where
      kept : (r : Option ErrInstance × W) → keep_pool conf h r ≡ (some c, g) → c.conf ≡ conf
      kept (none, v) q = cc q
      kept (some s, v) q = ground (arith, q)

  -- The destructor.
  unfoldable pub close_client : RedisClient → Heap W → Heap W
  close_client c h = record h {
    world = (redis_pool_destroy t (get_elem? h.pools c.inst) h.world).1;
  }

  -- A command on the pool of the client.
  unfoldable pub run_on :
      RedisClient → (Option ℕ → W → Option ℕ × W) → Heap W → Option Pack × Heap W
  run_on c send h = elim (get_elem? h.pools c.inst) [
    | none ↦ (none, h)
    | some s ↦
        let (p, u, v) = pooled send s h.world in
        (p, record { world = v; pools = set h.pools c.inst u })
  ]

  -- `print` makes the command of a format, as redisvFormatCommand does.
  module _ {D : Type 0} (print : List (Piece D) → List ℕ) where
    unfoldable pub client_command : RedisClient → Request D → Heap W → Option Pack × Heap W
    client_command c (formatted ps) h = run_on c (λ o v. t.platform.redisv_command o (print ps) v) h
    client_command c (argv args) h = run_on c (λ o v. t.redis_command_argv o args v) h

    -- The clients that the class Config makes.
    unfoldable pub clients : Clients (Heap W) RedisClient D
    clients = record {
      create = create_client;
      command = client_command;
      conf_of = λ c. c.conf;
      create_conf = create_client-conf;
    }
