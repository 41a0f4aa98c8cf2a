-- ===== src/Ramcloud/Service/Errors.antt =====
-- Commands on databases that cannot be asked, from the method down to the pool.
use hiredispool.Base
use hiredispool.Base.{
  get_elem?, ℕ, ◌≡◌, ◌≢◌, ◌⊎◌, inl, inr, ◌∙◌, refl, sym, ap, Option, none, some, Option-cases, List,
  [], ◌∷◌, codes, arith,
}
use hiredispool.Config.{Config, accept_config}
use hiredispool.Ramcloud.{
  Server, Status, Request, Pack, reads, Reply, Piece, formatted, argv, reply_of,
}
use hiredispool.Ramcloud.Meta.{Meta, to_conf}
use hiredispool.Ramcloud.Meta.Laws.{IsReady, to_conf_accepted}
use hiredispool.Ramcloud.Replies.{error_text, reply2status, reply2string}
use hiredispool.Ramcloud.Strings.{set, get, mget}
use hiredispool.Ramcloud.Watcher.{
  Clients, ConfigWatcher, find_inst, find_meta, get_redis_client, keep_inst,
}
use hiredispool.Ramcloud.Watcher.Coherence.{get_unknown, get_created, create_inst-new}
use hiredispool.Ramcloud.Service.{over_config}
use hiredispool.Experimental.{Hiredis, ErrInstance}
use hiredispool.Experimental.Acquire.{redis_get_socket, redis_release_socket}
use hiredispool.Experimental.Lifecycle.{
  redis_pool_create, redis_pool_destroy, redis_poolfree, blank,
}
use hiredispool.Experimental.Client.{
  client_command, run_on, pooled, set_error_text, Heap, RedisClient, keep_pool, create_client,
  clients,
}
use hiredispool.Ramcloud.Service.Answers.{no_replies, over_config-none, over_config-some}

module _ {W : Type 0} (t : Hiredis W) (reply_at : ℕ → W → Reply) where
  pool_refused :
      (conf : Config) (w : W) → accept_config conf ≡ none → redis_pool_create t conf w ≡ (none, w)
  unfolding redis_pool_create redis_pool_destroy redis_poolfree blank
  pool_refused conf w e = ground arith

  -- A configuration that the pool does not accept: the constructor of RedisClient throws, and has done
  -- nothing.
  create_client-refused :
      (conf : Config) (h : Heap W)
      → accept_config conf ≡ none
      → create_client t reply_at conf h ≡ (none, h)
  unfolding create_client keep_pool
  create_client-refused conf h e = rw (pool_refused conf h.world e) refl

  -- What the client answers where the pool has no socket to give.
  abbrev no_connection : Pack
  no_connection = record { reply = none; info = set_error_text (codes "No available connection") }

  pooled-none :
      (send : Option ℕ → W → Option ℕ × W) (pool u : ErrInstance) (w v : W)
      → redis_get_socket t pool w ≡ some (none, u, v)
      → pooled t reply_at send pool w ≡ (some no_connection, u, v)
  unfolding pooled redis_release_socket
  pooled-none send pool u w v e = rw (pooled, e) refl

  run_on-none :
      (c : RedisClient) (send : Option ℕ → W → Option ℕ × W) (h : Heap W) (pool u : ErrInstance)
      (v : W)
      → get_elem? h.pools c.inst ≡ some pool
      → redis_get_socket t pool h.world ≡ some (none, u, v)
      → run_on t reply_at c send h
        ≡ (some no_connection, record { world = v; pools = Base.set h.pools c.inst u })
  unfolding run_on
  run_on-none c send h pool u v e f =
      rw (run_on, e)
        (ap (λ (q, s, x). (q, record { world = x; pools = Base.set h.pools c.inst s }))
          (pooled-none send pool u h.world v f))

  module _ {D : Type 0} (print : List (Piece D) → List ℕ) where
    -- The clients that the class Config makes.
    abbrev made : Clients (Heap W) RedisClient D
    made = clients t reply_at print

    get_none :
        (db : List ℕ) (s : ConfigWatcher RedisClient) (h : Heap W)
        → find_inst db s ≡ none
        → ((m : Meta) → find_meta db s ≡ some m → ¬ (IsReady m))
        → get_redis_client made db s h ≡ (none, s, h)
    unfolding find_inst find_meta keep_inst create_client clients keep_pool
    get_none db s h e unready = elim (Option-cases (find_meta db s)) [
      | inl f ↦ get_unknown made db s h e f
      | inr (m, f) ↦
          let not_accepted : accept_config (to_conf m) ≡ none =
            elim (Option-cases (accept_config (to_conf m))) [
              | inl n ↦ n
              | inr a ↦ absurd (unready m f ((to_conf_accepted m).0 a))
            ] in
          get_created made db s h m e f
          ∙ create_inst-new made db m s h e
          ∙ ap (keep_inst made db s) (create_client-refused (to_conf m) h not_accepted)
    ]

    -- SET, GET and MGET on a database of which nothing is known, or whose configuration is not one that a
    -- pool accepts, and which has no client: the method fails with CONFIG_ERR. GET gives the empty string,
    -- and MGET leaves the map as it is; no pool is made, nothing is connected or sent, and what is known of
    -- the databases stays.
    pub unusable_database :
        (libc : Server (Heap W) D) (db key val : List ℕ) (keys : List (List ℕ))
        (vals : List (List ℕ × List ℕ)) (s : ConfigWatcher RedisClient) (h : Heap W)
        → find_inst db s ≡ none
        → ((m : Meta) → find_meta db s ≡ some m → ¬ (IsReady m))
        → let server = over_config made libc db in
          let config_err : Status = record { code = codes "CONFIG_ERR" } in
          (set server key val (s, h) ≡ (config_err, (s, h)))
          × (get server key (s, h) ≡ (config_err, [], (s, h)))
          × (mget server keys vals (s, h) ≡ (config_err, reads vals, (s, h)))
    unusable_database libc db key val keys vals s h e unready =
        no_replies (over_config made libc db) (s, h)
          (over_config-none made libc db s h (get_none db s h e unready)) key val keys vals

    -- A command on a client whose pool has no socket to give.
    client_command-none :
        (c : RedisClient) (h : Heap W) (request : Request D) (pool u : ErrInstance) (v : W)
        → get_elem? h.pools c.inst ≡ some pool
        → redis_get_socket t pool h.world ≡ some (none, u, v)
        → client_command t reply_at print c request h
          ≡ (some no_connection, record { world = v; pools = Base.set h.pools c.inst u })
    unfolding client_command
    client_command-none c h (formatted ps) pool u v e f = run_on-none c _ h pool u v e f
    client_command-none c h (argv args) pool u v e f = run_on-none c _ h pool u v e f

    -- SET and GET on a database that has a client, where the search in its pool ends with NULL: the method
    -- fails, and its status says that there is no connection. GET gives the empty string; the pool is as
    -- the search has left it, and what is known of the databases stays.
    pub no_connection_left :
        (libc : Server (Heap W) D) (db key val : List ℕ) (s : ConfigWatcher RedisClient)
        (h : Heap W) (c : RedisClient) (pool u : ErrInstance) (v : W)
        → find_inst db s ≡ some c
        → get_elem? h.pools c.inst ≡ some pool
        → redis_get_socket t pool h.world ≡ some (none, u, v)
        → let server = over_config made libc db in
          let failed : Status = record { code = codes "ERR No available connection" } in
          let g : Heap W = record { world = v; pools = Base.set h.pools c.inst u } in
          (set server key val (s, h) ≡ (failed, (s, g)))
          × (get server key (s, h) ≡ (failed, [], (s, g)))
    unfolding find_inst set get reply2status reply2string error_text set_error_text reply_of clients
    no_connection_left libc db key val s h c pool u v e f g =
        let answer = λ (r : Request D).
          over_config-some made libc db s h c r e
          ∙ ap (λ (q, k). (q, (s, k))) (client_command-none c h r pool u v f g) in
        (
          ap (λ (r, o). (reply2status r, o)) (answer _),
          ap (λ (r, o). (reply2status r, reply2string (reply_of r), o)) (answer _),
        )
