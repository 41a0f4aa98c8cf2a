-- ===== src/Ramcloud/Watcher.antt =====
-- The class Config of RedisClientYaf.cpp: what is known of the databases, and the clients that have been
-- made for them. Each function that a mutex guards as a whole is one step; getRedisClient takes three.
pub mod Coherence
pub mod Races
pub mod Servers
use hiredispool.Base.{
  ℕ, Bool, true, false, ◌&&◌, Option, none, some, List, [], ◌∷◌, ℤ, ◌==◌, if◌then◌else◌, text_eq,
  ◌≡◌,
}
use hiredispool.Config.{Endpoint, Config}
use hiredispool.Ramcloud.{insert, lookup, erase, Request, Pack}
use hiredispool.Ramcloud.Meta.{
  Meta, meta_of, to_conf, add_endpoint, remove_endpoint, ip_ntoa, convert,
}

-- PServer, of the framework: the fields that are read. `ip` is `getIp(anka::CTL)` after ntohl.
pub record Peer : Type 0 where
  pub name : List ℕ
  pub group_id : ℕ
  pub ip : ℕ
  pub listen_port : ℤ

-- A client of the pool, as the class uses it: `new RedisClient(conf)`, where `none` is the exception,
-- redisvCommand and redisCommandArgv. `conf_of` is the configuration that it was made with.
pub record Clients (W C D : Type 0) : Type 0 where
  pub create : Config → W → Option C × W
  pub command : C → Request D → W → Option Pack × W
  pub conf_of : C → Config
  pub create_conf :
      (conf : Config) (w v : W) (c : C) → create conf w ≡ (some c, v) → conf_of c ≡ conf

pub record ConfigWatcher (C : Type 0) : Type 0 where
  pub key : List ℕ
  pub meta_map : List (List ℕ × Meta)
  pub inst_map : List (List ℕ × C)

-- The two tests that `continue`.
unfoldable pub matches : Meta → Peer → Bool
matches m peer = text_eq m.s2sname peer.name && (m.group_id == peer.group_id)

unfoldable pub endpoint_of : Peer → Endpoint
endpoint_of peer = record { host = ip_ntoa peer.ip; port = peer.listen_port }

-- What can happen to the class, one after the other: the two kinds of watchers are told something, or a
-- client of a database is asked for.
pub data Notice : Type 0 where
  configured : List (List ℕ × List (List ℕ × List ℕ)) → Notice
  added removed : Peer → Notice
  asked : List ℕ → Notice

module _ {C : Type 0} where
  -- The constructor.
  unfoldable pub fresh : List ℕ → ConfigWatcher C
  fresh key = record { key = key; meta_map = []; inst_map = [] }

  unfoldable pub find_inst : List ℕ → ConfigWatcher C → Option C
  find_inst dbname s = lookup dbname s.inst_map

  unfoldable pub find_meta : List ℕ → ConfigWatcher C → Option Meta
  find_meta dbname s = lookup dbname s.meta_map

  unfoldable pub delete_inst : List ℕ → ConfigWatcher C → ConfigWatcher C
  delete_inst dbname s = record s { inst_map = erase dbname s.inst_map }

  unfoldable pub add_meta : List ℕ → Meta → ConfigWatcher C → ConfigWatcher C
  add_meta dbname meta s = elim (lookup dbname s.meta_map) [
    | some old ↦ s
    | none ↦ record s { meta_map = insert dbname meta s.meta_map }
  ]

  unfoldable pub map_values_config_update :
      (List ℕ → ℤ) → List (List ℕ × List (List ℕ × List ℕ)) → ConfigWatcher C → ConfigWatcher C
  map_values_config_update atoi [] s = s
  map_values_config_update atoi ((dbname, attrs) ∷ rest) s =
      map_values_config_update atoi rest
        (add_meta dbname (convert atoi attrs (meta_of s.key dbname)) s)

  -- The loop over the map of onAddServer and onRemoveServer, which differ in what they do to a Meta.
  -- What is left of the map, and the new one and the clients.
  unfoldable pub update_all :
      (Meta → Meta)
      → Peer
      → List (List ℕ × Meta)
      → List (List ℕ × C)
      → List (List ℕ × Meta) × List (List ℕ × C)
  update_all f peer [] insts = ([], insts)
  update_all f peer ((dbname, m) ∷ rest) insts =
      let hit = matches m peer in
      let (metas, left) = update_all f peer rest (if hit then erase dbname insts else insts) in
      ((dbname, (if hit then f m else m)) ∷ metas, left)

  unfoldable pub on_add_server : Peer → ConfigWatcher C → ConfigWatcher C
  on_add_server peer s =
      let (metas, insts) =
        update_all (add_endpoint (endpoint_of peer)) peer s.meta_map s.inst_map in
      record s { meta_map = metas; inst_map = insts }

  unfoldable pub on_remove_server : Peer → ConfigWatcher C → ConfigWatcher C
  on_remove_server peer s =
      let (metas, insts) =
        update_all (remove_endpoint (endpoint_of peer)) peer s.meta_map s.inst_map in
      record s { meta_map = metas; inst_map = insts }

module _ {W C D : Type 0} (l : Clients W C D) where
  -- What is left after `new RedisClient` has returned or thrown.
  unfoldable pub keep_inst :
      List ℕ → ConfigWatcher C → Option C × W → Option C × ConfigWatcher C × W
  keep_inst dbname s (some c, v) = (some c, record s { inst_map = insert dbname c s.inst_map }, v)
  keep_inst dbname s (none, v) = (none, s, v)

  unfoldable pub create_inst : List ℕ → Meta → ConfigWatcher C → W → Option C × ConfigWatcher C × W
  create_inst dbname meta s w = elim (lookup dbname s.inst_map) [
    | some c ↦ (some c, s, w)
    | none ↦ keep_inst dbname s (l.create (to_conf meta) w)
  ]

  unfoldable pub get_redis_client : List ℕ → ConfigWatcher C → W → Option C × ConfigWatcher C × W
  get_redis_client dbname s w = elim (find_inst dbname s) [
    | some c ↦ (some c, s, w)
    | none ↦ elim (find_meta dbname s) [
      | none ↦ (none, s, w)
      | some meta ↦ create_inst dbname meta s w
    ]
  ]

  -- myRedisCommand, myRedisvCommand and myRedisCommandArgv of the class Client, with its _init.
  unfoldable pub my_redis_command :
      List ℕ → Request D → ConfigWatcher C × W → Option Pack × ConfigWatcher C × W
  my_redis_command dbname request (s, w) =
      let (client, t, v) = get_redis_client dbname s w in
      elim client [
        | none ↦ (none, t, v)
        | some c ↦ let (reply, u) = l.command c request v in (reply, t, u)
      ]

  unfoldable pub notice : (List ℕ → ℤ) → Notice → ConfigWatcher C × W → ConfigWatcher C × W
  notice atoi (configured values) (s, w) = (map_values_config_update atoi values s, w)
  notice atoi (added peer) (s, w) = (on_add_server peer s, w)
  notice atoi (removed peer) (s, w) = (on_remove_server peer s, w)
  notice atoi (asked dbname) (s, w) = let (_, t, v) = get_redis_client dbname s w in (t, v)

  unfoldable pub notices : (List ℕ → ℤ) → List Notice → ConfigWatcher C × W → ConfigWatcher C × W
  notices atoi [] o = o
  notices atoi (n ∷ rest) o = notices atoi rest (notice atoi n o)
