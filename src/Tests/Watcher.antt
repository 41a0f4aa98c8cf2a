-- ===== src/Tests/Watcher.antt =====
-- The theorems on the class Config of RedisClientYaf.cpp, each at an input that exercises it: clients that
-- are their configurations.
use hiredispool.Base.{
  All, ℕ, suc, ◌≡◌, ◌≢◌, refl, true, false, none, some, List, [], ◌∷◌, ℤ, pos, codes, arith,
}
use hiredispool.Config.{Config}
use hiredispool.Ramcloud.{insert, lookup, erase, low_bits}
use hiredispool.Ramcloud.Meta.{
  Meta, meta_of, to_conf, has_endpoint, add_endpoint, same_endpoint, ip_ntoa, decimal, convert,
  set_conf, endpoint_from, conf_from, s2sname_from, attribute,
}
use hiredispool.Ramcloud.Watcher.{
  Peer, Clients, ConfigWatcher, fresh, find_inst, find_meta, add_meta, map_values_config_update,
  matches, endpoint_of, update_all, on_add_server, keep_inst, create_inst, get_redis_client, Notice,
  configured, added, asked, notice, notices, on_remove_server,
}
use hiredispool.Ramcloud.Watcher.Coherence.{get_redis_client_current}
use hiredispool.Ramcloud.Watcher.Races.{stale_client}
use hiredispool.Ramcloud.Watcher.Servers.{server_comes_and_goes}
use hiredispool.Ramcloud.Registration.{redis_init, can_come, watches_config}
use hiredispool.Ramcloud.Registration.Fixed.{redis_client_fixed}

abbrev database : List ℕ
database = codes "db"

abbrev attributes : List (List ℕ × List ℕ)
attributes =
    (codes "host", codes "10.0.0.1")
    ∷ (codes "port", codes "80")
    ∷ (codes "s2sname", codes "mock")
    ∷ []

abbrev atoi : List ℕ → ℤ
atoi s = pos 80

-- A client is its configuration, and the world counts them.
abbrev clients : Clients ℕ Config ℕ
clients = record {
  create = λ conf w. (some conf, suc w);
  command = λ c r w. (none, w);
  conf_of = λ c. c;
  create_conf = λ conf w v c e. ground arith;
}

abbrev known : Meta
known = record (meta_of (codes "ramcloudsources") database) {
  endpoints = record { host = codes "10.0.0.1"; port = pos 80 } ∷ [];
  s2sname = codes "mock";
  group_id = 100;
}

abbrev peer : Peer
peer = record { name = codes "mock"; group_id = 100; ip = 1780926162; listen_port = pos 9403 }

abbrev history : List Notice
history =
    configured ((database, attributes) ∷ [])
    ∷ asked database
    ∷ added (record peer { group_id = 0 })
    ∷ []

abbrev current : Config
current = to_conf (
    add_endpoint (endpoint_of peer)
      (convert atoi attributes (meta_of (codes "ramcloudsources") database)))

handed_out :
    (let (s, v) = notices clients atoi history (fresh (codes "ramcloudsources"), 0) in
      (get_redis_client clients database s v).0)
    ≡ some current
unfolding notices get_redis_client find_inst lookup notice on_add_server update_all
    map_values_config_update add_meta fresh find_meta insert create_inst keep_inst matches convert
    s2sname_from low_bits add_endpoint attribute conf_from decimal endpoint_from has_endpoint
    ip_ntoa meta_of same_endpoint set_conf to_conf endpoint_of erase
handed_out = refl

get_redis_client_current_example :
    let (s, v) = notices clients atoi history (fresh (codes "ramcloudsources"), 0) in
    let t = (get_redis_client clients database s v).1 in
    (m : Meta) × (lookup database t.meta_map ≡ some m) × (current ≡ to_conf m)
get_redis_client_current_example =
    get_redis_client_current clients atoi (codes "ramcloudsources") history database 0 current
      handed_out

abbrev before : ConfigWatcher Config
before = record { key = codes "ramcloudsources"; meta_map = (database, known) ∷ []; inst_map = [] }

not_there : find_inst database before ≡ none
unfolding find_inst lookup
not_there = refl

there : find_meta database before ≡ some known
unfolding find_meta lookup
there = refl

same_group : matches known peer ≡ true
unfolding matches
same_group = refl

new_endpoint : has_endpoint known.endpoints (endpoint_of peer) ≡ false
unfolding has_endpoint endpoint_of same_endpoint ip_ntoa decimal
new_endpoint = refl

stale_client_example :
    let u = (create_inst clients database known (on_add_server peer before) 0).1 in
    let n = add_endpoint (endpoint_of peer) known in
    (find_inst database u ≡ some (to_conf known))
    × (to_conf known ≡ to_conf known)
    × (find_meta database u ≡ some n)
    × (to_conf known ≢ to_conf n)
    × ((x : ℕ) → get_redis_client clients database u x ≡ (some (to_conf known), u, x))
stale_client_example =
    stale_client clients database known peer before 0 1 (to_conf known) not_there there same_group
      new_endpoint refl

server_comes_and_goes_example :
    let t = on_remove_server peer (on_add_server peer before) in
    (find_meta database t ≡ some known) × (find_inst database t ≡ none)
server_comes_and_goes_example =
    server_comes_and_goes database known peer before there same_group new_endpoint

-- The database has a client; then another database is configured, and a client of it is asked for.
abbrev with_client : ConfigWatcher Config
with_client = record before { inst_map = (database, to_conf known) ∷ [] }

abbrev later : List Notice
later = configured ((codes "other", attributes) ∷ []) ∷ asked (codes "other") ∷ []

client_there : find_inst database with_client ≡ some (to_conf known)
unfolding find_inst lookup
client_there = refl

meta_there : find_meta database with_client ≡ some known
unfolding find_meta lookup
meta_there = refl

later_allowed : All (λ n. can_come (redis_init (codes "redisources") true) n ≡ true) later
unfolding can_come redis_init watches_config
later_allowed = (refl, (refl, tt))

redis_client_fixed_example :
    let (t, v) = notices clients atoi later (with_client, 0) in
    (get_redis_client clients database t v ≡ (some (to_conf known), t, v))
    × (find_meta database t ≡ some known)
redis_client_fixed_example =
    redis_client_fixed clients atoi true (codes "redisources") database known (to_conf known) later
      with_client 0 later_allowed meta_there client_there
