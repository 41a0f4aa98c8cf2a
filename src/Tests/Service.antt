-- ===== src/Tests/Service.antt =====
-- The theorems on commands that fail, each at an input that exercises it, on the simulated platform: a
-- database without an endpoint, and a pool whose only socket is in use.
use hiredispool.Base
use hiredispool.Base.{
  ℕ, ◌≡◌, ◌∙◌, refl, sym, subst, true, Option, none, some, List, [], ◌∷◌, ℤ, pos, codes, get_elem?,
}
use hiredispool.Instance.{sockconnected}
use hiredispool.Invariant.Frame.{some_inj}
use hiredispool.Ramcloud.{
  Server, Status, Reply, nil, Piece, reads, lookup, unpack_error, argv, insert, low_bits,
}
use hiredispool.Ramcloud.Meta.{
  Meta, meta_of, to_conf, convert, s2sname_from, add_endpoint, attribute, conf_from, endpoint_from,
  has_endpoint, set_conf,
}
use hiredispool.Ramcloud.Meta.Laws.{IsReady}
use hiredispool.Ramcloud.Strings.{set, get, mget}
use hiredispool.Ramcloud.Watcher.{
  Clients, ConfigWatcher, find_inst, find_meta, fresh, my_redis_command, configured, notice,
  map_values_config_update, add_meta, get_redis_client, create_inst, keep_inst,
}
use hiredispool.Ramcloud.Service.{over_config, Happening, noticed, commanded, happen, happen_all}
use hiredispool.Ramcloud.Service.Errors.{unusable_database, no_connection_left}
use hiredispool.Ramcloud.Service.Histories.{own_pool}
use hiredispool.Experimental.{LastError, ErrInstance, Hiredis, next_of}
use hiredispool.Experimental.Acquire.{redis_get_socket, start_from, scan, visit, following}
use hiredispool.Experimental.Lifecycle.{
  redis_pool_create, build, redis_init_socketpool, init_loop, blank,
}
use hiredispool.Config.{accept_config}
use hiredispool.Experimental.Client.{
  client_command, run_on, Heap, RedisClient, clients, create_client, keep_pool,
}
use hiredispool.Tests.Sim.{Sim, sim}
use hiredispool.Tests.Fixtures.{kept_conf, half_dead}

abbrev blank_error : LastError
blank_error = record { err = pos 0; errstr = []; errhost = []; errport = pos 0 }

abbrev hiredis : Hiredis Sim
hiredis = record {
  platform = sim;
  errstr = λ c w. [];
  tcp_host = λ c w. [];
  tcp_port = λ c w. pos 0;
  redis_command_argv = λ c args w. sim.redisv_command c [] w;
  uninitialised = blank_error;
}

abbrev reply_at : ℕ → Sim → Reply
reply_at a w = nil

abbrev print : List (Piece ℕ) → List ℕ
print ps = []

abbrev libc : Server (Heap Sim) ℕ
libc = record {
  command = λ r w. (none, w);
  print_double = λ d. [];
  atof = λ s. 0;
  atol = λ s. pos 0;
  marshal = λ m. none;
  marshal_error = [];
  unmarshal = λ s m. unpack_error m;
}

abbrev bare : Meta
bare = meta_of (codes "ramcloudsources") (codes "db")

abbrev known : ConfigWatcher RedisClient
known = record { key = codes "ramcloudsources"; meta_map = (codes "db", bare) ∷ []; inst_map = [] }

abbrev heap : Heap Sim
heap = record { world = half_dead; pools = [] }

no_client : find_inst (codes "db") known ≡ none
unfolding find_inst lookup
no_client = refl

bare_unready : (m : Meta) → find_meta (codes "db") known ≡ some m → ¬ (IsReady m)
unfolding find_meta lookup meta_of
bare_unready m e r = (subst IsReady (sym (some_inj e)) r).0 refl

unusable_database_example :
    let server = over_config (clients hiredis reply_at print) libc (codes "db") in
    let config_err : Status = record { code = codes "CONFIG_ERR" } in
    (set server (codes "k") (codes "v") (known, heap) ≡ (config_err, (known, heap)))
    × (get server (codes "k") (known, heap) ≡ (config_err, [], (known, heap)))
    × (mget server (codes "k" ∷ []) [] (known, heap) ≡ (config_err, reads [], (known, heap)))
unusable_database_example =
    unusable_database hiredis reply_at print libc (codes "db") (codes "k") (codes "v")
      (codes "k" ∷ []) [] known heap no_client bare_unready

abbrev in_use : ErrInstance
in_use = record {
  connect_after = pos 0;
  redis_pool =
      record {
        sock = record { id = 0; backup = 0; inuse = true; state = sockconnected; conn = some 101 };
        last = blank_error;
      }
      ∷ [];
  last_used = none;
  config = kept_conf;
}

abbrev client : RedisClient
client = record { inst = 0; conf = kept_conf }

abbrev with_client : ConfigWatcher RedisClient
with_client = record known { inst_map = (codes "db", client) ∷ [] }

abbrev one_pool : Heap Sim
one_pool = record { world = half_dead; pools = in_use ∷ [] }

client_there : find_inst (codes "db") with_client ≡ some client
unfolding find_inst lookup
client_there = refl

nothing_found : redis_get_socket hiredis in_use half_dead ≡ some (none, in_use, half_dead)
unfolding redis_get_socket start_from scan visit following next_of
nothing_found = refl

no_connection_left_example :
    let server = over_config (clients hiredis reply_at print) libc (codes "db") in
    let failed : Status = record { code = codes "ERR No available connection" } in
    let g : Heap Sim = record { world = half_dead; pools = Base.set one_pool.pools 0 in_use } in
    (set server (codes "k") (codes "v") (with_client, one_pool) ≡ (failed, (with_client, g)))
    × (get server (codes "k") (with_client, one_pool) ≡ (failed, [], (with_client, g)))
no_connection_left_example =
    no_connection_left hiredis reply_at print libc (codes "db") (codes "k") (codes "v") with_client
      one_pool client in_use in_use half_dead client_there refl nothing_found

-- Two databases are configured, and a command is given on each; then one on the first.
abbrev attributes : List (List ℕ × List ℕ)
attributes =
    (codes "host", codes "10.0.0.1")
    ∷ (codes "port", codes "1")
    ∷ (codes "num_redis_socks", codes "1")
    ∷ []

abbrev atoi : List ℕ → ℤ
atoi s = pos 1

abbrev made : Clients (Heap Sim) RedisClient ℕ
made = clients hiredis reply_at print

abbrev both_used : List (Happening ℕ)
both_used =
    noticed (configured ((codes "db", attributes) ∷ (codes "other", attributes) ∷ []))
    ∷ commanded (codes "db") (argv (codes "GET" ∷ codes "k" ∷ []))
    ∷ commanded (codes "other") (argv (codes "GET" ∷ codes "k" ∷ []))
    ∷ []

abbrev reached : ConfigWatcher RedisClient × Heap Sim
reached =
    happen_all made atoi both_used
      (fresh (codes "redisources"), record { world = half_dead; pools = [] })

abbrev second_client : RedisClient
second_client = record {
  inst = 1;
  conf = to_conf (convert atoi attributes (meta_of (codes "redisources") (codes "other")));
}

second_there : find_inst (codes "other") reached.0 ≡ some second_client
unfolding find_inst lookup happen_all happen notice map_values_config_update add_meta fresh insert
    find_meta get_redis_client create_inst keep_inst my_redis_command clients create_client
    keep_pool convert s2sname_from low_bits add_endpoint attribute conf_from endpoint_from
    has_endpoint meta_of set_conf to_conf redis_pool_create accept_config build
    redis_init_socketpool init_loop blank client_command run_on
second_there = refl

own_pool_example :
    let (_, u, g) =
      my_redis_command made (codes "db") (argv (codes "GET" ∷ codes "k" ∷ [])) reached in
    (find_inst (codes "other") u ≡ some second_client)
    × (get_elem? g.pools 1 ≡ get_elem? reached.1.pools 1)
own_pool_example =
    own_pool hiredis reply_at print atoi (codes "redisources") half_dead both_used reached.0
      reached.1 (codes "db") (codes "other") second_client (argv (codes "GET" ∷ codes "k" ∷ []))
      refl (λ e. cc e) second_there
