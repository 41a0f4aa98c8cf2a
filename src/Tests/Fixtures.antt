-- ===== src/Tests/Fixtures.antt =====
-- A configuration with two endpoints, the first of which refuses, the pool that redis_pool_create
-- makes of it, and runs of the search on that pool.
use hiredispool.Base.{ℕ, ◌≡◌, refl, true, false, none, some, [], ◌∷◌, pos, negsuc, arith}
use hiredispool.Config.{Endpoint, Config, accept_config, to_timeval}
use hiredispool.Config.Bounds.{IsAccepted, IsUsable, IsCounted, accept_config-IsAccepted}
use hiredispool.Instance.{sockconnected, Socket, Instance}
use hiredispool.Invariant.{IsPool}
use hiredispool.Connect.{connect_single_socket}
use hiredispool.Config.Bounds.{accept_config_iff}
use hiredispool.Acquire.{found, nothing, redis_get_socket, redis_release_socket}
use hiredispool.Contexts.{Balanced}
use hiredispool.Lifecycle.{redis_pool_destroy}
use hiredispool.Session.Histories.{create-IsPool}
use hiredispool.Lifecycle.{redis_pool_create}
use hiredispool.Tests.Sim.{Sim, sim, sim_contexts, world}

abbrev pub endpoint : ℕ → Endpoint
endpoint n = record { host = 108 ∷ []; port = pos n }

abbrev pub conf : Config
conf = record {
  endpoints = some (endpoint 6379 ∷ endpoint 6380 ∷ []);
  num_endpoints = pos 2;
  connect_timeout = pos 5500;
  net_readwrite_timeout = negsuc 3;
  num_redis_socks = pos 2;
  connect_failure_retry_delay = pos 0;
}

abbrev pub kept_conf : Config
kept_conf = record conf { net_readwrite_timeout = pos 0; connect_failure_retry_delay = negsuc 0 }

-- The first endpoint refuses.
abbrev pub half_dead : Sim
half_dead = record world { dead = 6379 ∷ [] }

pub conf_accepted : accept_config conf ≡ some kept_conf
unfolding accept_config
conf_accepted = refl

abbrev pub pool : Instance
pool = record {
  connect_after = pos 0;
  redis_pool =
      record { id = 1; backup = 0; inuse = false; state = sockconnected; conn = some 102 }
      ∷ record { id = 0; backup = 0; inuse = false; state = sockconnected; conn = some 101 }
      ∷ [];
  last_used = none;
  config = kept_conf;
}

abbrev pub first_socket : Socket
first_socket = record { id = 1; backup = 0; inuse = false; state = sockconnected; conn = some 102 }

-- The world that redis_pool_create leaves: context 100 failed and was freed.
abbrev pub opened : Sim
opened = record half_dead { contexts = 102 ∷ 101 ∷ []; fresh = 103; failed = 100 ∷ [] }

-- Two sockets: the first one made goes to the second endpoint, after the first one refused.
pub created : redis_pool_create sim conf half_dead ≡ (some pool, opened)
unfolding redis_pool_create accept_config hiredispool.Lifecycle.redis_init_socketpool
    hiredispool.Lifecycle.build hiredispool.Lifecycle.init_loop hiredispool.Lifecycle.new_socket
    hiredispool.Lifecycle.first_connect connect_single_socket hiredispool.Connect.connect_loop
    hiredispool.Connect.finish hiredispool.Connect.on_success hiredispool.Connect.on_failure
    hiredispool.Connect.choose_backup hiredispool.Connect.try_endpoint hiredispool.Connect.usable
    hiredispool.Connect.discard hiredispool.Connect.advance to_timeval
created = refl

pub conf-IsCounted : IsCounted conf
conf-IsCounted = omega arith

pub kept_conf-IsAccepted : IsAccepted kept_conf
kept_conf-IsAccepted = accept_config-IsAccepted conf conf-IsCounted conf_accepted

pub conf-IsUsable : IsUsable conf
conf-IsUsable = (accept_config_iff conf).1 (kept_conf, conf_accepted)

pub pool_formed : IsPool pool
pool_formed = create-IsPool sim conf half_dead pool opened conf-IsCounted created

abbrev pub taken_pool : Instance
taken_pool = record pool {
  redis_pool =
      record first_socket { inuse = true }
      ∷ record { id = 0; backup = 0; inuse = false; state = sockconnected; conn = some 101 }
      ∷ [];
  last_used = some 1;
}

abbrev pub locked : Sim
locked = record opened { locks = 1 ∷ [] }

pub got : redis_get_socket sim pool opened ≡ found 0 taken_pool locked
unfolding redis_get_socket hiredispool.Acquire.start_of hiredispool.Acquire.scan
    hiredispool.Acquire.following hiredispool.Acquire.visit hiredispool.Acquire.reconnect
    hiredispool.Acquire.grab
got = refl

-- The only other socket is taken too: no socket is left.
abbrev pub empty_pool : Instance
empty_pool = record taken_pool {
  redis_pool =
      record first_socket { inuse = true }
      ∷ record { id = 0; backup = 0; inuse = true; state = sockconnected; conn = some 101 }
      ∷ [];
  last_used = none;
}

got_next :
    redis_get_socket sim taken_pool locked
    ≡ found 1 empty_pool (record opened { locks = 0 ∷ 1 ∷ [] })
unfolding redis_get_socket hiredispool.Acquire.start_of hiredispool.Acquire.scan
    hiredispool.Acquire.following hiredispool.Acquire.visit hiredispool.Acquire.reconnect
    hiredispool.Acquire.grab
got_next = refl

got_null :
    redis_get_socket sim empty_pool (record opened { locks = 0 ∷ 1 ∷ [] })
    ≡ nothing empty_pool (record opened { locks = 0 ∷ 1 ∷ [] })
unfolding redis_get_socket hiredispool.Acquire.start_of hiredispool.Acquire.scan
    hiredispool.Acquire.following hiredispool.Acquire.visit hiredispool.Acquire.reconnect
    hiredispool.Acquire.grab
got_null = refl

pub pool-Balanced : Balanced sim_contexts (λ a. 0) pool opened
unfolding hiredispool.Contexts.held
pool-Balanced a = omega arith
