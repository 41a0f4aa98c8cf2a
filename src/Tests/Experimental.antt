-- ===== src/Tests/Experimental.antt =====
-- The theorems on the later pool and its client, each at an input that exercises it, on the simulated
-- platform with texts for its contexts.
use hiredispool.Base.{
  ℕ, ◌≡◌, ◌⊎◌, refl, true, false, Option, none, some, List, [], ◌∷◌, map, pos, codes,
}
use hiredispool.Config.{accept_config, to_timeval}
use hiredispool.Instance.{sockunconnected, sockconnected}
use hiredispool.Connect.{connect_loop, on_success, choose_backup, try_endpoint, usable}
use hiredispool.Session
use hiredispool.Ramcloud.{Reply, status}
use hiredispool.Experimental.{
  LastError, ErrSocket, ErrInstance, Hiredis, connect_single_socket, finish, next_of, store,
}
use hiredispool.Experimental.Acquire.{redis_get_socket, start_from, scan, visit, grab, reconnect}
use hiredispool.Experimental.Command.{vcommand}
use hiredispool.Experimental.Command.Errors.{Unreachable, SentAgain, vcommand_errors}
use hiredispool.Experimental.Lifecycle.{redis_pool_create, redis_pool_destroy}
use hiredispool.Experimental.Lifecycle.Create.{lazy_no_leaks}
use hiredispool.Experimental.Session.{ErrCall, get, release, command, command_argv, run}
use hiredispool.Experimental.Session.Forgetting.{FormatsArgv, recall, run-forget}
use hiredispool.Experimental.Forgetting.{forget}
use hiredispool.Experimental.Forgetting.Searching.{forget_pair}
use hiredispool.Experimental.Client.{pooled}
use hiredispool.Experimental.Client.Statuses.{Diagnosed, pooled_diagnosis}
use hiredispool.Tests.Sim.{Sim, sim, sim_contexts}
use hiredispool.Tests.Fixtures.{conf, kept_conf, half_dead, conf-IsCounted}

abbrev garbage : LastError
garbage = record { err = pos 77; errstr = codes "?"; errhost = codes "?"; errport = pos 77 }

abbrev hiredis : Hiredis Sim
hiredis = record {
  platform = sim;
  errstr = λ c w. codes "refused";
  tcp_host = λ c w. codes "localhost";
  tcp_port = λ c w. pos 6379;
  redis_command_argv = λ c args w. sim.redisv_command c [] w;
  uninitialised = garbage;
}

hiredis-FormatsArgv : FormatsArgv hiredis
hiredis-FormatsArgv = record { format_command_argv = λ args. []; sends = λ c args w. refl }

abbrev new_sockets : List ErrSocket
new_sockets =
    record {
      sock = record { id = 1; backup = 1; inuse = false; state = sockunconnected; conn = none };
      last = garbage;
    }
    ∷ record {
      sock = record { id = 0; backup = 0; inuse = false; state = sockunconnected; conn = none };
      last = garbage;
    }
    ∷ []

abbrev new_pool : ErrInstance
new_pool = record {
  connect_after = pos 0;
  redis_pool = new_sockets;
  last_used = none;
  config = kept_conf;
}

made : redis_pool_create hiredis conf half_dead ≡ (some new_pool, half_dead)
unfolding redis_pool_create accept_config hiredispool.Experimental.Lifecycle.redis_init_socketpool
    hiredispool.Experimental.Lifecycle.build hiredispool.Experimental.Lifecycle.init_loop
    hiredispool.Experimental.Lifecycle.new_socket hiredispool.Experimental.Lifecycle.blank
    hiredispool.Lifecycle.new_socket
made = refl

abbrev history : List ErrCall
history = get ∷ command 0 (7 ∷ []) ∷ command_argv 0 ((7 ∷ []) ∷ []) ∷ release (some 0) ∷ get ∷ []

lazy_no_leaks_example :
    let (u, x) = run hiredis history (new_pool, half_dead) in
    sim_contexts.live (redis_pool_destroy hiredis (some u) x).1 100
    ≡ sim_contexts.live half_dead 100
lazy_no_leaks_example =
    lazy_no_leaks hiredis sim_contexts hiredis-FormatsArgv conf half_dead new_pool half_dead history
      conf-IsCounted made 100

run-forget_example :
    forget_pair hiredis (run hiredis history (new_pool, half_dead))
    ≡ Session.run sim
        (map (recall hiredis hiredis-FormatsArgv) history)
        (forget new_pool, half_dead)
run-forget_example = run-forget hiredis hiredis-FormatsArgv history new_pool half_dead

-- Context 100 answers nothing.
abbrev silent : Sim
silent = record half_dead { broken = 100 ∷ [] }

-- The socket that the search connects, and what the search leaves.
abbrev taken_socket : ErrSocket
taken_socket = record {
  sock = record { id = 1; backup = 0; inuse = true; state = sockconnected; conn = some 100 };
  last = garbage;
}

abbrev taken_pool : ErrInstance
taken_pool = record {
  connect_after = pos 0;
  redis_pool =
      taken_socket
      ∷ record {
        sock = record { id = 0; backup = 0; inuse = false; state = sockunconnected; conn = none };
        last = garbage;
      }
      ∷ [];
  last_used = some 1;
  config = kept_conf;
}

abbrev taken_world : Sim
taken_world = record silent { contexts = 100 ∷ []; fresh = 101; locks = 1 ∷ [] }

first_search : redis_get_socket hiredis new_pool silent ≡ some (some 0, taken_pool, taken_world)
unfolding redis_get_socket start_from scan visit grab reconnect connect_single_socket finish next_of
    store connect_loop on_success choose_backup try_endpoint usable to_timeval
first_search = refl

abbrev send : Option ℕ → Sim → Option ℕ × Sim
send c w = sim.redisv_command c (7 ∷ []) w

abbrev reply_at : ℕ → Sim → Reply
reply_at a w = status (codes "OK")

vcommand_errors_example :
    let r = vcommand hiredis send kept_conf (pos 0) taken_socket taken_world in
    let (o, v) = send taken_socket.sock.conn taken_world in
    ((a : ℕ) × (send taken_socket.sock.conn taken_world ≡ (some a, r.world))
      × (r.reply ≡ some a)
      × (r.sock ≡ taken_socket))
    ⊎ (o ≡ none)
      × (Unreachable hiredis send kept_conf (pos 0) taken_socket v r
          ⊎ SentAgain hiredis send kept_conf (pos 0) taken_socket v r)
vcommand_errors_example = vcommand_errors hiredis send kept_conf (pos 0) taken_socket taken_world

pooled_diagnosis_example :
    Diagnosed hiredis reply_at send taken_pool taken_world taken_socket
      (pooled hiredis reply_at send new_pool silent).0
pooled_diagnosis_example =
    pooled_diagnosis hiredis reply_at send new_pool taken_pool silent taken_world 0 taken_socket
      first_search refl
