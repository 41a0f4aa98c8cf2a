-- ===== src/Tests/Pool.antt =====
-- The theorems on the pool of hiredispool.c, each at an input that exercises it.
use hiredispool.Base.{ℕ, ◌≡◌, ◌⊎◌, refl, Bool, none, some, List, [], ◌∷◌, pos, arith}
use hiredispool.Config.{Config, accept_config}
use hiredispool.Config.Bounds.{IsAccepted, IsUsable}
use hiredispool.Platform.{Platform}
use hiredispool.Instance.{sockconnected, Instance}
use hiredispool.Invariant.{IsSocket, IsPool}
use hiredispool.Connect.{connect_single_socket}
use hiredispool.Connect.Results.{Failed, Succeeded, connect_cases}
use hiredispool.Command.{vcommand}
use hiredispool.Command.Results.{Answered, Lost, Retried, vcommand_cases}
use hiredispool.Lifecycle.{redis_pool_destroy}
use hiredispool.Lifecycle.Create.{pool_create-Created}
use hiredispool.Lifecycle.Build.{Created}
use hiredispool.Session.{Call, run}
use hiredispool.Session.Histories.{Stays, run-IsPool, no_context_leaks}
use hiredispool.Lifecycle.{redis_pool_create}
use hiredispool.Tests.Fixtures.{
  conf, kept_conf, half_dead, pool, first_socket, opened, created, conf-IsCounted, pool_formed,
  taken_pool, locked,
}
use hiredispool.Tests.Sim.{Sim, sim, sim_contexts}

connect_cases_example :
    Failed sim kept_conf first_socket
      (pos 9)
      (connect_single_socket sim kept_conf (pos 9) first_socket half_dead)
    ⊎ Succeeded sim kept_conf first_socket
        (pos 9)
        (connect_single_socket sim kept_conf (pos 9) first_socket half_dead)
connect_cases_example = connect_cases sim kept_conf first_socket (pos 9) half_dead (omega arith)

-- The shape of every socket of these pools.
formed_up :
    (c : ℕ) {i : ℕ} {used : Bool}
    → IsSocket kept_conf
        (record { id = i; backup = 0; inuse = used; state = sockconnected; conn = some c })
formed_up c = record { backup_lt = omega arith; linked = (c, refl) }

taken_formed : IsPool taken_pool
taken_formed = record {
  accepted = pool_formed.accepted;
  sockets = (formed_up 102, (formed_up 101, tt));
  pointer = omega arith;
}

-- A platform whose mutexes are always to be had.
abbrev unlocked : Platform Sim
unlocked = record sim { mutex_trylock = λ i w. (pos 0, w) }

-- The context of the socket is broken: the command is tried again on a new one.
abbrev broken_world : Sim
broken_world = record locked { broken = 102 ∷ [] }

vcommand_cases_example :
    Answered sim kept_conf
      (pos 0)
      first_socket
      (1 ∷ [])
      broken_world
      (vcommand sim kept_conf (pos 0) first_socket (1 ∷ []) broken_world)
    ⊎ Lost sim kept_conf
        (pos 0)
        first_socket
        (1 ∷ [])
        broken_world
        (vcommand sim kept_conf (pos 0) first_socket (1 ∷ []) broken_world)
    ⊎ Retried sim kept_conf
        (pos 0)
        first_socket
        (1 ∷ [])
        broken_world
        (vcommand sim kept_conf (pos 0) first_socket (1 ∷ []) broken_world)
vcommand_cases_example =
    vcommand_cases sim kept_conf (pos 0) first_socket (1 ∷ []) broken_world (omega arith)

pool_create-Created_example :
    (¬ (IsUsable conf)) × ((redis_pool_create sim conf half_dead).0 ≡ none)
    ⊎ (k : Config) × (accept_config conf ≡ some k)
      × IsAccepted k
      × Created sim k (redis_pool_create sim conf half_dead)
pool_create-Created_example = pool_create-Created sim conf half_dead conf-IsCounted

abbrev history : List Call
history = Call.get ∷ Call.command 0 (1 ∷ []) ∷ Call.get ∷ Call.get ∷ Call.release (some 0) ∷ []

run-IsPool_example : Stays sim pool (run sim history (pool, broken_world)).0
run-IsPool_example = run-IsPool sim history pool broken_world pool_formed

no_context_leaks_example :
    let (t, u) = run sim history (pool, opened) in
    sim_contexts.live (redis_pool_destroy sim (some t) u).1 101 ≡ sim_contexts.live half_dead 101
no_context_leaks_example =
    no_context_leaks sim_contexts conf half_dead pool opened history conf-IsCounted created 101
