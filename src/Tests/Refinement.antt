-- ===== src/Tests/Refinement.antt =====
-- The theorem that the search of Acquire is an execution of Threads, on a platform that is its mutexes:
-- another thread has locked the first socket.
use hiredispool.Base.{
  ℕ, zero, suc, ◌+◌, ap, ◌≡◌, refl, sym, false, Option, none, some, pos, ◌==◌, if◌then◌else◌,
  is_zero, arith,
}
use hiredispool.Platform.{Platform}
use hiredispool.Instance.{sockconnected, Socket}
use hiredispool.Invariant.Frame.{At, some_inj}
use hiredispool.Acquire.{redis_get_socket, start_of}
use hiredispool.Threads.{Cell, idle, trying, Shared, update}
use hiredispool.Threads.Locks.{MutexLaws}
use hiredispool.Threads.Cells.{cell_of, Shows, IsDistinct}
use hiredispool.Threads.Refinement.{Performs, get_socket-Performs}
use hiredispool.Tests.Fixtures.{pool, pool_formed}

abbrev Owners : Type 0
Owners = ℕ → Option ℕ

abbrev mutexes : Platform Owners
mutexes = record {
  redis_connect_with_timeout = λ h n t w. (none, w);
  err = λ c w. pos 0;
  redis_set_timeout = λ c t w. (pos 0, w);
  redis_enable_keep_alive = λ c w. (pos 0, w);
  redis_free = λ c w. w;
  redisv_command = λ c f w. (none, w);
  time = λ w. (pos 0, w);
  rand = λ w. (0, w);
  mutex_init = λ i w. (pos 0, w);
  mutex_trylock = λ i w. elim (w i) [ none ↦ (pos 0, update w i (some 0)) | some b ↦ (pos 16, w) ];
  mutex_unlock = λ i w. (pos 0, update w i none);
  mutex_destroy = λ i w. (pos 0, w);
}

held :
    (i : ℕ) (w : Owners) {b : ℕ}
    → w i ≡ some b
    → (is_zero (mutexes.mutex_trylock i w).0 ≡ false)
      × ((j : ℕ) → (mutexes.mutex_trylock i w).1 j ≡ w j)
held i w e = rw e (refl, λ j. refl)

abbrev laws : MutexLaws mutexes 0
laws = record {
  owner = λ w. w;
  trylock_held = held;
  trylock_free = λ i w e. rw e (refl, λ j. refl);
  unlock_owner = λ i w e j. refl;
  connect_owner = λ h n t w j. refl;
  free_owner = λ c w j. refl;
  set_timeout_owner = λ c t w j. refl;
  keep_alive_owner = λ c w j. refl;
  time_owner = λ w j. refl;
  rand_owner = λ w j. refl;
}

-- Thread 7 has locked the mutex with number 1, which is that of the first socket.
abbrev owners : Owners
owners i = if i == 1 then some 7 else none

abbrev cells : ℕ → Cell
cells i = record { owner = if i == 0 then some 7 else none; inuse = false; state = sockconnected }

abbrev shared : Shared
shared = record {
  cells = cells;
  phases = λ a. if a == 0 then trying 0 0 else idle;
  last_used = none;
}

shared-Shows : Shows laws pool owners shared
shared-Shows zero x e = ap (cell_of laws owners) (some_inj e)
shared-Shows (suc zero) x e = ap (cell_of laws owners) (some_inj e)
shared-Shows (suc (suc i)) x e = cc

numbered : (i : ℕ) (x : Socket) → At pool i x → i + x.id ≡ 1
numbered zero x e = sym (ap (λ q. 0 + q.id) (some_inj e))
numbered (suc zero) x e = sym (ap (λ q. 1 + q.id) (some_inj e))
numbered (suc (suc i)) x e = cc

pool-IsDistinct : IsDistinct laws pool
pool-IsDistinct i j x y e f g = omega (arith, numbered i x e, numbered j y f)

get_socket-Performs_example : Performs laws 2 shared (redis_get_socket mutexes pool owners)
unfolding start_of
get_socket-Performs_example =
    get_socket-Performs laws 2 0 pool owners shared pool_formed pool-IsDistinct refl shared-Shows
      refl refl refl
