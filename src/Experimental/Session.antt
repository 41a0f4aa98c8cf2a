-- ===== src/Experimental/Session.antt =====
-- Histories of calls on a pool of experimental/redisclient/hiredispool.h.
pub mod Forgetting
use hiredispool.Base.{ℕ, Option, none, some, List, [], ◌∷◌}
use hiredispool.Experimental.{ErrInstance, Hiredis}
use hiredispool.Experimental.Acquire.{redis_get_socket, redis_release_socket}
use hiredispool.Experimental.Command.{redis_vcommand, redis_command_argv}

-- The calls on an instance; a socket is given by the pointer to it.
pub data ErrCall : Type 0 where
  get : ErrCall
  release : Option ℕ → ErrCall
  command : ℕ → List ℕ → ErrCall
  command_argv : ℕ → List (List ℕ) → ErrCall

-- The instance and the world that a search leaves.
abbrev pub after_search :
    {W : Type 0} → ErrInstance × W → Option (Option ℕ × ErrInstance × W) → ErrInstance × W
after_search o none = o
after_search o (some (i, s, w)) = (s, w)

module _ {W : Type 0} (t : Hiredis W) where
  unfoldable pub step : ErrInstance × W → ErrCall → ErrInstance × W
  step (s, w) get = after_search (s, w) (redis_get_socket t s w)
  step (s, w) (release i) = redis_release_socket t s i w
  step (s, w) (command i cmd) = let (_, u, v) = redis_vcommand t s i cmd w in (u, v)
  step (s, w) (command_argv i args) = let (_, u, v) = redis_command_argv t s i args w in (u, v)

  unfoldable pub run : List ErrCall → ErrInstance × W → ErrInstance × W
  run [] o = o
  run (c ∷ cs) o = run cs (step o c)
