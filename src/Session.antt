-- ===== src/Session.antt =====
-- The life of a pool: what a client does with it between redis_pool_create and redis_pool_destroy,
-- as a list of calls that run one after the other.
pub mod Histories
use hiredispool.Base.{ℕ, List, [], ◌∷◌, Option, some, none}
use hiredispool.Platform.{Platform}
use hiredispool.Instance.{Instance}
use hiredispool.Acquire.{Search, found, nothing, stuck, redis_get_socket, redis_release_socket}
use hiredispool.Command.{redis_vcommand}

-- The calls of hiredispool.h on an instance; a socket is given by the pointer to it.
pub data Call : Type 0 where
  get : Call
  release : Option ℕ → Call
  command : ℕ → List ℕ → Call

module _ {W : Type 0} (p : Platform W) where
  -- The instance and the world that a search leaves.
  abbrev pub after_search : Instance × W → Search W → Instance × W
  after_search o (found i t v) = (t, v)
  after_search o (nothing t v) = (t, v)
  after_search o stuck = o

  abbrev pub after_command : Option ℕ × Instance × W → Instance × W
  after_command (reply, t, v) = (t, v)

  unfoldable pub step : Instance × W → Call → Instance × W
  step (s, w) get = after_search (s, w) (redis_get_socket p s w)
  step (s, w) (release i) = redis_release_socket p s i w
  step (s, w) (command i cmd) = after_command (redis_vcommand p s i cmd w)

  unfoldable pub run : List Call → Instance × W → Instance × W
  run [] o = o
  run (c ∷ cs) o = run cs (step o c)
