-- ===== src/Experimental/Session/Forgetting.antt =====
-- Histories of calls on the later pool and on the first, where the last errors are forgotten.
use hiredispool.Base.{ℕ, ◌≡◌, ◌∙◌, refl, ap, Option, none, some, List, [], ◌∷◌, map}
use hiredispool.Instance.{Instance}
use hiredispool.Session
use hiredispool.Session.{Call}
use hiredispool.Experimental.{ErrInstance, Hiredis}
use hiredispool.Experimental.Acquire.{redis_get_socket}
use hiredispool.Experimental.Command.{redis_vcommand, redis_command_argv}
use hiredispool.Experimental.Session.{
  ErrCall, get, release, command, command_argv, after_search, step, run,
}
use hiredispool.Experimental.Forgetting.{forget, forget_search}
use hiredispool.Experimental.Forgetting.Searching.{forget_pair, get_socket-forget, release-forget}
use hiredispool.Experimental.Forgetting.Commands.{on_pointer-forget}

-- redisCommandArgv sends the command that redisFormatCommandArgv makes of its arguments, as
-- redisvCommand sends the one that it makes of its format.
pub record FormatsArgv {W : Type 0} (t : Hiredis W) : Type 0 where
  pub format_command_argv : List (List ℕ) → List ℕ
  pub sends :
      (c : Option ℕ) (args : List (List ℕ)) (w : W)
      → t.redis_command_argv c args w ≡ t.platform.redisv_command c (format_command_argv args) w

module _ {W : Type 0} (t : Hiredis W) (f : FormatsArgv t) where
  -- The call of the first version.
  abbrev pub recall : ErrCall → Call
  recall get = Call.get
  recall (release i) = Call.release i
  recall (command i cmd) = Call.command i cmd
  recall (command_argv i args) = Call.command i (f.format_command_argv args)

  after_search-forget :
      (s : ErrInstance) (w : W) (o : Option (Option ℕ × ErrInstance × W))
      → forget_pair t (after_search (s, w) o)
        ≡ Session.after_search t.platform (forget s, w) (forget_search o)
  after_search-forget s w none = refl
  after_search-forget s w (some (none, u, v)) = refl
  after_search-forget s w (some (some i, u, v)) = refl

  abbrev after_answer : Option ℕ × Instance × W → Instance × W
  after_answer (o, s, w) = (s, w)

  step-forget :
      (s : ErrInstance) (w : W) (c : ErrCall)
      → forget_pair t (step t (s, w) c) ≡ Session.step t.platform (forget s, w) (recall c)
  unfolding step Session.step redis_vcommand redis_command_argv
  step-forget s w get =
      after_search-forget s w (redis_get_socket t s w)
      ∙ ap (Session.after_search t.platform (forget s, w)) (get_socket-forget t s w)
  step-forget s w (release i) = release-forget t s i w
  step-forget s w (command i cmd) =
      ap after_answer
        (on_pointer-forget t cmd (λ c v. t.platform.redisv_command c cmd v) (λ c v. refl) s i w)
  step-forget s w (command_argv i args) = ap after_answer (
      on_pointer-forget t (f.format_command_argv args) (λ c v. t.redis_command_argv c args v)
        (λ c v. f.sends c args v) s i w)

  -- Any history of calls on the later pool, whose commands come as a format or as arguments,
  -- leaves the same world as the same history on the pool of the first version, and the same pool
  -- but for the last errors of its sockets. This is where redisCommandArgv sends what
  -- redisFormatCommandArgv makes of its arguments.
  pub run-forget :
      (cs : List ErrCall) (s : ErrInstance) (w : W)
      → forget_pair t (run t cs (s, w)) ≡ Session.run t.platform (map recall cs) (forget s, w)
  unfolding run Session.run
  run-forget [] s w = refl
  run-forget (c ∷ cs) s w =
      let (u, v) = step t (s, w) c in
      run-forget cs u v ∙ ap (Session.run t.platform (map recall cs)) (step-forget s w c)
