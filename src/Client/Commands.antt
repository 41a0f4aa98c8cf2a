-- ===== src/Client/Commands.antt =====
-- What a command of the client leaves of the pool.
use native.Mathlib.Decide.{ℕ_discrete}
use hiredispool.Base.{
  ℕ, ◌≡◌, inl, inr, ◌∙◌, refl, ap, sym, subst, length, List, [], ◌∷◌, some, none, false, arith,
}
use hiredispool.Platform.{Platform}
use hiredispool.Platform.Laws.{ContextLaws}
use hiredispool.Instance.{Socket, Instance}
use hiredispool.Invariant.{IsPool}
use hiredispool.Invariant.Frame.{At, Same, Kept, Same-trans, some_inj}
use hiredispool.Acquire.{found, nothing, redis_get_socket, redis_release_socket}
use hiredispool.Acquire.Effects.{Got}
use hiredispool.Acquire.Results.{Answers, get_socket-Answers}
use hiredispool.Acquire.Release.{Released, release_lem, release_null, Search-cases}
use hiredispool.Command.{redis_vcommand}
use hiredispool.Command.Effects.{redis_vcommand-Kept}
use hiredispool.Contexts.{Balanced, Balanced-step}
use hiredispool.Contexts.Searching.{SearchConserves, get_socket_contexts, release_contexts}
use hiredispool.Contexts.Commands.{redis_vcommand_contexts}
use hiredispool.Config.{Config}
use hiredispool.Config.Bounds.{IsCounted}
use hiredispool.Lifecycle.Teardown.{destroy_contexts}
use hiredispool.Lifecycle.Ledger.{create_contexts, CreatedContexts}
use hiredispool.Session.Histories.{create-IsPool}
use hiredispool.Client.{
  redis_command, on_socket, redisv_command, redis_commands, redis_client, close_client,
}

-- A well-formed pool with the configuration that it had, in which each socket has the id and the
-- `inuse` that it had.
pub record GivenBack (s t : Instance) : Type 0 where
  pub formed : IsPool t
  pub config : t.config ≡ s.config
  pub size : length t.redis_pool ≡ length s.redis_pool
  pub each : (j : ℕ) → Same s t j

module _ {W : Type 0} (p : Platform W) where
  -- Socket `i` was taken, then used, and then released.
  used-Released :
      (s t m u : Instance) (i : ℕ) (y : Socket) (g : Got s i t)
      → Kept t m
      → At m i y
      → y.id ≡ g.after.0.id
      → Released m i y u
      → (j : ℕ) → Same s u j
  used-Released s t m u i y g k b same_id r j = elim (ℕ_discrete j i) [
    | no ne ↦
        Same-trans s t u j (g.others j ne)
          (Same-trans t m u j (k.each j) (λ x a. (x, r.others j ne ∙ a, refl, refl)))
    | yes e ↦ subst (Same s u) (sym e) λ x a.
        let same : g.before.0 ≡ x = some_inj (sym g.before.1 ∙ a) in
        (
          record y { inuse = false },
          r.freed,
          same_id ∙ g.after.2 ∙ ap (λ q. q.id) same,
          sym g.before.2 ∙ ap (λ q. q.inuse) same,
        )
  ]

  on_socket-GivenBack :
      (s t : Instance) (i : ℕ) (cmd : List ℕ) (v : W)
      → Got s i t
      → IsPool t
      → GivenBack s (on_socket p i cmd t v).1
  unfolding on_socket
  on_socket-GivenBack s t i cmd v g h =
      let (f, k, _) = redis_vcommand-Kept p t i cmd v h g.after.1 in
      let (_, m, x) = redis_vcommand p t i cmd v in
      let (y, b, same_id, _) = k.each i g.after.0 g.after.1 in
      let (f', r, _) = release_lem p m i x f b in
      record {
        formed = f';
        config = r.config ∙ k.config ∙ g.config;
        size = r.size ∙ k.size ∙ g.size;
        each = used-Released s t m _ i y g k b same_id r;
      }

  found_command :
      (s t : Instance) (i : ℕ) (cmd : List ℕ) (w v : W)
      → redis_get_socket p s w ≡ found i t v
      → redisv_command p s cmd w ≡ on_socket p i cmd t v
  unfolding redisv_command
  found_command s t i cmd w v e = ground arith

  null_command :
      (s t : Instance) (cmd : List ℕ) (w v : W)
      → redis_get_socket p s w ≡ nothing t v
      → redisv_command p s cmd w ≡ (none, t, v)
  unfolding redisv_command
  null_command s t cmd w v e = ground (arith, release_null p t v)

  -- A command of the client gives back the socket that it takes: the pool stays well formed, and each
  -- socket of it keeps its id and its `inuse`.
  pub redisv_command-GivenBack :
      (s : Instance) (cmd : List ℕ) (w : W) → IsPool s → GivenBack s (redisv_command p s cmd w).1
  redisv_command-GivenBack s cmd w h =
      let answer = get_socket-Answers p s w h in
      elim (Search-cases p (redis_get_socket p s w)) [
        | inl (i, t, v, e) ↦
            let a = subst (Answers p s) e answer in
            rw (found_command s t i cmd w v e) (on_socket-GivenBack s t i cmd v a.0 a.1)
        | inr (inl (t, v, e)) ↦
            let (k, f, _) = subst (Answers p s) e answer in
            rw (null_command s t cmd w v e)
              (record { formed = f; config = k.config; size = k.size; each = k.each })
        | inr (inr e) ↦ absurd (subst (Answers p s) e answer)
      ]

  pub redis_commands-GivenBack :
      (cmds : List (List ℕ)) (s : Instance) (w : W)
      → IsPool s
      → GivenBack s (redis_commands p cmds s w).1
  unfolding redis_commands redis_command
  redis_commands-GivenBack [] s w h = record {
    formed = h;
    config = refl;
    size = refl;
    each = λ j x a. (x, a, refl, refl);
  }
  redis_commands-GivenBack (cmd ∷ cmds) s w h =
      let b = redisv_command-GivenBack s cmd w h in
      let (_, t, v) = redisv_command p s cmd w in
      let u = (redis_commands p cmds t v).1 in
      let c = redis_commands-GivenBack cmds t v b.formed in
      record {
        formed = c.formed;
        config = c.config ∙ b.config;
        size = c.size ∙ b.size;
        each = λ j. Same-trans s t u j (b.each j) (c.each j);
      }

-- The contexts that are live after a command of the client are those from before, and those that the
-- sockets of the pool have gained, less those that they have lost.
module _ {W : Type 0} {p : Platform W} (laws : ContextLaws p) where
  on_socket_contexts :
      (f : ℕ → ℕ) (s t : Instance) (i : ℕ) (cmd : List ℕ) (v : W)
      → Got s i t
      → IsPool t
      → Balanced laws f t v
      → let (_, u, x) = on_socket p i cmd t v in Balanced laws f u x
  unfolding on_socket
  on_socket_contexts f s t i cmd v g h b =
      let (fm, k, _) = redis_vcommand-Kept p t i cmd v h g.after.1 in
      let (_, m, x) = redis_vcommand p t i cmd v in
      let (y, a, _, _) = k.each i g.after.0 g.after.1 in
      let (u, z) = redis_release_socket p m (some i) x in
      Balanced-step laws f m x u z (release_contexts laws m i x a)
        (redis_vcommand_contexts laws f t i cmd v h g.after.1 b)

  -- A command of the client keeps the books balanced, whether it gets a socket or not and whether the
  -- command is answered or not.
  pub redisv_command_contexts :
      (f : ℕ → ℕ) (s : Instance) (cmd : List ℕ) (w : W)
      → IsPool s
      → Balanced laws f s w
      → let (_, t, v) = redisv_command p s cmd w in Balanced laws f t v
  redisv_command_contexts f s cmd w h b =
      let answer = get_socket-Answers p s w h in
      let ledger = get_socket_contexts laws s w h in
      elim (Search-cases p (redis_get_socket p s w)) [
        | inl (i, t, v, e) ↦
            let a = subst (Answers p s) e answer in
            let c = Balanced-step laws f s w t v (subst (SearchConserves laws s w) e ledger) b in
            rw (found_command p s t i cmd w v e) (on_socket_contexts f s t i cmd v a.0 a.1 c)
        | inr (inl (t, v, e)) ↦
            let c = Balanced-step laws f s w t v (subst (SearchConserves laws s w) e ledger) b in
            rw (null_command p s t cmd w v e) c
        | inr (inr e) ↦ absurd (subst (Answers p s) e answer)
      ]

  redis_commands_contexts :
      (f : ℕ → ℕ) (cmds : List (List ℕ)) (s : Instance) (w : W)
      → IsPool s
      → Balanced laws f s w
      → let (_, t, v) = redis_commands p cmds s w in Balanced laws f t v
  unfolding redis_commands redis_command
  redis_commands_contexts f [] s w h b = b
  redis_commands_contexts f (cmd ∷ cmds) s w h b =
      let (_, t, v) = redisv_command p s cmd w in
      redis_commands_contexts f cmds t v (redisv_command-GivenBack p s cmd w h).formed
        (redisv_command_contexts f s cmd w h b)

  -- The life of a client: its constructor, any number of commands and its destructor leave the live
  -- contexts as they were.
  pub client_life :
      (conf : Config) (w : W) (s : Instance) (v : W) (cmds : List (List ℕ))
      → IsCounted conf
      → redis_client p conf w ≡ (some s, v)
      → (a : ℕ)
      → let (_, t, u) = redis_commands p cmds s v in
        laws.live (close_client p t u) a ≡ laws.live w a
  unfolding redis_client close_client
  client_life conf w s v cmds h e a =
      let b = subst (CreatedContexts laws w) e (create_contexts laws conf w h) in
      let f : IsPool s = create-IsPool p conf w s v h e in
      let (_, t, u) = redis_commands p cmds s v in
      let k = redis_commands-GivenBack p cmds s v f in
      let c = redis_commands_contexts (laws.live w) cmds s v f b in
      (destroy_contexts laws (laws.live w) t u k.formed c).1 a
