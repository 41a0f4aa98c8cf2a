-- ===== src/Session/Histories.antt =====
-- What holds after any history of calls.
use hiredispool.Base.{
  ℕ, ◌≡◌, inl, inr, ◌∙◌, refl, ap, subst, get_elem?, length, List, [], ◌∷◌, Option-cases, some,
  none,
}
use hiredispool.Config.{Config}
use hiredispool.Config.Bounds.{IsCounted}
use hiredispool.Platform.{Platform}
use hiredispool.Platform.Laws.{ContextLaws}
use hiredispool.Instance.{Instance}
use hiredispool.Invariant.{IsPool}
use hiredispool.Acquire.{Search, found, nothing, stuck, redis_release_socket}
use hiredispool.Acquire.Results.{Answers, get_socket-Answers}
use hiredispool.Acquire.Release.{release_lem, release_null, release_lost}
use hiredispool.Command.Effects.{redis_vcommand-Kept, redis_vcommand_lost}
use hiredispool.Contexts.{Balanced, Balanced-step}
use hiredispool.Contexts.Searching.{SearchConserves, get_socket_contexts, release_contexts}
use hiredispool.Contexts.Commands.{redis_vcommand_contexts}
use hiredispool.Lifecycle.{redis_pool_create, redis_pool_destroy}
use hiredispool.Lifecycle.Teardown.{destroy_contexts}
use hiredispool.Lifecycle.Ledger.{create_contexts, CreatedContexts}
use hiredispool.Lifecycle.Build.{Created}
use hiredispool.Lifecycle.Create.{pool_create-Created}
use hiredispool.Session.{Call, get, release, command, after_search, step, run}

module _ {W : Type 0} (p : Platform W) where
  -- A well-formed pool with the configuration and the number of sockets that `s` has.
  abbrev pub Stays : Instance → Instance → Type 0
  Stays s t = IsPool t × (t.config ≡ s.config) × (length t.redis_pool ≡ length s.redis_pool)

  search_Stays :
      (s : Instance) (w : W) (o : Search W) → Answers p s o → Stays s (after_search p (s, w) o).0
  search_Stays s w (found i t v) a = (a.1, a.0.config, a.0.size)
  search_Stays s w (nothing t v) a = (a.1, a.0.config, a.0.size)
  search_Stays s w stuck a = absurd a

  -- Each call keeps the pool well formed, with its configuration and its sockets.
  pub step-IsPool : (s : Instance) (w : W) (c : Call) → IsPool s → Stays s (step p (s, w) c).0
  unfolding step
  step-IsPool s w get h = search_Stays s w _ (get_socket-Answers p s w h)
  step-IsPool s w (release none) h = rw (release_null p s w) (h, refl, refl)
  step-IsPool s w (release (some i)) h = elim (Option-cases (get_elem? s.redis_pool i)) [
    | inl e ↦ rw (release_lost p s i w e) (h, refl, refl)
    | inr (x, a) ↦ let (f, r, _) = release_lem p s i w h a in (f, r.config, r.size)
  ]
  step-IsPool s w (command i cmd) h = elim (Option-cases (get_elem? s.redis_pool i)) [
    | inl e ↦ rw (redis_vcommand_lost p s i cmd w e) (h, refl, refl)
    | inr (x, a) ↦ let (f, r, _) = redis_vcommand-Kept p s i cmd w h a in (f, r.config, r.size)
  ]

  -- Any history of calls keeps the pool well formed, with its configuration and its number of
  -- sockets.
  pub run-IsPool : (cs : List Call) (s : Instance) (w : W) → IsPool s → Stays s (run p cs (s, w)).0
  unfolding run
  run-IsPool [] s w h = (h, refl, refl)
  run-IsPool (c ∷ cs) s w h =
      let (f, q, n) = step-IsPool s w c h in
      let (t, v) = step p (s, w) c in let (f', q', n') = run-IsPool cs t v f in (f', q' ∙ q, n' ∙ n)

  -- A pool that redis_pool_create has returned is well formed.
  pub create-IsPool :
      (c : Config) (w : W) (s : Instance) (v : W)
      → IsCounted c
      → redis_pool_create p c w ≡ (some s, v)
      → IsPool s
  create-IsPool c w s v h e = elim (pool_create-Created p c w h) [
    | inl (_, missing) ↦ cc (ap (λ r. r.0) e, missing)
    | inr (k, _, _, made) ↦ (subst (Created p k) e made).formed
  ]

module _ {W : Type 0} {p : Platform W} (laws : ContextLaws p) where
  open laws use {live}

  search_Balanced :
      (f : ℕ → ℕ) (s : Instance) (w : W) (o : Search W)
      → SearchConserves laws s w o
      → Balanced laws f s w
      → let (t, v) = after_search p (s, w) o in Balanced laws f t v
  search_Balanced f s w (found i t v) c b = Balanced-step laws f s w t v c b
  search_Balanced f s w (nothing t v) c b = Balanced-step laws f s w t v c b
  search_Balanced f s w stuck c b = b

  step_contexts :
      (f : ℕ → ℕ) (s : Instance) (w : W) (c : Call)
      → IsPool s
      → Balanced laws f s w
      → let (t, v) = step p (s, w) c in Balanced laws f t v
  unfolding step
  step_contexts f s w get h b = search_Balanced f s w _ (get_socket_contexts laws s w h) b
  step_contexts f s w (release none) h b = rw (release_null p s w) b
  step_contexts f s w (release (some i)) h b = elim (Option-cases (get_elem? s.redis_pool i)) [
    | inl e ↦ rw (release_lost p s i w e) b
    | inr (x, a) ↦
        let (t, v) = redis_release_socket p s (some i) w in
        Balanced-step laws f s w t v (release_contexts laws s i w a) b
  ]
  step_contexts f s w (command i cmd) h b = elim (Option-cases (get_elem? s.redis_pool i)) [
    | inl e ↦ rw (redis_vcommand_lost p s i cmd w e) b
    | inr (x, a) ↦ redis_vcommand_contexts laws f s i cmd w h a b
  ]

  -- After any history of calls, every context that is live belongs to one socket of the pool or to
  -- others, as it was before.
  pub run_contexts :
      (f : ℕ → ℕ) (cs : List Call) (s : Instance) (w : W)
      → IsPool s
      → Balanced laws f s w
      → let (t, v) = run p cs (s, w) in Balanced laws f t v
  unfolding run
  run_contexts f [] s w h b = b
  run_contexts f (c ∷ cs) s w h b =
      let (t, v) = step p (s, w) c in
      run_contexts f cs t v (step-IsPool p s w c h).0 (step_contexts f s w c h b)

  -- From redis_pool_create through any history of calls to redis_pool_destroy, every context that the
  -- pool has made is freed, exactly once, and no other is: the live contexts are those from before.
  pub no_context_leaks :
      (c : Config) (w : W) (s : Instance) (v : W) (cs : List Call)
      → IsCounted c
      → redis_pool_create p c w ≡ (some s, v)
      → (a : ℕ)
      → let (t, u) = run p cs (s, v) in live (redis_pool_destroy p (some t) u).1 a ≡ live w a
  no_context_leaks c w s v cs h e a =
      let b = subst (CreatedContexts laws w) e (create_contexts laws c w h) in
      let f : IsPool s = create-IsPool p c w s v h e in
      let (t, u) = run p cs (s, v) in
      (destroy_contexts laws (live w) t u (run-IsPool p cs s v f).0
          (run_contexts (live w) cs s v f b)).1
        a
