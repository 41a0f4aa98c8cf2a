-- ===== src/Experimental/Lifecycle/Create.antt =====
-- The later redis_pool_create and redis_pool_destroy, and the contexts that they leave.
use hiredispool.Base.{
  ℕ, ◌≡◌, ◌≢◌, ◌⊎◌, inl, inr, ◌∙◌, ap, subst, Option, none, some, Option-cases, List, map, All, pos,
  arith,
}
use hiredispool.Config.{Config, accept_config}
use hiredispool.Config.Bounds.{IsCounted, accept_config-IsAccepted}
use hiredispool.Platform.Laws.{ContextLaws}
use hiredispool.Contexts.{Balanced}
use hiredispool.Lifecycle
use hiredispool.Lifecycle.Build.{IsCreated}
use hiredispool.Lifecycle.Teardown.{destroy_contexts}
use hiredispool.Session
use hiredispool.Session.Histories.{run-IsPool, run_contexts}
use hiredispool.Experimental.{ErrInstance, Hiredis}
use hiredispool.Experimental.Lifecycle.{
  blank, redis_init_socketpool, redis_pool_destroy, build, redis_pool_create,
}
use hiredispool.Experimental.Session.{ErrCall, run}
use hiredispool.Experimental.Session.Forgetting.{FormatsArgv, recall, run-forget}
use hiredispool.Experimental.Forgetting.{forget_sock, forget}
use hiredispool.Experimental.Lifecycle.Build.{
  IsUnconnected, Built, build-Built, held-unconnected, destroy-forget, unconnected_freed,
}

module _ {W : Type 0} (t : Hiredis W) (laws : ContextLaws t.platform) where
  open laws use {live}

  refused :
      (c : Config) (w : W)
      → accept_config c ≡ none
      → redis_pool_create t c w ≡ (none, (redis_pool_destroy t (some (blank c)) w).1)
  unfolding redis_pool_create
  refused c w e = ground arith

  accepted :
      (c : Config) (w : W) {k : Config}
      → accept_config c ≡ some k
      → redis_pool_create t c w ≡ build t (redis_init_socketpool t (blank k) w)
  unfolding redis_pool_create
  accepted c w e = ground arith

  blank_freed :
      (c : Config) (w : W) (a : ℕ) → live (redis_pool_destroy t (some (blank c)) w).1 a ≡ live w a
  unfolding blank
  blank_freed c w a =
      unconnected_freed t laws c (blank c) w (record { sockets = tt; idle = tt; numbered = tt }, tt)
        a

  -- What redis_pool_create returns: a new pool, or -1.
  abbrev pub Answer : Config → Option ErrInstance × W → Type 0
  Answer c (some s, v) =
      (k : Config) × (accept_config c ≡ some k)
      × IsCreated t.platform k (forget s)
      × All IsUnconnected (map forget_sock s.redis_pool)
  Answer c (none, v) =
      (accept_config c ≡ none) ⊎ ((i : ℕ) × (u : W) × ((t.platform.mutex_init i u).0 ≢ pos 0))

  Built-Answer :
      (c k : Config) (r : Option ErrInstance × W)
      → accept_config c ≡ some k
      → Built t laws k r
      → Answer c r
  Built-Answer c k (some s, v) e b = (k, e, b.0, b.1)
  Built-Answer c k (none, v) e b = inr b

  -- For an array of endpoints as long as announced. The later redis_pool_create connects nothing: no
  -- context is made or freed, whatever it returns. If it returns a pool, that is well formed, with the
  -- normalised configuration and as many sockets as configured, all idle, unconnected and numbered. If
  -- it returns -1, the configuration was refused, or some mutex could not be initialised.
  pub create_lazily :
      (c : Config) (w : W)
      → IsCounted c
      → let r = redis_pool_create t c w in Answer c r × ((a : ℕ) → live r.1 a ≡ live w a)
  create_lazily c w h = elim (Option-cases (accept_config c)) [
    | inl e ↦ rw (refused c w e) (inl e, blank_freed c w)
    | inr (k, e) ↦
        let (b, same) = build-Built t laws k w (accept_config-IsAccepted c h e) in
        rw (accepted c w e) (Built-Answer c k _ e b, same)
  ]

  -- Where redisCommandArgv sends what it makes of its arguments: from the later redis_pool_create through
  -- any history of calls to redis_pool_destroy, every context that the pool has made is freed, exactly
  -- once, and no other is: the live contexts are those from before.
  pub lazy_no_leaks :
      FormatsArgv t
      → (c : Config) (w : W) (s : ErrInstance) (v : W) (cs : List ErrCall) → IsCounted c
      → redis_pool_create t c w ≡ (some s, v)
      → (a : ℕ)
      → let (u, x) = run t cs (s, v) in live (redis_pool_destroy t (some u) x).1 a ≡ live w a
  lazy_no_leaks f c w s v cs h e a =
      let (answer, same) =
        subst (λ r. Answer c r × ((b : ℕ) → live r.1 b ≡ live w b)) e (create_lazily c w h) in
      let (k, _, made, down) = answer in
      let p = t.platform in
      let (u, x) = run t cs (s, v) in
      let calls = map (recall t f) cs in
      let held_none = held-unconnected (map forget_sock s.redis_pool) down in
      let balanced : Balanced laws (live w) (forget s) v =
        λ b. omega (arith, same b, held_none b) in
      let o = Session.run p calls (forget s, v) in
      let q = run-forget t f cs s v in
      ap (λ r. live r.1 a) (destroy-forget t u x)
      ∙ ap (λ r. live (Lifecycle.redis_pool_destroy p (some r.0) r.1).1 a) q
      ∙ (destroy_contexts laws (live w) o.0 o.1 (run-IsPool p calls (forget s) v made.formed).0
            (run_contexts laws (live w) calls (forget s) v made.formed balanced)).1
          a
