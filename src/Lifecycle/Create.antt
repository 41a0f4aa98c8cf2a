-- ===== src/Lifecycle/Create.antt =====
-- What redis_pool_create answers to a configuration.
use hiredispool.Base.{◌≡◌, ◌⊎◌, inl, inr, sym, ap, subst, some, none, Option-cases, arith}
use hiredispool.Config.{Config, accept_config}
use hiredispool.Config.Bounds.{
  IsAccepted, IsCounted, IsUsable, accept_config-IsAccepted, accept_config_iff,
}
use hiredispool.Platform.{Platform}
use hiredispool.Lifecycle.{
  blank, redis_init_socketpool, build, redis_pool_create, redis_pool_destroy,
}
use hiredispool.Lifecycle.Build.{Created, build-Created}

module _ {W : Type 0} (p : Platform W) (c : Config) (w : W) where
  pub create_refused :
      accept_config c ≡ none
      → redis_pool_create p c w ≡ (none, (redis_pool_destroy p (some (blank c)) w).1)
  unfolding redis_pool_create
  create_refused e = ground arith

  pub create_accepted :
      {k : Config}
      → accept_config c ≡ some k
      → redis_pool_create p c w ≡ build p (redis_init_socketpool p (blank k) w)
  unfolding redis_pool_create
  create_accepted e = ground arith

  -- redis_pool_create returns -1 for a configuration that is not usable. For a usable one, with an
  -- array as long as announced, it returns a new well-formed pool, with the normalised configuration,
  -- with as many sockets as configured, all idle and numbered; or -1, and then some mutex could not be
  -- initialised.
  pub pool_create-Created :
      IsCounted c
      → (¬ (IsUsable c)) × ((redis_pool_create p c w).0 ≡ none)
        ⊎ (k : Config) × (accept_config c ≡ some k)
          × IsAccepted k
          × Created p k (redis_pool_create p c w)
  pool_create-Created h = elim (Option-cases (accept_config c)) [
    | inl e ↦
        inl (
          λ u. let (k, f) = (accept_config_iff c).0 u in cc (e, f),
          ap (λ r. r.0) (create_refused e),
        )
    | inr (k, e) ↦
        let a = accept_config-IsAccepted c h e in
        inr (k, e, a, subst (Created p k) (sym (create_accepted e)) (build-Created p k w a))
  ]
