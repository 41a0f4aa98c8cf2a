-- ===== src/Lifecycle/Ledger.antt =====
-- The contexts that redis_pool_create makes are those of the pool that it returns.
use hiredispool.Base.{
  ℕ, suc, zero, ◌+◌, ◌<◌, ◌≡◌, inl, inr, refl, sym, ap, subst, some, none, Option, Option-cases,
  Bool-cases, arith, pos_part, ltb_ℤ, ◌∷◌, is_zero,
}
use hiredispool.Config.{Config, count_of, accept_config}
use hiredispool.Config.Bounds.{IsAccepted, IsCounted, accept_config-IsAccepted}
use hiredispool.Platform.{Platform}
use hiredispool.Platform.Laws.{ContextLaws, at_address}
use hiredispool.Instance.{Instance}
use hiredispool.Connect.Contexts.{connect_contexts}
use hiredispool.Contexts.{held, Balanced, Conserves}
use hiredispool.Lifecycle.{
  new_socket, blank, first_connect, link, init_loop, redis_init_socketpool, build,
  redis_pool_create, redis_pool_destroy, redis_poolfree,
}
use hiredispool.Lifecycle.Teardown.{poolfree_ledger}
use hiredispool.Lifecycle.Build.{
  First, Loop, first_due, first_early, first_connect-First, new_socket-IsSocket, init_fail, init_on,
  init_end, init_loop-Loop, init_socketpool_lem, build_ok, build_bad,
}
use hiredispool.Lifecycle.Create.{create_refused, create_accepted}

module _ {W : Type 0} {p : Platform W} (laws : ContextLaws p) where
  open laws use {live}

  first_ledger :
      (s : Instance) (i : ℕ) (w : W) (a : ℕ)
      → 0 < count_of s.config
      → let r = first_connect p s (new_socket s.config i) w in
        live r.2 a ≡ live w a + at_address r.1.conn a
  unfolding new_socket
  first_ledger s i w a many =
      let x = new_socket s.config i in
      elim (Bool-cases (ltb_ℤ s.connect_after (p.time w).0)) [
        | inl due ↦ rw (first_due p s x w due) (
            omega (
              arith,
              connect_contexts laws s.config s.connect_after x (p.time w).1 many a,
              laws.time_live w a,
            ))
        | inr early ↦ rw (first_early p s x w early) (omega (arith, laws.time_live w a))
      ]

  init_ledger :
      (n i : ℕ) (s : Instance) (w : W)
      → 0 < count_of s.config
      → let (_, t, v) = init_loop p n i s w in Conserves laws s w t v
  unfolding held
  init_ledger zero i s w many = rw (init_end p i s w) (λ a. refl)
  init_ledger (suc n) i s w many = elim (Bool-cases (is_zero (p.mutex_init i w).0)) [
    | inr bad ↦ rw (init_fail p n i s w bad) (λ a. omega (arith, laws.init_live i w a))
    | inl good ↦
        let v = (p.mutex_init i w).1 in
        let r = first_connect p s (new_socket s.config i) v in
        let f : First p s (new_socket s.config i) r =
          first_connect-First p s (new_socket s.config i) v
            (new_socket-IsSocket p s.config i many) in
        let t = (link p r).0 in
        rw (init_on p n i s w good) λ a. omega (
          arith,
          init_ledger n (suc i) t r.2
              (subst (λ k. 0 < count_of k) (sym (ap (λ q. q.config) f.same)) many) a,
          ap (λ q. held (r.1 ∷ q.redis_pool) a) f.same,
          first_ledger s i v a many,
          laws.init_live i w a,
        )
  ]

  -- The contexts that are live after redis_pool_create: those that were live before, and those that
  -- the sockets of the new pool hold; where it returns -1, those that were live before.
  abbrev pub CreatedContexts : W → Option Instance × W → Type 0
  CreatedContexts w (some s, v) = Balanced laws (live w) s v
  CreatedContexts w (none, v) = (a : ℕ) → live v a ≡ live w a

  build_ledger :
      (k : Config) (w : W)
      → IsAccepted k
      → CreatedContexts w (build p (redis_init_socketpool p (blank k) w))
  unfolding held redis_pool_destroy
  build_ledger k w h =
      let (rc, t, v) = init_loop p (pos_part k.num_redis_socks) 0 (blank k) w in
      let l = init_ledger (pos_part k.num_redis_socks) 0 (blank k) w h.some_endpoint in
      let g : Loop p (pos_part k.num_redis_socks) (blank k)
          (init_loop p (pos_part k.num_redis_socks) 0 (blank k) w) =
        init_loop-Loop p (pos_part k.num_redis_socks) 0 (blank k) w h.some_endpoint
          (record { sockets = tt; idle = tt; numbered = tt }) refl in
      rw (init_socketpool_lem p k w) (elim g.ended [
        | inl (ok, _) ↦
            rw (build_ok p rc (record t { last_used = none }) v ok) (λ a. omega (arith, l a))
        | inr (bad, _) ↦ rw (build_bad p rc (record t { last_used = none }) v bad) (
            poolfree_ledger laws k t.redis_pool (live w) v g.built.sockets
              (λ a. omega (arith, l a)))
      ])

  -- redis_pool_create leaks no context: after a success the new ones are held by the sockets of the
  -- pool, each by one socket, and after a failure there are none.
  pub create_contexts :
      (c : Config) (w : W) → IsCounted c → CreatedContexts w (redis_pool_create p c w)
  unfolding redis_pool_destroy redis_poolfree
  create_contexts c w h = elim (Option-cases (accept_config c)) [
    | inl e ↦ rw (create_refused p c w e) (λ a. refl)
    | inr (k, e) ↦ rw (create_accepted p c w e) (build_ledger k w (accept_config-IsAccepted c h e))
  ]
