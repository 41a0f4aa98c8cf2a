-- ===== src/Lifecycle/Teardown.antt =====
-- redis_pool_destroy and the contexts that the pool holds.
use hiredispool.Base.{
  ℕ, ◌+◌, ◌≤◌, ◌≡◌, inl, inr, refl, ap, subst, List, [], ◌∷◌, some, arith, pos, All,
}
use hiredispool.Config.{Config}
use hiredispool.Platform.{Platform}
use hiredispool.Platform.Laws.{ContextLaws, at_address}
use hiredispool.Instance.{SockState-cases, sockconnected, sockunconnected, Socket, Instance}
use hiredispool.Invariant.{IsSocket, IsPool, IsLinked}
use hiredispool.Contexts.{held, Balanced}
use hiredispool.Contexts.Commands.{free_ledger}
use hiredispool.Lifecycle.{redis_close_socket, redis_poolfree, redis_pool_destroy}

module _ {W : Type 0} {p : Platform W} (laws : ContextLaws p) where
  open laws use {live}

  close_up :
      (x : Socket) (w : W)
      → x.state ≡ sockconnected
      → redis_close_socket p x w ≡ (p.mutex_destroy x.id (p.redis_free x.conn w)).1
  unfolding redis_close_socket
  close_up x w e = ground arith

  close_down :
      (x : Socket) (w : W)
      → x.state ≡ sockunconnected
      → redis_close_socket p x w ≡ (p.mutex_destroy x.id w).1
  unfolding redis_close_socket
  close_down x w e = ground arith

  -- Closing a socket frees its context, if it has one.
  close_ledger :
      (k : Config) (x : Socket) (w : W)
      → IsSocket k x
      → ((a : ℕ) → at_address x.conn a ≤ live w a)
      → (a : ℕ) → live (redis_close_socket p x w) a + at_address x.conn a ≡ live w a
  close_ledger k x w h owned a = elim (SockState-cases x.state) [
    | inr up ↦ omega (
      arith,
      ap (λ v. live v a) (close_up x w up),
      laws.destroy_live x.id (p.redis_free x.conn w) a,
      free_ledger laws x.conn w owned a,
    )
    | inl down ↦ omega (
      arith,
      ap (λ v. live v a) (close_down x w down),
      laws.destroy_live x.id w a,
      ap (λ c. at_address c a) (subst (λ t. IsLinked t x.conn) down h.linked),
    )
  ]

  pub poolfree_ledger :
      (k : Config) (xs : List Socket) (f : ℕ → ℕ) (w : W)
      → All (IsSocket k) xs
      → ((a : ℕ) → live w a ≡ f a + held xs a)
      → (a : ℕ) → live (redis_poolfree p xs w) a ≡ f a
  unfolding redis_poolfree held
  poolfree_ledger k [] f w h b a = omega (arith, b a)
  poolfree_ledger k (x ∷ xs) f w h b a =
      poolfree_ledger k xs f (redis_close_socket p x w) h.1
        (λ c. omega (arith, b c, close_ledger k x w h.0 (λ d. omega (arith, b d)) c)) a

  -- Destroying a well-formed pool frees each context that its sockets hold, once, and no other: what
  -- is live afterwards is what belongs to others.
  pub destroy_contexts :
      (f : ℕ → ℕ) (s : Instance) (w : W)
      → IsPool s
      → Balanced laws f s w
      → let (rc, v) = redis_pool_destroy p (some s) w in (rc ≡ pos 0) × ((a : ℕ) → live v a ≡ f a)
  unfolding redis_pool_destroy
  destroy_contexts f s w h b = (refl, poolfree_ledger s.config s.redis_pool f w h.sockets b)
