-- ===== src/Contexts/Acquiring.antt =====
-- redis_get_socket and redis_release_socket neither leak a context nor free one twice.
use hiredispool.Base.{
  ℕ, ◌+◌, ◌<◌, ◌≡◌, inl, inr, refl, ap, subst, set, true, false, Bool-cases, none, arith, ltb_ℤ,
  is_zero,
}
use hiredispool.Config.{Config, count_of}
use hiredispool.Platform.{Platform}
use hiredispool.Platform.Laws.{ContextLaws, at_address}
use hiredispool.Instance.{sockunconnected, SockState-cases, Socket, Instance, store, next_of}
use hiredispool.Connect.Contexts.{connect_contexts}
use hiredispool.Invariant.{IsSocket, IsLinked}
use hiredispool.Invariant.Frame.{At}
use hiredispool.Acquire.{Visit, taken, skipped, reconnect, grab, visit}
use hiredispool.Acquire.Steps.{
  reconnect_up, reconnect_early, reconnect_due, grab_up, grab_down, visit_busy, visit_in_use,
  visit_free,
}
use hiredispool.Contexts.{held, held-set, Conserves}

module _ {W : Type 0} {p : Platform W} (laws : ContextLaws p) where
  open laws use {live}

  down_none : (k : Config) (x : Socket) → IsSocket k x → x.state ≡ sockunconnected → x.conn ≡ none
  down_none k x h e = subst (λ t. IsLinked t x.conn) e h.linked

  -- Reconnecting exchanges the context of the socket for the one that is made.
  reconnect_ledger :
      (s : Instance) (x : Socket) (w : W) (a : ℕ)
      → 0 < count_of s.config
      → IsSocket s.config x
      → let (t, y, v) = reconnect p s x w in
        (live v a + at_address x.conn a ≡ live w a + at_address y.conn a)
        × (t.redis_pool ≡ s.redis_pool)
  reconnect_ledger s x w a pos_count h = elim (SockState-cases x.state) [
    | inr up ↦ rw (reconnect_up p s x w up) (refl, refl)
    | inl down ↦ elim (Bool-cases (ltb_ℤ s.connect_after (p.time w).0)) [
      | inr early ↦
          rw (reconnect_early p s x w down early)
            (ap (λ n. n + at_address x.conn a) (laws.time_live w a), refl)
      | inl due ↦ rw (reconnect_due p s x w down due) (
        omega (
          arith,
          ap (λ c. at_address c a) (down_none s.config x h down),
          connect_contexts laws s.config s.connect_after x (p.time w).1 pos_count a,
          laws.time_live w a,
        ),
        refl,
      )
    ]
  ]

  -- A round, however it ends.
  abbrev pub VisitConserves : Instance → W → Visit W → Type 0
  VisitConserves s w (taken t v) = Conserves laws s w t v
  VisitConserves s w (skipped t v) = Conserves laws s w t v

  -- Writing `y` over `x` moves the ledger from the context of `x` to that of `y`.
  stored_ledger :
      (s t : Instance) (cur : ℕ) (x y : Socket) (w v : W)
      → At s cur x
      → t.redis_pool ≡ set s.redis_pool cur y
      → ((a : ℕ) → live v a + at_address x.conn a ≡ live w a + at_address y.conn a)
      → Conserves laws s w t v
  stored_ledger s t cur x y w v e q l a =
      omega (arith, held-set s.redis_pool cur x y a e, ap (λ xs. held xs a) q, l a)

  grab_ledger :
      (s : Instance) (cur : ℕ) (x : Socket) (w : W) (r : Instance × Socket × W)
      → At s cur x
      → ((a : ℕ)
          → (live r.2 a + at_address x.conn a ≡ live w a + at_address r.1.conn a)
            × (r.0.redis_pool ≡ s.redis_pool))
      → VisitConserves s w (grab p cur r)
  grab_ledger s cur x w (t, y, v) e l = elim (SockState-cases y.state) [
    | inl down ↦ rw (grab_down p s cur t y v down) (
        stored_ledger s (store t cur (record y { inuse = false })) cur x
          (record y { inuse = false }) w (p.mutex_unlock y.id v).1 e
          (ap (λ xs. set xs cur (record y { inuse = false })) (l 0).1)
          (λ a. omega (arith, (l a).0, laws.unlock_live y.id v a)))
    | inr up ↦ rw (grab_up p s cur t y v up) (
        stored_ledger s (record (store t cur y) { last_used = next_of t cur }) cur x y w v e
          (ap (λ xs. set xs cur y) (l 0).1) (λ a. (l a).0))
  ]

  pub visit_ledger :
      (s : Instance) (cur : ℕ) (x : Socket) (w : W)
      → 0 < count_of s.config
      → IsSocket s.config x
      → At s cur x
      → VisitConserves s w (visit p s cur x w)
  visit_ledger s cur x w n h e = elim (Bool-cases (is_zero (p.mutex_trylock x.id w).0)) [
    | inr busy ↦ rw (visit_busy p s cur x w busy) (λ a. omega (arith, laws.trylock_live x.id w a))
    | inl got ↦ elim (Bool-cases x.inuse) [
      | inl used ↦ rw (visit_in_use p s cur x w got used) (λ a.
          omega
            (arith, laws.trylock_live x.id w a, laws.unlock_live x.id (p.mutex_trylock x.id w).1 a))
      | inr free ↦ rw (visit_free p s cur x w got free) (
          grab_ledger s cur x w _ e λ a.
            let y = record x { inuse = true } in
            let (l, q) =
              reconnect_ledger s y (p.mutex_trylock x.id w).1 a n
                (record { backup_lt = h.backup_lt; linked = h.linked }) in
            (omega (arith, l, laws.trylock_live x.id w a), q))
    ]
  ]
