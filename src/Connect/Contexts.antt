-- ===== src/Connect/Contexts.antt =====
-- connect_single_socket neither leaks a hiredis context nor frees one that is not its own.
use hiredispool.Base.{
  ℕ, zero, suc, ◌+◌, ◌-◌, ◌<◌, ◌≡◌, inl, inr, sym, subst, Option, none, some, Option-cases, arith,
  ℤ,
}
use hiredispool.Config.{Config, count_of}
use hiredispool.Platform.{Platform}
use hiredispool.Platform.Laws.{ContextLaws, at_address}
use hiredispool.Instance.{Socket, sockconnected}
use hiredispool.Connect.Attempts.{connect_loop_hit, connect_loop_last, connect_loop_miss}
use hiredispool.Connect.{
  Connected, Outcome, established, exhausted, advance, usable, try_endpoint, discard, connect_loop,
  choose_backup, on_success, on_failure, finish, connect_single_socket,
}

module _ {W : Type 0} {p : Platform W} (laws : ContextLaws p) (k : Config) where
  open laws use {live}

  -- The world after the loop has one more live context: the one that the loop ends with.
  abbrev Gains : W → Outcome W → Type 0
  Gains w (established c s v) = (a : ℕ) → live v a ≡ live w a + at_address (some c) a
  Gains w (exhausted c s v) = (a : ℕ) → live v a ≡ live w a + at_address c a

  try_endpoint_gain :
      (s : Socket) (w : W) (a : ℕ)
      → live (try_endpoint p k s w).1 a ≡ live w a + at_address (try_endpoint p k s w).0 a
  unfolding try_endpoint
  try_endpoint_gain s w a = laws.connect_live _ _ _ w a

  usable_same : (c : Option ℕ) (w : W) {h : ℕ} → usable p c w ≡ some h → c ≡ some h
  unfolding usable
  usable_same none w e = e
  usable_same (some c) w e = ground arith

  -- Freeing what an attempt has made restores the count.
  discard_undo :
      (c : Option ℕ) (w v : W)
      → ((a : ℕ) → live v a ≡ live w a + at_address c a)
      → (a : ℕ) → live (discard p c v) a ≡ live w a
  unfolding discard
  discard_undo none w v h a = omega (arith, h a)
  discard_undo (some c) w v h a =
      let own : 0 < live v c = ground (arith, h c) in ground (arith, h a, laws.free_live c v a own)

  Gains-after : (w v : W) (o : Outcome W) → ((a : ℕ) → live v a ≡ live w a) → Gains v o → Gains w o
  Gains-after w v (established c s u) same g = λ a. omega (arith, same a, g a)
  Gains-after w v (exhausted c s u) same g = λ a. omega (arith, same a, g a)

  -- A usable context is the one that the attempt has just made.
  hit_gain :
      (s : Socket) (w : W) {c : ℕ}
      → usable p (try_endpoint p k s w).0 (try_endpoint p k s w).1 ≡ some c
      → (a : ℕ) → live (try_endpoint p k s w).1 a ≡ live w a + at_address (some c) a
  hit_gain s w e a =
      subst (λ c. live (try_endpoint p k s w).1 a ≡ live w a + at_address c a) (usable_same _ _ e)
        (try_endpoint_gain s w a)

  connect_loop-Gains : (n : ℕ) (s : Socket) (w : W) → Gains w (connect_loop p (suc n) k s w)
  connect_loop-Gains zero s w =
      elim (Option-cases (usable p (try_endpoint p k s w).0 (try_endpoint p k s w).1)) [
        | inl e ↦ rw (connect_loop_last p k s w e) (try_endpoint_gain s w)
        | inr (c, e) ↦ rw (connect_loop_hit p k 0 s w e) (hit_gain s w e)
      ]
  connect_loop-Gains (suc n) s w =
      elim (Option-cases (usable p (try_endpoint p k s w).0 (try_endpoint p k s w).1)) [
        | inl e ↦ rw (connect_loop_miss p k n s w e) (
            Gains-after w _ _ (discard_undo _ w _ (try_endpoint_gain s w))
              (connect_loop-Gains n (advance k s) _))
        | inr (c, e) ↦ rw (connect_loop_hit p k (suc n) s w e) (hit_gain s w e)
      ]

  -- The world of a result has gained the context that its socket holds.
  abbrev Keeps : W → Connected W → Type 0
  Keeps w r = (a : ℕ) → live r.world a ≡ live w a + at_address r.sock.conn a

  choose_backup_live : (s : Socket) (w : W) (a : ℕ) → live (choose_backup p k s w).1 a ≡ live w a
  unfolding choose_backup
  choose_backup_live s w a = ground (arith, laws.rand_live w a)

  choose_backup_conn : (s : Socket) (w : W) → (choose_backup p k s w).0.conn ≡ s.conn
  unfolding choose_backup
  choose_backup_conn s w = ground arith

  finish-Keeps : (after : ℤ) (w : W) (o : Outcome W) → Gains w o → Keeps w (finish p k after o)
  unfolding finish on_success on_failure advance
  finish-Keeps after w (established c s v) g = λ a.
      let t = record s { conn = some c; state = sockconnected } in
      let (x, w1) = choose_backup p k t v in
      rw
        (
          laws.keep_alive_live c _ a,
          laws.set_timeout_live c _ _ a,
          choose_backup_live t v a,
          choose_backup_conn t v,
        )
        (g a)
  finish-Keeps after w (exhausted c s v) g =
      λ a. omega (arith, laws.time_live (discard p c v) a, discard_undo c w v g a)

  -- The contexts that are live after the call are those that were live before it, and the one that
  -- the socket holds: the contexts of the failed attempts have been freed, each exactly once.
  pub connect_contexts :
      (after : ℤ) (s : Socket) (w : W)
      → 0 < count_of k
      → (a : ℕ)
      → let r = connect_single_socket p k after s w in
        live r.world a ≡ live w a + at_address r.sock.conn a
  unfolding connect_single_socket
  connect_contexts after s w h =
      let eq : count_of k ≡ suc (count_of k - 1) = omega arith in
      finish-Keeps after w _ (
        subst (λ n. Gains w (connect_loop p n k s w)) (sym eq)
          (connect_loop-Gains (count_of k - 1) s w))
