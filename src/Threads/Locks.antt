-- ===== src/Threads/Locks.antt =====
-- What pthreads say of the mutexes of the sockets, for one thread that runs while the others do not, and
-- that connecting a socket leaves them alone.
use hiredispool.Base.{
  ℕ, zero, suc, ◌-◌, ◌<◌, ◌≡◌, ◌∙◌, inl, inr, refl, sym, subst, Bool-cases, true, false, Option,
  none, some, Option-cases, arith, List, ℤ, ltb_ℤ, ◌==◌, if◌then◌else◌, is_zero,
}
use hiredispool.Config.{Config, Timeval, count_of}
use hiredispool.Platform.{Platform}
use hiredispool.Instance.{Socket, Instance, sockconnected, SockState-cases}
use hiredispool.Connect.Attempts.{connect_loop_hit, connect_loop_last, connect_loop_miss}
use hiredispool.Connect.{
  Outcome, established, exhausted, advance, usable, try_endpoint, discard, connect_loop,
  choose_backup, on_success, on_failure, finish, connect_single_socket,
}
use hiredispool.Acquire.{reconnect}
use hiredispool.Acquire.Steps.{reconnect_up, reconnect_early, reconnect_due}

-- `owner w i` is the thread that has locked mutex `i`; `me` is the thread that runs.
pub record MutexLaws {W : Type 0} (p : Platform W) (me : ℕ) : Type 0 where
  pub owner : W → ℕ → Option ℕ
  -- trylock succeeds exactly on a mutex that nobody has locked
  pub trylock_held :
      (i : ℕ) (w : W) {b : ℕ}
      → owner w i ≡ some b
      → (is_zero (p.mutex_trylock i w).0 ≡ false)
        × ((j : ℕ) → owner (p.mutex_trylock i w).1 j ≡ owner w j)
  pub trylock_free :
      (i : ℕ) (w : W)
      → owner w i ≡ none
      → (is_zero (p.mutex_trylock i w).0 ≡ true)
        × ((j : ℕ) → owner (p.mutex_trylock i w).1 j ≡ (if j == i then some me else owner w j))
  -- the owner can unlock a mutex
  pub unlock_owner :
      (i : ℕ) (w : W)
      → owner w i ≡ some me
      → (j : ℕ) → owner (p.mutex_unlock i w).1 j ≡ (if j == i then none else owner w j)
  -- nothing else has to do with mutexes
  pub connect_owner :
      (h : List ℕ) (n : ℤ) (t : Timeval) (w : W) (j : ℕ)
      → owner (p.redis_connect_with_timeout h n t w).1 j ≡ owner w j
  pub free_owner : (c : Option ℕ) (w : W) (j : ℕ) → owner (p.redis_free c w) j ≡ owner w j
  pub set_timeout_owner :
      (c : ℕ) (t : Timeval) (w : W) (j : ℕ) → owner (p.redis_set_timeout c t w).1 j ≡ owner w j
  pub keep_alive_owner :
      (c : ℕ) (w : W) (j : ℕ) → owner (p.redis_enable_keep_alive c w).1 j ≡ owner w j
  pub time_owner : (w : W) (j : ℕ) → owner (p.time w).1 j ≡ owner w j
  pub rand_owner : (w : W) (j : ℕ) → owner (p.rand w).1 j ≡ owner w j

module _ {W : Type 0} {p : Platform W} {me : ℕ} (laws : MutexLaws p me) (k : Config) where
  open laws use {owner}

  world_of : Outcome W → W
  world_of (established c s w) = w
  world_of (exhausted c s w) = w

  discard_owner : (c : Option ℕ) (w : W) (j : ℕ) → owner (discard p c w) j ≡ owner w j
  unfolding discard
  discard_owner none w j = refl
  discard_owner (some c) w j = laws.free_owner (some c) w j

  try_owner : (s : Socket) (w : W) (j : ℕ) → owner (try_endpoint p k s w).1 j ≡ owner w j
  unfolding try_endpoint
  try_owner s w j = laws.connect_owner _ _ _ w j

  connect_loop_owner :
      (n : ℕ) (s : Socket) (w : W) (j : ℕ)
      → owner (world_of (connect_loop p (suc n) k s w)) j ≡ owner w j
  unfolding world_of
  connect_loop_owner zero s w j =
      elim (Option-cases (usable p (try_endpoint p k s w).0 (try_endpoint p k s w).1)) [
        | inl e ↦ rw (connect_loop_last p k s w e) (try_owner s w j)
        | inr (c, e) ↦ rw (connect_loop_hit p k 0 s w e) (try_owner s w j)
      ]
  connect_loop_owner (suc n) s w j =
      elim (Option-cases (usable p (try_endpoint p k s w).0 (try_endpoint p k s w).1)) [
        | inl e ↦
            rw (connect_loop_miss p k n s w e)
              (connect_loop_owner n (advance k s) _ j ∙ discard_owner _ _ j ∙ try_owner s w j)
        | inr (c, e) ↦ rw (connect_loop_hit p k (suc n) s w e) (try_owner s w j)
      ]

  choose_backup_owner : (s : Socket) (w : W) (j : ℕ) → owner (choose_backup p k s w).1 j ≡ owner w j
  unfolding choose_backup
  choose_backup_owner s w j = ground (arith, laws.rand_owner w j)

  finish_owner :
      (after : ℤ) (o : Outcome W) (j : ℕ)
      → owner (finish p k after o).world j ≡ owner (world_of o) j
  unfolding finish on_success on_failure world_of
  finish_owner after (established c s v) j =
      laws.keep_alive_owner c _ j
      ∙ laws.set_timeout_owner c _ _ j
      ∙ choose_backup_owner (record s { conn = some c; state = sockconnected }) v j
  finish_owner after (exhausted c s v) j = laws.time_owner _ j ∙ discard_owner c v j

  connect_owners :
      (after : ℤ) (s : Socket) (w : W) (m j : ℕ)
      → count_of k ≡ suc m
      → owner (connect_single_socket p k after s w).world j ≡ owner w j
  unfolding connect_single_socket
  connect_owners after s w m j e =
      finish_owner after (connect_loop p (count_of k) k s w) j
      ∙ subst (λ n. owner (world_of (connect_loop p n k s w)) j ≡ owner w j) (sym e)
          (connect_loop_owner m s w j)

module _ {W : Type 0} {p : Platform W} {me : ℕ} (laws : MutexLaws p me) (s : Instance) where
  open laws use {owner}

  pub reconnect_owners :
      (x : Socket) (w : W) (j : ℕ)
      → 0 < count_of s.config
      → owner (reconnect p s x w).2 j ≡ owner w j
  reconnect_owners x w j h = elim (SockState-cases x.state) [
    | inr up ↦ rw (reconnect_up p s x w up) refl
    | inl down ↦ elim (Bool-cases (ltb_ℤ s.connect_after (p.time w).0)) [
      | inr early ↦ rw (reconnect_early p s x w down early) (laws.time_owner w j)
      | inl due ↦ rw (reconnect_due p s x w down due) (
          connect_owners laws s.config s.connect_after x (p.time w).1 (count_of s.config - 1) j
            (omega arith)
          ∙ laws.time_owner w j)
    ]
  ]
