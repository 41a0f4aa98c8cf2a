-- ===== src/Experimental/Lifecycle/Build.antt =====
-- The sockets that the later redis_init_socketpool makes, without a connection.
use native.Mathlib.Nat.{mod-lt}
use hiredispool.Base.{
  ℕ, zero, suc, ◌+◌, ◌<◌, ◌≡◌, ◌≢◌, ◌⊎◌, inl, inr, ◌∙◌, refl, sym, ap, subst, true, false,
  Bool-cases, Option, none, some, List, [], ◌∷◌, map, length, All, ℤ, pos, negsuc, pos_part,
  is_zero, is_zero-false, arith,
}
use hiredispool.Config.{Config, count_of}
use hiredispool.Config.Bounds.{IsAccepted}
use hiredispool.Platform.Laws.{ContextLaws}
use hiredispool.Instance.{sockunconnected, Socket}
use hiredispool.Invariant.{IsSocket}
use hiredispool.Contexts.{held}
use hiredispool.Lifecycle
use hiredispool.Lifecycle.Build.{IsBuilt, IsCreated}
use hiredispool.Lifecycle.Teardown.{poolfree_ledger}
use hiredispool.Experimental.{ErrSocket, ErrInstance, Hiredis}
use hiredispool.Experimental.Lifecycle.{
  blank, new_socket, init_loop, redis_init_socketpool, redis_close_socket, redis_poolfree,
  redis_pool_destroy, build,
}
use hiredispool.Experimental.Forgetting.{forget_sock, forget}

abbrev pub IsUnconnected : Socket → Type 0
IsUnconnected x = (x.state ≡ sockunconnected) × (x.conn ≡ none)

-- New sockets: well formed, idle, numbered from 0 up, the last one made in front, and unconnected.
abbrev pub AreNew : Config → List ErrSocket → Type 0
AreNew k ys = IsBuilt k (map forget_sock ys) × All IsUnconnected (map forget_sock ys)

pub held-unconnected : (xs : List Socket) → All IsUnconnected xs → (a : ℕ) → held xs a ≡ 0
unfolding held
held-unconnected [] h a = refl
held-unconnected (x ∷ xs) ((_, e), h) a = ground (arith, held-unconnected xs h a)

length-map_sock : (ys : List ErrSocket) → length (map forget_sock ys) ≡ length ys
length-map_sock [] = refl
length-map_sock (y ∷ ys) = ap suc (length-map_sock ys)

module _ {W : Type 0} (t : Hiredis W) where
  new_socket-AreNew :
      (k : Config) (i : ℕ) (ys : List ErrSocket)
      → 0 < count_of k
      → i ≡ length ys
      → AreNew k ys
      → AreNew k (new_socket t k i ∷ ys)
  unfolding new_socket Lifecycle.new_socket
  new_socket-AreNew k i ys many e (b, u) = (
    record {
      sockets = (record { backup_lt = mod-lt i many; linked = refl }, b.sockets);
      idle = (refl, b.idle);
      numbered = (e ∙ sym (length-map_sock ys), b.numbered);
    },
    ((refl, refl), u),
  )

  poolfree-forget :
      (ys : List ErrSocket) (w : W)
      → redis_poolfree t ys w ≡ Lifecycle.redis_poolfree t.platform (map forget_sock ys) w
  unfolding redis_poolfree redis_close_socket Lifecycle.redis_poolfree Lifecycle.redis_close_socket
  poolfree-forget [] w = refl
  poolfree-forget (y ∷ ys) w = poolfree-forget ys (redis_close_socket t y w)

  pub destroy-forget :
      (s : ErrInstance) (w : W)
      → redis_pool_destroy t (some s) w
        ≡ Lifecycle.redis_pool_destroy t.platform (some (forget s)) w
  unfolding redis_pool_destroy Lifecycle.redis_pool_destroy
  destroy-forget s w = ap (λ v. (pos 0, v)) (poolfree-forget s.redis_pool w)

  module _ (laws : ContextLaws t.platform) where
    open laws use {live}

    -- How the loop ends: `n` more sockets, or a mutex that could not be initialised; no context is made.
    pub record Loop (n : ℕ) (s : ErrInstance) (w : W) (r : ℤ × ErrInstance × W) : Type 0 where
      pub config : r.1.config ≡ s.config
      pub made : AreNew s.config r.1.redis_pool
      pub same_live : (a : ℕ) → live r.2 a ≡ live w a
      pub ended :
          (r.0 ≡ pos 0) × (length r.1.redis_pool ≡ n + length s.redis_pool)
          ⊎ (r.0 ≡ negsuc 0) × ((i : ℕ) × (u : W) × ((t.platform.mutex_init i u).0 ≢ pos 0))

    init_fail :
        (n i : ℕ) (s : ErrInstance) (w : W)
        → is_zero (t.platform.mutex_init i w).0 ≡ false
        → init_loop t (suc n) i s w ≡ (negsuc 0, s, (t.platform.mutex_init i w).1)
    unfolding init_loop
    init_fail n i s w e = ground arith

    init_on :
        (n i : ℕ) (s : ErrInstance) (w : W)
        → is_zero (t.platform.mutex_init i w).0 ≡ true
        → init_loop t (suc n) i s w
          ≡ init_loop t n
              (suc i)
              (record s { redis_pool = new_socket t s.config i ∷ s.redis_pool })
              (t.platform.mutex_init i w).1
    unfolding init_loop
    init_on n i s w e = ground arith

    init_loop-Loop :
        (n i : ℕ) (s : ErrInstance) (w : W)
        → 0 < count_of s.config
        → i ≡ length s.redis_pool
        → AreNew s.config s.redis_pool
        → Loop n s w (init_loop t n i s w)
    unfolding init_loop
    init_loop-Loop zero i s w many e h = record {
      config = refl;
      made = h;
      same_live = λ a. refl;
      ended = inl (refl, omega arith);
    }
    init_loop-Loop (suc n) i s w many e h =
        let w1 = (t.platform.mutex_init i w).1 in
        elim (Bool-cases (is_zero (t.platform.mutex_init i w).0)) [
          | inr bad ↦ rw (init_fail n i s w bad) (record {
            config = refl;
            made = h;
            same_live = λ a. laws.init_live i w a;
            ended = inr (refl, (i, w, is_zero-false _ bad));
          })
          | inl good ↦
              let u : ErrInstance = record s {
                redis_pool = new_socket t s.config i ∷ s.redis_pool;
              } in
              let g =
                init_loop-Loop n (suc i) u w1 many (ap suc e)
                  (new_socket-AreNew s.config i s.redis_pool many e h) in
              rw (init_on n i s w good) (record {
                config = g.config;
                made = g.made;
                same_live = λ a. g.same_live a ∙ laws.init_live i w a;
                ended = elim g.ended [ inl (ok, size) ↦ inl (ok, omega arith) | inr b ↦ inr b ];
              })
        ]

    -- Destroying sockets that hold no context frees none.
    pub unconnected_freed :
        (k : Config) (s : ErrInstance) (w : W)
        → AreNew k s.redis_pool
        → (a : ℕ) → live (redis_pool_destroy t (some s) w).1 a ≡ live w a
    unfolding redis_pool_destroy
    unconnected_freed k s w (b, u) a =
        ap (λ v. live v a) (poolfree-forget s.redis_pool w)
        ∙ poolfree_ledger laws k (map forget_sock s.redis_pool) (live w) w b.sockets
            (λ c. omega (arith, held-unconnected (map forget_sock s.redis_pool) u c)) a

    -- A pool of new sockets, with as many as configured; or -1, and then some mutex could not be
    -- initialised.
    abbrev pub Built : Config → Option ErrInstance × W → Type 0
    Built k (some s, v) =
        IsCreated t.platform k (forget s) × All IsUnconnected (map forget_sock s.redis_pool)
    Built k (none, v) = (i : ℕ) × (u : W) × ((t.platform.mutex_init i u).0 ≢ pos 0)

    build_ok : (rc : ℤ) (s : ErrInstance) (w : W) → rc ≡ pos 0 → build t (rc, s, w) ≡ (some s, w)
    unfolding build
    build_ok rc s w e = ground arith

    build_bad :
        (rc : ℤ) (s : ErrInstance) (w : W)
        → rc ≡ negsuc 0
        → build t (rc, s, w) ≡ (none, (redis_pool_destroy t (some s) w).1)
    unfolding build
    build_bad rc s w e = ground arith

    pub build-Built :
        (k : Config) (w : W)
        → IsAccepted k
        → let r = build t (redis_init_socketpool t (blank k) w) in
          Built k r × ((a : ℕ) → live r.1 a ≡ live w a)
    unfolding redis_init_socketpool blank
    build-Built k w h =
        let n = pos_part k.num_redis_socks in
        let (rc, s, v) = init_loop t n 0 (blank k) w in
        let u : ErrInstance = record s { last_used = none } in
        let g : Loop n (blank k) w (init_loop t n 0 (blank k) w) =
          init_loop-Loop n 0 (blank k) w h.some_endpoint refl
            (record { sockets = tt; idle = tt; numbered = tt }, tt) in
        elim g.ended [
          | inl (good, size) ↦ rw (build_ok rc u v good) (
            (
              record {
                config = g.config;
                formed = record {
                  accepted = subst IsAccepted (sym g.config) h;
                  sockets =
                      subst (λ q. All (IsSocket q) (map forget_sock s.redis_pool)) (sym g.config)
                        g.made.0.sockets;
                  pointer = tt;
                };
                built = g.made.0;
                size = length-map_sock s.redis_pool ∙ omega arith;
                last_used = refl;
              },
              g.made.1,
            ),
            g.same_live,
          )
          | inr (bad, why) ↦
              rw (build_bad rc u v bad) (why, λ a. unconnected_freed k u v g.made a ∙ g.same_live a)
        ]
