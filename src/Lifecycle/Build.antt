-- ===== src/Lifecycle/Build.antt =====
-- redis_pool_create makes a well-formed pool of idle sockets, and leaves nothing behind if it fails.
use native.Mathlib.Nat.{mod-lt}
use hiredispool.Base.{
  ℕ, suc, zero, ◌+◌, ◌<◌, ◌≡◌, ◌≢◌, ◌⊎◌, inl, inr, ◌∙◌, refl, sym, ap, subst, List, [], ◌∷◌, some,
  none, arith, ℤ, pos, negsuc, pos_part, ltb_ℤ, All, Option, Bool-cases, true, false, length,
  is_zero, is_zero-false,
}
use hiredispool.Config.{Config, count_of}
use hiredispool.Config.Bounds.{IsAccepted}
use hiredispool.Platform.{Platform}
use hiredispool.Instance.{Socket, Instance}
use hiredispool.Connect.{connect_single_socket}
use hiredispool.Invariant.{IsSocket, IsPool, connect-IsReconnected}
use hiredispool.Lifecycle.{
  new_socket, blank, first_connect, link, init_loop, redis_init_socketpool, build,
  redis_pool_destroy,
}

-- The sockets carry the numbers from 0 up, the last one made in front.
abbrev pub IsNumbered : List Socket → Type 0
IsNumbered [] = Unit
IsNumbered (x ∷ xs) = (x.id ≡ length xs) × IsNumbered xs

abbrev pub IsIdle : Socket → Type 0
IsIdle x = x.inuse ≡ false

-- What the loop keeps of the list that it builds.
pub record IsBuilt (k : Config) (xs : List Socket) : Type 0 where
  pub sockets : All (IsSocket k) xs
  pub idle : All IsIdle xs
  pub numbered : IsNumbered xs

module _ {W : Type 0} (p : Platform W) where
  pub new_socket-IsSocket : (k : Config) (i : ℕ) → 0 < count_of k → IsSocket k (new_socket k i)
  unfolding new_socket
  new_socket-IsSocket k i h = record { backup_lt = mod-lt i h; linked = refl }

  -- Connecting a new socket or not, it stays idle and keeps its number.
  pub record First (s : Instance) (x : Socket) (r : Instance × Socket × W) : Type 0 where
    pub formed : IsSocket s.config r.1
    pub same_id : r.1.id ≡ x.id
    pub same_inuse : r.1.inuse ≡ x.inuse
    pub same : r.0 ≡ record s { connect_after = r.0.connect_after }

  pub first_due :
      (s : Instance) (x : Socket) (w : W)
      → ltb_ℤ s.connect_after (p.time w).0 ≡ true
      → let r = connect_single_socket p s.config s.connect_after x (p.time w).1 in
        first_connect p s x w ≡ (record s { connect_after = r.connect_after }, r.sock, r.world)
  unfolding first_connect
  first_due s x w e = ground arith

  pub first_early :
      (s : Instance) (x : Socket) (w : W)
      → ltb_ℤ s.connect_after (p.time w).0 ≡ false
      → first_connect p s x w ≡ (s, x, (p.time w).1)
  unfolding first_connect
  first_early s x w e = ground arith

  pub first_connect-First :
      (s : Instance) (x : Socket) (w : W) → IsSocket s.config x → First s x (first_connect p s x w)
  first_connect-First s x w h = elim (Bool-cases (ltb_ℤ s.connect_after (p.time w).0)) [
    | inl due ↦
        let c = connect-IsReconnected p s.config s.connect_after x (p.time w).1 h.backup_lt in
        rw (first_due s x w due) (record {
          formed = c.formed;
          same_id = c.same_id;
          same_inuse = c.same_inuse;
          same = refl;
        })
    | inr early ↦
        rw (first_early s x w early)
          (record { formed = h; same_id = refl; same_inuse = refl; same = refl })
  ]

  -- How far the loop has come: what it has added, and how it ended.
  pub record Loop (n : ℕ) (s : Instance) (r : ℤ × Instance × W) : Type 0 where
    pub config : r.1.config ≡ s.config
    pub built : IsBuilt s.config r.1.redis_pool
    pub last_used : r.1.last_used ≡ s.last_used
    pub ended :
        (r.0 ≡ pos 0) × (length r.1.redis_pool ≡ n + length s.redis_pool)
        ⊎ (r.0 ≡ negsuc 0) × ((i : ℕ) × (u : W) × ((p.mutex_init i u).0 ≢ pos 0))

  pub init_fail :
      (n i : ℕ) (s : Instance) (w : W)
      → is_zero (p.mutex_init i w).0 ≡ false
      → init_loop p (suc n) i s w ≡ (negsuc 0, s, (p.mutex_init i w).1)
  unfolding init_loop
  init_fail n i s w e = ground arith

  pub init_on :
      (n i : ℕ) (s : Instance) (w : W)
      → is_zero (p.mutex_init i w).0 ≡ true
      → let (t, v) = link p (first_connect p s (new_socket s.config i) (p.mutex_init i w).1) in
        init_loop p (suc n) i s w ≡ init_loop p n (suc i) t v
  unfolding init_loop
  init_on n i s w e = ground arith

  Loop-back :
      (n : ℕ) (s t : Instance) (r : ℤ × Instance × W)
      → t.config ≡ s.config
      → t.last_used ≡ s.last_used
      → length t.redis_pool ≡ suc (length s.redis_pool)
      → Loop n t r
      → Loop (suc n) s r
  Loop-back n s t r c l len g = record {
    config = g.config ∙ c;
    built = subst (λ k. IsBuilt k r.1.redis_pool) c g.built;
    last_used = g.last_used ∙ l;
    ended = elim g.ended [ inl (ok, size) ↦ inl (ok, omega arith) | inr bad ↦ inr bad ];
  }

  pub init_end : (i : ℕ) (s : Instance) (w : W) → init_loop p zero i s w ≡ (pos 0, s, w)
  unfolding init_loop
  init_end i s w = refl

  -- One more socket in front of the list.
  pub link-IsBuilt :
      (s : Instance) (i : ℕ) (r : Instance × Socket × W)
      → IsBuilt s.config s.redis_pool
      → i ≡ length s.redis_pool
      → First s (new_socket s.config i) r
      → IsBuilt s.config (r.1 ∷ s.redis_pool)
  unfolding new_socket
  link-IsBuilt s i r b e f = record {
    sockets = (f.formed, b.sockets);
    idle = (f.same_inuse, b.idle);
    numbered = (f.same_id ∙ e, b.numbered);
  }

  pub init_loop-Loop :
      (n i : ℕ) (s : Instance) (w : W)
      → 0 < count_of s.config
      → IsBuilt s.config s.redis_pool
      → i ≡ length s.redis_pool
      → Loop n s (init_loop p n i s w)
  init_loop-Loop zero i s w many b e =
      rw (init_end i s w)
        (record { config = refl; built = b; last_used = refl; ended = inl (refl, omega arith) })
  init_loop-Loop (suc n) i s w many b e = elim (Bool-cases (is_zero (p.mutex_init i w).0)) [
    | inr bad ↦ rw (init_fail n i s w bad) (record {
      config = refl;
      built = b;
      last_used = refl;
      ended = inr (refl, (i, w, is_zero-false _ bad));
    })
    | inl good ↦
        let r = first_connect p s (new_socket s.config i) (p.mutex_init i w).1 in
        let f : First s (new_socket s.config i) r =
          first_connect-First s (new_socket s.config i) (p.mutex_init i w).1
            (new_socket-IsSocket s.config i many) in
        let t = (link p r).0 in
        let c : t.config ≡ s.config = ap (λ q. q.config) f.same in
        let pool : t.redis_pool ≡ r.1 ∷ s.redis_pool = ap (λ q. r.1 ∷ q.redis_pool) f.same in
        rw (init_on n i s w good) (
          Loop-back n s t _ c (ap (λ q. q.last_used) f.same) (ap length pool) (
            init_loop-Loop n (suc i) t (link p r).1 (subst (λ k. 0 < count_of k) (sym c) many)
              (subst (λ k. IsBuilt k t.redis_pool) (sym c)
                (subst (IsBuilt s.config) (sym pool) (link-IsBuilt s i r b e f)))
              (ap suc e ∙ sym (ap length pool))))
  ]

  -- What redis_pool_create returns: a new well-formed pool with as many sockets as configured, all
  -- idle and numbered from 0 up, and a search that starts at the head of the list; or -1.
  pub record IsCreated (k : Config) (s : Instance) : Type 0 where
    pub config : s.config ≡ k
    pub formed : IsPool s
    pub built : IsBuilt k s.redis_pool
    pub size : length s.redis_pool ≡ pos_part k.num_redis_socks
    pub last_used : s.last_used ≡ none

  pub init_socketpool_lem :
      (k : Config) (w : W)
      → redis_init_socketpool p (blank k) w ≡ (
          let (rc, t, v) = init_loop p (pos_part k.num_redis_socks) 0 (blank k) w in
          (rc, record t { last_used = none }, v))
  unfolding redis_init_socketpool
  init_socketpool_lem k w = refl

  pub build_ok : (rc : ℤ) (s : Instance) (w : W) → rc ≡ pos 0 → build p (rc, s, w) ≡ (some s, w)
  unfolding build
  build_ok rc s w e = ground arith

  pub build_bad :
      (rc : ℤ) (s : Instance) (w : W)
      → rc ≡ negsuc 0
      → build p (rc, s, w) ≡ (none, (redis_pool_destroy p (some s) w).1)
  unfolding build
  build_bad rc s w e = ground arith

  abbrev pub Created : Config → Option Instance × W → Type 0
  Created k (some s, v) = IsCreated k s
  Created k (none, v) = (i : ℕ) × (u : W) × ((p.mutex_init i u).0 ≢ pos 0)

  pub build-Created :
      (k : Config) (w : W)
      → IsAccepted k
      → Created k (build p (redis_init_socketpool p (blank k) w))
  build-Created k w h =
      let (rc, t, v) = init_loop p (pos_part k.num_redis_socks) 0 (blank k) w in
      let g : Loop (pos_part k.num_redis_socks) (blank k)
          (init_loop p (pos_part k.num_redis_socks) 0 (blank k) w) =
        init_loop-Loop (pos_part k.num_redis_socks) 0 (blank k) w h.some_endpoint
          (record { sockets = tt; idle = tt; numbered = tt }) refl in
      rw (init_socketpool_lem k w) (elim g.ended [
        | inl (ok, size) ↦ rw (build_ok rc (record t { last_used = none }) v ok) (record {
          config = g.config;
          formed = record {
            accepted = subst IsAccepted (sym g.config) h;
            sockets = subst (λ q. All (IsSocket q) t.redis_pool) (sym g.config) g.built.sockets;
            pointer = tt;
          };
          built = g.built;
          size = omega arith;
          last_used = refl;
        })
        | inr (bad, why) ↦ rw (build_bad rc (record t { last_used = none }) v bad) why
      ])
