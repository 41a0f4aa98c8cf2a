-- ===== src/Acquire/Release.antt =====
-- redis_release_socket, alone and as the inverse of redis_get_socket; and a search that must succeed.
use hiredispool.Base.{
  ℕ, ◌≡◌, ◌≢◌, ◌⊎◌, inl, inr, refl, sym, get_elem?, length, All-get, false, some, none, arith,
}
use hiredispool.Platform.{Platform}
use hiredispool.Instance.{Socket, Instance, store}
use hiredispool.Invariant.{IsSocket, IsPool}
use hiredispool.Invariant.Frame.{At, written_here, written_elsewhere, written_IsPool, written_size}
use hiredispool.Acquire.{Search, found, nothing, stuck, redis_release_socket}

-- Socket `i` is not in use any more and is as it was otherwise; so is everything else.
pub record Released (s : Instance) (i : ℕ) (x : Socket) (t : Instance) : Type 0 where
  pub config : t.config ≡ s.config
  pub last_used : t.last_used ≡ s.last_used
  pub connect_after : t.connect_after ≡ s.connect_after
  pub size : length t.redis_pool ≡ length s.redis_pool
  pub freed : At t i (record x { inuse = false })
  pub others : (j : ℕ) → j ≢ i → get_elem? t.redis_pool j ≡ get_elem? s.redis_pool j

module _ {W : Type 0} (p : Platform W) where
  pub release_some :
      (s : Instance) (i : ℕ) (w : W) {x : Socket}
      → At s i x
      → redis_release_socket p s (some i) w
        ≡ (store s i (record x { inuse = false }), (p.mutex_unlock x.id w).1)
  unfolding redis_release_socket
  release_some s i w a = ground arith

  -- A release frees the socket, unlocks its mutex and changes nothing else; the pool stays well
  -- formed.
  pub release_lem :
      (s : Instance) (i : ℕ) (w : W) {x : Socket}
      → IsPool s
      → At s i x
      → let (t, v) = redis_release_socket p s (some i) w in
        IsPool t × Released s i x t × (v ≡ (p.mutex_unlock x.id w).1)
  release_lem s i w {x} h a =
      let y = record x { inuse = false } in
      let t = store s i y in
      let f = All-get (IsSocket s.config) s.redis_pool i h.sockets a in
      rw (release_some s i w a) (
        written_IsPool s t i y a refl h refl (record { backup_lt = f.backup_lt; linked = f.linked })
            h.pointer,
        record {
          config = refl;
          last_used = refl;
          connect_after = refl;
          size = written_size s t i y a refl;
          freed = written_here s t i y a refl;
          others = λ j ne. written_elsewhere s t i y a refl j (λ e. ne (sym e));
        },
        refl,
      )

  -- Releasing NULL does nothing.
  pub release_null : (s : Instance) (w : W) → redis_release_socket p s none w ≡ (s, w)
  unfolding redis_release_socket
  release_null s w = refl

  -- Nor does a dangling pointer, in the model.
  pub release_lost :
      (s : Instance) (i : ℕ) (w : W)
      → get_elem? s.redis_pool i ≡ none
      → redis_release_socket p s (some i) w ≡ (s, w)
  unfolding redis_release_socket
  release_lost s i w e = ground arith

  pub Search-cases :
      (o : Search W)
      → ((i : ℕ) × (t : Instance) × (v : W) × (o ≡ found i t v))
        ⊎ ((t : Instance) × (v : W) × (o ≡ nothing t v))
        ⊎ (o ≡ stuck)
  Search-cases (found i t v) = inl (i, t, v, refl)
  Search-cases (nothing t v) = inr (inl (t, v, refl))
  Search-cases stuck = inr (inr refl)
