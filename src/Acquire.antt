-- ===== src/Acquire.antt =====
-- redis_get_socket and redis_release_socket of hiredispool.c.
pub mod Steps
pub mod Rounds
pub mod Effects
pub mod Scan
pub mod Results
pub mod Release
use hiredispool.Base.{
  ℕ, zero, suc, Bool, true, false, Option, none, some, List, get_elem?, length, ◌==◌, if◌then◌else◌,
  ◌≡◌, ◌≢◌, refl, arith, ℤ, pos, negsuc, ltb_ℤ, is_zero,
}
use hiredispool.Platform.{Platform}
use hiredispool.Instance.{
  sockunconnected, sockconnected, Socket, Instance, next_of, head_pointer, store,
}
use hiredispool.Connect.{connect_single_socket}

-- One round of the loop: the socket is returned to the caller, or the loop goes on.
pub data Visit (W : Type 0) : Type 0 where
  taken : Instance → W → Visit W
  skipped : Instance → W → Visit W

-- The end of the loop: a pointer to the socket, or NULL. `stuck` would be a dangling pointer, or a
-- loop that does not come back to its start within one round of the list.
pub data Search (W : Type 0) : Type 0 where
  found : ℕ → Instance → W → Search W
  nothing : Instance → W → Search W
  stuck : Search W

-- `cur = cur->next; if (!cur) cur = inst->redis_pool;`
unfoldable pub following : Instance → ℕ → ℕ
following s cur = elim (next_of s cur) [ none ↦ 0 | some i ↦ i ]

-- `start = inst->last_used; if (!start) start = inst->redis_pool;`
abbrev pub start_from : Option ℕ → List Socket → Option ℕ
start_from none xs = head_pointer xs
start_from (some i) xs = some i

unfoldable pub start_of : Instance → Option ℕ
start_of s = start_from s.last_used s.redis_pool

module _ {W : Type 0} (p : Platform W) where
  -- The call of connect_single_socket for an unconnected socket, once the grace period is over.
  unfoldable pub reconnect : Instance → Socket → W → Instance × Socket × W
  reconnect s x w = elim x.state [
    | sockconnected ↦ (s, x, w)
    | sockunconnected ↦
        let (now, w1) = p.time w in
        let r = connect_single_socket p s.config s.connect_after x w1 in
        if ltb_ℤ s.connect_after now
        then (record s { connect_after = r.connect_after }, r.sock, r.world)
        else (s, x, w1)
  ]

  -- Grab the socket if it is connected, and put it back otherwise.
  unfoldable pub grab : ℕ → Instance × Socket × W → Visit W
  grab cur (s, x, w) = elim x.state [
    | sockconnected ↦ taken (record (store s cur x) { last_used = next_of s cur }) w
    | sockunconnected ↦ skipped (store s cur (record x { inuse = false })) (p.mutex_unlock x.id w).1
  ]

  -- One round, at socket `cur`, whose fields are `x`.
  unfoldable pub visit : Instance → ℕ → Socket → W → Visit W
  visit s cur x w =
      let (rc, w1) = p.mutex_trylock x.id w in
      if is_zero rc
      then (if x.inuse
          then skipped s (p.mutex_unlock x.id w1).1
          else grab cur (reconnect s (record x { inuse = true }) w1))
      else skipped s w1

  -- The loop, with fuel.
  unfoldable pub scan : ℕ → ℕ → ℕ → Instance → W → Search W
  scan zero start cur s w = stuck
  scan (suc n) start cur s w = elim (get_elem? s.redis_pool cur) [
    | none ↦ stuck
    | some x ↦ elim (visit s cur x w) [
      | taken t v ↦ found cur t v
      | skipped t v ↦
          let rest = scan n start (following t cur) t v in
          if following t cur == start then nothing t v else rest
    ]
  ]

  -- As many rounds as there are sockets are enough.
  unfoldable pub redis_get_socket : Instance → W → Search W
  redis_get_socket s w = elim (start_of s) [
    | none ↦ nothing s w
    | some start ↦ scan (length s.redis_pool) start start s w
  ]

  -- The socket is released whatever its `inuse` says, and whether or not the unlock succeeds.
  unfoldable pub redis_release_socket : Instance → Option ℕ → W → Instance × W
  redis_release_socket s none w = (s, w)
  redis_release_socket s (some cur) w = elim (get_elem? s.redis_pool cur) [
    | none ↦ (s, w)
    | some x ↦ (store s cur (record x { inuse = false }), (p.mutex_unlock x.id w).1)
  ]
