-- ===== src/Experimental/Acquire.antt =====
-- redis_get_socket and redis_release_socket of experimental/redisclient/hiredispool.c.
pub mod Steps
use hiredispool.Base.{
  ℕ, zero, suc, Bool, true, false, Option, none, some, List, [], ◌∷◌, get_elem?, length, ◌==◌,
  if◌then◌else◌, ℤ, ltb_ℤ, is_zero,
}
use hiredispool.Instance.{SockState, sockunconnected, sockconnected, Socket}
use hiredispool.Experimental.{
  ErrSocket, ErrInstance, Hiredis, next_of, store, with_sock, connect_single_socket,
}

-- `cur = cur->next; if (!cur) cur = inst->redis_pool;`
unfoldable pub following : ErrInstance → ℕ → ℕ
following s cur = elim (next_of s cur) [ none ↦ 0 | some i ↦ i ]

-- `start = inst->last_used; if (!start) start = inst->redis_pool;`
unfoldable pub start_from : Option ℕ → List ErrSocket → Option ℕ
start_from none [] = none
start_from none (y ∷ ys) = some 0
start_from (some i) ys = some i

module _ {W : Type 0} (t : Hiredis W) where
  -- The call of connect_single_socket for an unconnected socket, once the grace period is over.
  unfoldable pub reconnect : ErrInstance → ErrSocket → W → ErrInstance × ErrSocket × W
  reconnect s y w = elim y.sock.state [
    | sockconnected ↦ (s, y, w)
    | sockunconnected ↦
        let (now, w1) = t.platform.time w in
        let r = connect_single_socket t s.config s.connect_after y w1 in
        if ltb_ℤ s.connect_after now
        then (record s { connect_after = r.connect_after }, r.sock, r.world)
        else (s, y, w1)
  ]

  -- Grab the socket if it is connected, and put it back otherwise. The flag says that it is returned.
  unfoldable pub grab : ℕ → ErrInstance × ErrSocket × W → Bool × ErrInstance × W
  grab cur (s, y, w) = elim y.sock.state [
    | sockconnected ↦ (true, record (store s cur y) { last_used = next_of s cur }, w)
    | sockunconnected ↦ (
      false,
      store s cur (with_sock y (record y.sock { inuse = false })),
      (t.platform.mutex_unlock y.sock.id w).1,
    )
  ]

  -- One round, at socket `cur`, whose fields are `y`.
  unfoldable pub visit : ErrInstance → ℕ → ErrSocket → W → Bool × ErrInstance × W
  visit s cur y w =
      let (rc, w1) = t.platform.mutex_trylock y.sock.id w in
      if is_zero rc
      then (if y.sock.inuse
          then (false, s, (t.platform.mutex_unlock y.sock.id w1).1)
          else grab cur (reconnect s (with_sock y (record y.sock { inuse = true })) w1))
      else (false, s, w1)

  -- The loop, with fuel: the pointer that is returned, if the loop ends, with what it leaves.
  unfoldable pub scan : ℕ → ℕ → ℕ → ErrInstance → W → Option (Option ℕ × ErrInstance × W)
  scan zero start cur s w = none
  scan (suc n) start cur s w = elim (get_elem? s.redis_pool cur) [
    | none ↦ none
    | some y ↦
        let (taken, u, v) = visit s cur y w in
        let rest = scan n start (following u cur) u v in
        if taken
        then some (some cur, u, v)
        else if following u cur == start
        then some (none, u, v)
        else rest
  ]

  -- As many rounds as there are sockets are enough.
  unfoldable pub redis_get_socket : ErrInstance → W → Option (Option ℕ × ErrInstance × W)
  redis_get_socket s w = elim (start_from s.last_used s.redis_pool) [
    | none ↦ some (none, s, w)
    | some start ↦ scan (length s.redis_pool) start start s w
  ]

  -- The socket is released whatever its `inuse` says, and whether or not the unlock succeeds.
  unfoldable pub redis_release_socket : ErrInstance → Option ℕ → W → ErrInstance × W
  redis_release_socket s none w = (s, w)
  redis_release_socket s (some cur) w = elim (get_elem? s.redis_pool cur) [
    | none ↦ (s, w)
    | some y ↦ (
      store s cur (with_sock y (record y.sock { inuse = false })),
      (t.platform.mutex_unlock y.sock.id w).1,
    )
  ]
