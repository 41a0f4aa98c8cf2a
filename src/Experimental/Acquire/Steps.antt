-- ===== src/Experimental/Acquire/Steps.antt =====
-- The equations of one round of redis_get_socket in experimental/redisclient/hiredispool.c, branch by
-- branch.
use hiredispool.Base.{
  ◌≡◌, ◌≢◌, ℕ, suc, true, false, some, none, get_elem?, length, arith, ltb_ℤ, is_zero,
}
use hiredispool.Instance.{sockunconnected, sockconnected}
use hiredispool.Experimental.{
  ErrSocket, ErrInstance, Hiredis, next_of, store, with_sock, connect_single_socket,
}
use hiredispool.Experimental.Acquire.{
  reconnect, grab, visit, scan, following, start_from, redis_get_socket, redis_release_socket,
}

module _ {W : Type 0} (t : Hiredis W) (s : ErrInstance) where
  pub reconnect_up :
      (y : ErrSocket) (w : W) → y.sock.state ≡ sockconnected → reconnect t s y w ≡ (s, y, w)
  unfolding reconnect
  reconnect_up y w e = ground arith

  pub reconnect_early :
      (y : ErrSocket) (w : W)
      → y.sock.state ≡ sockunconnected
      → ltb_ℤ s.connect_after (t.platform.time w).0 ≡ false
      → reconnect t s y w ≡ (s, y, (t.platform.time w).1)
  unfolding reconnect
  reconnect_early y w e f = ground arith

  pub reconnect_due :
      (y : ErrSocket) (w : W)
      → y.sock.state ≡ sockunconnected
      → ltb_ℤ s.connect_after (t.platform.time w).0 ≡ true
      → let r = connect_single_socket t s.config s.connect_after y (t.platform.time w).1 in
        reconnect t s y w ≡ (record s { connect_after = r.connect_after }, r.sock, r.world)
  unfolding reconnect
  reconnect_due y w e f = ground arith

  pub grab_up :
      (cur : ℕ) (y : ErrSocket) (w : W)
      → y.sock.state ≡ sockconnected
      → grab t cur (s, y, w) ≡ (true, record (store s cur y) { last_used = next_of s cur }, w)
  unfolding grab
  grab_up cur y w e = ground arith

  pub grab_down :
      (cur : ℕ) (y : ErrSocket) (w : W)
      → y.sock.state ≡ sockunconnected
      → grab t cur (s, y, w) ≡ (
        false,
        store s cur (with_sock y (record y.sock { inuse = false })),
        (t.platform.mutex_unlock y.sock.id w).1,
      )
  unfolding grab
  grab_down cur y w e = ground arith

  pub visit_busy :
      (cur : ℕ) (y : ErrSocket) (w : W)
      → is_zero (t.platform.mutex_trylock y.sock.id w).0 ≡ false
      → visit t s cur y w ≡ (false, s, (t.platform.mutex_trylock y.sock.id w).1)
  unfolding visit
  visit_busy cur y w e = ground arith

  pub visit_in_use :
      (cur : ℕ) (y : ErrSocket) (w : W)
      → is_zero (t.platform.mutex_trylock y.sock.id w).0 ≡ true
      → y.sock.inuse ≡ true
      → visit t s cur y w
        ≡ (false, s, (t.platform.mutex_unlock y.sock.id (t.platform.mutex_trylock y.sock.id w).1).1)
  unfolding visit
  visit_in_use cur y w e f = ground arith

  pub visit_free :
      (cur : ℕ) (y : ErrSocket) (w : W)
      → is_zero (t.platform.mutex_trylock y.sock.id w).0 ≡ true
      → y.sock.inuse ≡ false
      → visit t s cur y w
        ≡ grab t cur (
            reconnect t s
              (with_sock y (record y.sock { inuse = true }))
              (t.platform.mutex_trylock y.sock.id w).1)
  unfolding visit
  visit_free cur y w e f = ground arith

module _ {W : Type 0} (t : Hiredis W) where
  pub scan_taken :
      (n start cur : ℕ) (s : ErrInstance) (w : W) {y : ErrSocket} {u : ErrInstance} {v : W}
      → get_elem? s.redis_pool cur ≡ some y
      → visit t s cur y w ≡ (true, u, v)
      → scan t (suc n) start cur s w ≡ some (some cur, u, v)
  unfolding scan
  scan_taken n start cur s w a e = ground arith

  pub scan_end :
      (n start cur : ℕ) (s : ErrInstance) (w : W) {y : ErrSocket} {u : ErrInstance} {v : W}
      → get_elem? s.redis_pool cur ≡ some y
      → visit t s cur y w ≡ (false, u, v)
      → following u cur ≡ start
      → scan t (suc n) start cur s w ≡ some (none, u, v)
  unfolding scan
  scan_end n start cur s w a e f = ground arith

  pub scan_on :
      (n start cur : ℕ) (s : ErrInstance) (w : W) {y : ErrSocket} {u : ErrInstance} {v : W}
      → get_elem? s.redis_pool cur ≡ some y
      → visit t s cur y w ≡ (false, u, v)
      → following u cur ≢ start
      → scan t (suc n) start cur s w ≡ scan t n start (following u cur) u v
  unfolding scan
  scan_on n start cur s w a e f = ground arith

  pub scan_lost :
      (n start cur : ℕ) (s : ErrInstance) (w : W)
      → get_elem? s.redis_pool cur ≡ none
      → scan t (suc n) start cur s w ≡ none
  unfolding scan
  scan_lost n start cur s w e = ground arith

  pub get_null :
      (s : ErrInstance) (w : W)
      → start_from s.last_used s.redis_pool ≡ none
      → redis_get_socket t s w ≡ some (none, s, w)
  unfolding redis_get_socket
  get_null s w e = ground arith

  pub get_scan :
      (s : ErrInstance) (w : W) {start : ℕ}
      → start_from s.last_used s.redis_pool ≡ some start
      → redis_get_socket t s w ≡ scan t (length s.redis_pool) start start s w
  unfolding redis_get_socket
  get_scan s w e = ground arith

  pub release_at :
      (s : ErrInstance) (i : ℕ) (w : W) (y : ErrSocket)
      → get_elem? s.redis_pool i ≡ some y
      → redis_release_socket t s (some i) w ≡ (
        store s i (with_sock y (record y.sock { inuse = false })),
        (t.platform.mutex_unlock y.sock.id w).1,
      )
  unfolding redis_release_socket
  release_at s i w y e = ground arith

  pub release_lost :
      (s : ErrInstance) (i : ℕ) (w : W)
      → get_elem? s.redis_pool i ≡ none
      → redis_release_socket t s (some i) w ≡ (s, w)
  unfolding redis_release_socket
  release_lost s i w e = ground arith
