-- ===== src/Acquire/Steps.antt =====
-- The equations of one round of redis_get_socket, branch by branch.
use hiredispool.Base.{
  ◌≡◌, ◌≢◌, ◌⊎◌, inl, inr, refl, ℕ, suc, true, false, some, none, get_elem?, arith, ltb_ℤ, is_zero,
}
use hiredispool.Platform.{Platform}
use hiredispool.Instance.{sockunconnected, sockconnected, Socket, Instance, next_of, store}
use hiredispool.Connect.{connect_single_socket}
use hiredispool.Acquire.{
  Visit, taken, skipped, reconnect, grab, visit, nothing, found, stuck, scan, following,
}

pub Visit-cases :
    {W : Type 0} (o : Visit W)
    → ((t : Instance) × (v : W) × (o ≡ taken t v)) ⊎ ((t : Instance) × (v : W) × (o ≡ skipped t v))
Visit-cases (taken t v) = inl (t, v, refl)
Visit-cases (skipped t v) = inr (t, v, refl)

module _ {W : Type 0} (p : Platform W) (s : Instance) where
  pub reconnect_up : (x : Socket) (w : W) → x.state ≡ sockconnected → reconnect p s x w ≡ (s, x, w)
  unfolding reconnect
  reconnect_up x w e = ground arith

  pub reconnect_early :
      (x : Socket) (w : W)
      → x.state ≡ sockunconnected
      → ltb_ℤ s.connect_after (p.time w).0 ≡ false
      → reconnect p s x w ≡ (s, x, (p.time w).1)
  unfolding reconnect
  reconnect_early x w e f = ground arith

  pub reconnect_due :
      (x : Socket) (w : W)
      → x.state ≡ sockunconnected
      → ltb_ℤ s.connect_after (p.time w).0 ≡ true
      → let r = connect_single_socket p s.config s.connect_after x (p.time w).1 in
        reconnect p s x w ≡ (record s { connect_after = r.connect_after }, r.sock, r.world)
  unfolding reconnect
  reconnect_due x w e f = ground arith

  pub grab_up :
      (cur : ℕ) (t : Instance) (y : Socket) (w : W)
      → y.state ≡ sockconnected
      → grab p cur (t, y, w) ≡ taken (record (store t cur y) { last_used = next_of t cur }) w
  unfolding grab
  grab_up cur t y w e = ground arith

  pub grab_down :
      (cur : ℕ) (t : Instance) (y : Socket) (w : W)
      → y.state ≡ sockunconnected
      → grab p cur (t, y, w)
        ≡ skipped (store t cur (record y { inuse = false })) (p.mutex_unlock y.id w).1
  unfolding grab
  grab_down cur t y w e = ground arith

  pub visit_busy :
      (cur : ℕ) (x : Socket) (w : W)
      → is_zero (p.mutex_trylock x.id w).0 ≡ false
      → visit p s cur x w ≡ skipped s (p.mutex_trylock x.id w).1
  unfolding visit
  visit_busy cur x w e = ground arith

  pub visit_in_use :
      (cur : ℕ) (x : Socket) (w : W)
      → is_zero (p.mutex_trylock x.id w).0 ≡ true
      → x.inuse ≡ true
      → visit p s cur x w ≡ skipped s (p.mutex_unlock x.id (p.mutex_trylock x.id w).1).1
  unfolding visit
  visit_in_use cur x w e f = ground arith

  pub visit_free :
      (cur : ℕ) (x : Socket) (w : W)
      → is_zero (p.mutex_trylock x.id w).0 ≡ true
      → x.inuse ≡ false
      → visit p s cur x w
        ≡ grab p cur (reconnect p s (record x { inuse = true }) (p.mutex_trylock x.id w).1)
  unfolding visit
  visit_free cur x w e f = ground arith

module _ {W : Type 0} (p : Platform W) where
  pub scan_taken :
      (n start cur : ℕ) (s : Instance) (w : W) {x : Socket} {t : Instance} {v : W}
      → get_elem? s.redis_pool cur ≡ some x
      → visit p s cur x w ≡ taken t v
      → scan p (suc n) start cur s w ≡ found cur t v
  unfolding scan
  scan_taken n start cur s w a e = ground arith

  pub scan_end :
      (n start cur : ℕ) (s : Instance) (w : W) {x : Socket} {t : Instance} {v : W}
      → get_elem? s.redis_pool cur ≡ some x
      → visit p s cur x w ≡ skipped t v
      → following t cur ≡ start
      → scan p (suc n) start cur s w ≡ nothing t v
  unfolding scan
  scan_end n start cur s w a e f = ground arith

  pub scan_on :
      (n start cur : ℕ) (s : Instance) (w : W) {x : Socket} {t : Instance} {v : W}
      → get_elem? s.redis_pool cur ≡ some x
      → visit p s cur x w ≡ skipped t v
      → following t cur ≢ start
      → scan p (suc n) start cur s w ≡ scan p n start (following t cur) t v
  unfolding scan
  scan_on n start cur s w a e f = ground arith

  pub scan_lost :
      (n start cur : ℕ) (s : Instance) (w : W)
      → get_elem? s.redis_pool cur ≡ none
      → scan p (suc n) start cur s w ≡ stuck
  unfolding scan
  scan_lost n start cur s w e = ground arith
