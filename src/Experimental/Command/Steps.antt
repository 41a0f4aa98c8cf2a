-- ===== src/Experimental/Command/Steps.antt =====
-- The equations of redis_vcommand in experimental/redisclient/hiredispool.c, branch by branch.
use hiredispool.Base.{ℕ, ◌≡◌, true, false, Option, none, some, get_elem?, ℤ, pos, ltb_ℤ, arith}
use hiredispool.Config.{Config}
use hiredispool.Experimental.{ErrSocket, ErrInstance, Hiredis, store, connect_single_socket}
use hiredispool.Experimental.Command.{save_from, retry, vcommand, on_pointer}

module _ {W : Type 0} (t : Hiredis W) (send : Option ℕ → W → Option ℕ × W) where
  module _ (k : Config) (after : ℤ) (y : ErrSocket) (w : W) where
    pub retry_lost :
        let r = connect_single_socket t k after y (t.platform.redis_free y.sock.conn w) in
        ltb_ℤ r.rc (pos 0) ≡ true
        → retry t send k after y w
          ≡ record { reply = none; sock = r.sock; connect_after = r.connect_after; world = r.world }
    unfolding retry
    retry_lost e = ground arith

    pub retry_answered :
        {a : ℕ} {v : W}
        → let r = connect_single_socket t k after y (t.platform.redis_free y.sock.conn w) in
          ltb_ℤ r.rc (pos 0) ≡ false
          → send r.sock.sock.conn r.world ≡ (some a, v)
          → retry t send k after y w
            ≡ record { reply = some a; sock = r.sock; connect_after = r.connect_after; world = v }
    unfolding retry
    retry_answered e f = ground arith

    pub retry_failed :
        {v : W}
        → let r = connect_single_socket t k after y (t.platform.redis_free y.sock.conn w) in
          ltb_ℤ r.rc (pos 0) ≡ false
          → send r.sock.sock.conn r.world ≡ (none, v)
          → retry t send k after y w ≡ record {
            reply = none;
            sock = save_from t r.sock.sock.conn r.sock v;
            connect_after = r.connect_after;
            world = v;
          }
    unfolding retry
    retry_failed e f = ground arith

    pub vcommand_first :
        {a : ℕ} {v : W}
        → send y.sock.conn w ≡ (some a, v)
        → vcommand t send k after y w
          ≡ record { reply = some a; sock = y; connect_after = after; world = v }
    unfolding vcommand
    vcommand_first e = ground arith

    pub vcommand-retry :
        {v : W}
        → send y.sock.conn w ≡ (none, v)
        → vcommand t send k after y w ≡ retry t send k after y v
    unfolding vcommand
    vcommand-retry e = ground arith

  pub on_pointer_lost :
      (s : ErrInstance) (i : ℕ) (w : W)
      → get_elem? s.redis_pool i ≡ none
      → on_pointer t send s i w ≡ (none, s, w)
  unfolding on_pointer
  on_pointer_lost s i w e = ground arith

  pub on_pointer_at :
      (s : ErrInstance) (i : ℕ) (w : W) (y : ErrSocket)
      → get_elem? s.redis_pool i ≡ some y
      → let r = vcommand t send s.config s.connect_after y w in
        on_pointer t send s i w
        ≡ (r.reply, record (store s i r.sock) { connect_after = r.connect_after }, r.world)
  unfolding on_pointer
  on_pointer_at s i w y e = ground arith
