-- ===== src/Experimental/Command.antt =====
-- redis_vcommand and redis_command_argv of experimental/redisclient/hiredispool.c, which differ in the
-- function of hiredis that they forward to.
pub mod Steps
pub mod Errors
use hiredispool.Base.{ℕ, Option, none, some, List, get_elem?, if◌then◌else◌, ℤ, pos, ltb_ℤ}
use hiredispool.Config.{Config}
use hiredispool.Experimental.{
  ErrSocket, ErrInstance, Hiredis, store, save_last_error, connect_single_socket,
}

pub record ErrReplied (W : Type 0) : Type 0 where
  pub reply : Option ℕ
  pub sock : ErrSocket
  pub connect_after : ℤ
  pub world : W

module _ {W : Type 0} (t : Hiredis W) where
  -- `save_last_error(redisocket, c)`, where `c` is the context of the socket; it is not NULL there.
  unfoldable pub save_from : Option ℕ → ErrSocket → W → ErrSocket
  save_from none y w = y
  save_from (some c) y w = save_last_error t y c w

  module _ (send : Option ℕ → W → Option ℕ × W) where
    -- After a failure: free the context, reconnect, and try once more on the new context.
    unfoldable pub retry : Config → ℤ → ErrSocket → W → ErrReplied W
    retry k after y w =
        let r = connect_single_socket t k after y (t.platform.redis_free y.sock.conn w) in
        let (reply, v) = send r.sock.sock.conn r.world in
        if ltb_ℤ r.rc (pos 0)
        then record {
          reply = none;
          sock = r.sock;
          connect_after = r.connect_after;
          world = r.world;
        }
        else (elim reply [
          | some a ↦ record {
            reply = some a;
            sock = r.sock;
            connect_after = r.connect_after;
            world = v;
          }
          | none ↦ record {
            reply = none;
            sock = save_from r.sock.sock.conn r.sock v;
            connect_after = r.connect_after;
            world = v;
          }
        ])

    unfoldable pub vcommand : Config → ℤ → ErrSocket → W → ErrReplied W
    vcommand k after y w =
        let (reply, w1) = send y.sock.conn w in
        elim reply [
          | some a ↦ record { reply = some a; sock = y; connect_after = after; world = w1 }
          | none ↦ retry k after y w1
        ]

    -- On the socket that `cur` points to. Through a dangling pointer nothing is done.
    unfoldable pub on_pointer : ErrInstance → ℕ → W → Option ℕ × ErrInstance × W
    on_pointer s cur w = elim (get_elem? s.redis_pool cur) [
      | none ↦ (none, s, w)
      | some y ↦
          let r = vcommand s.config s.connect_after y w in
          (r.reply, record (store s cur r.sock) { connect_after = r.connect_after }, r.world)
    ]

  unfoldable pub redis_vcommand : ErrInstance → ℕ → List ℕ → W → Option ℕ × ErrInstance × W
  redis_vcommand s cur cmd w = on_pointer (λ c v. t.platform.redisv_command c cmd v) s cur w

  unfoldable pub redis_command_argv :
      ErrInstance → ℕ → List (List ℕ) → W → Option ℕ × ErrInstance × W
  redis_command_argv s cur args w = on_pointer (λ c v. t.redis_command_argv c args v) s cur w

  -- It only collects the arguments for redis_vcommand.
  unfoldable pub redis_command : ErrInstance → ℕ → List ℕ → W → Option ℕ × ErrInstance × W
  redis_command s cur cmd w = redis_vcommand s cur cmd w
