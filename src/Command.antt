-- ===== src/Command.antt =====
-- redis_vcommand of hiredispool.c, and redis_command, which only collects the arguments for it. A
-- command is what the format and its arguments make.
pub mod Results
pub mod Effects
use hiredispool.Base.{ℕ, List, Option, none, some, get_elem?, if◌then◌else◌, ℤ, pos, ltb_ℤ}
use hiredispool.Config.{Config}
use hiredispool.Platform.{Platform}
use hiredispool.Instance.{Socket, Instance, store}
use hiredispool.Connect.{connect_single_socket}

pub record Replied (W : Type 0) : Type 0 where
  pub reply : Option ℕ
  pub sock : Socket
  pub connect_after : ℤ
  pub world : W

module _ {W : Type 0} (p : Platform W) where
  -- After a failure: free the context, reconnect, and try once more on the new context.
  unfoldable pub retry : Config → ℤ → Socket → List ℕ → W → Replied W
  retry k after x cmd w =
      let r = connect_single_socket p k after x (p.redis_free x.conn w) in
      let (reply, v) = p.redisv_command r.sock.conn cmd r.world in
      if ltb_ℤ r.rc (pos 0)
      then record { reply = none; sock = r.sock; connect_after = r.connect_after; world = r.world }
      else record { reply = reply; sock = r.sock; connect_after = r.connect_after; world = v }

  unfoldable pub vcommand : Config → ℤ → Socket → List ℕ → W → Replied W
  vcommand k after x cmd w =
      let (reply, w1) = p.redisv_command x.conn cmd w in
      elim reply [
        | some r ↦ record { reply = some r; sock = x; connect_after = after; world = w1 }
        | none ↦ retry k after x cmd w1
      ]

  -- On the socket that `cur` points to. Through a dangling pointer nothing is done.
  unfoldable pub redis_vcommand : Instance → ℕ → List ℕ → W → Option ℕ × Instance × W
  redis_vcommand s cur cmd w = elim (get_elem? s.redis_pool cur) [
    | none ↦ (none, s, w)
    | some x ↦
        let r = vcommand s.config s.connect_after x cmd w in
        (r.reply, record (store s cur r.sock) { connect_after = r.connect_after }, r.world)
  ]

  unfoldable pub redis_command : Instance → ℕ → List ℕ → W → Option ℕ × Instance × W
  unfolding redis_vcommand
  redis_command s cur cmd w = redis_vcommand s cur cmd w
