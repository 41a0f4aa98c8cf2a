-- ===== src/Command/Effects.antt =====
-- redis_vcommand on a pool: what it leaves alone.
use hiredispool.Base.{
  none, ℕ, ◌≡◌, ◌≢◌, inl, inr, refl, sym, subst, get_elem?, List, All-get, arith, ℤ,
}
use hiredispool.Config.{Config}
use hiredispool.Platform.{Platform}
use hiredispool.Instance.{Socket, Instance, store}
use hiredispool.Invariant.{IsSocket, IsPool, connect-IsReconnected}
use hiredispool.Invariant.Frame.{
  At, Kept, written_Same, written_IsPool, written_size, written_elsewhere,
}
use hiredispool.Command.{vcommand, redis_vcommand}
use hiredispool.Command.Results.{reconnection, vcommand_cases}

-- The socket after a command: well formed, with the id and the `inuse` that it had.
abbrev pub Remains : Config → Socket → Socket → Type 0
Remains k x y = IsSocket k y × (y.id ≡ x.id) × (y.inuse ≡ x.inuse)

module _ {W : Type 0} (p : Platform W) where
  reconnection-Remains :
      (k : Config) (after : ℤ) (x : Socket) (cmd : List ℕ) (w : W) (y : Socket)
      → IsSocket k x
      → y ≡ (reconnection p k after x cmd w).sock
      → Remains k x y
  reconnection-Remains k after x cmd w y h e =
      let c =
        connect-IsReconnected p k after x (p.redis_free x.conn (p.redisv_command x.conn cmd w).1)
          h.backup_lt in
      subst (Remains k x) (sym e) (c.formed, c.same_id, c.same_inuse)

  vcommand-Remains :
      (k : Config) (after : ℤ) (x : Socket) (cmd : List ℕ) (w : W)
      → IsSocket k x
      → Remains k x (vcommand p k after x cmd w).sock
  vcommand-Remains k after x cmd w h = elim (vcommand_cases p k after x cmd w h.backup_lt) [
    | inl a ↦ subst (Remains k x) (sym a.sock) (h, refl, refl)
    | inr (inl l) ↦ reconnection-Remains k after x cmd w _ h l.sock
    | inr (inr r) ↦ reconnection-Remains k after x cmd w _ h r.sock
  ]

  pub redis_vcommand-At :
      (s : Instance) (i : ℕ) (cmd : List ℕ) (w : W) {x : Socket}
      → At s i x
      → let r = vcommand p s.config s.connect_after x cmd w in
        redis_vcommand p s i cmd w
        ≡ (r.reply, record (store s i r.sock) { connect_after = r.connect_after }, r.world)
  unfolding redis_vcommand
  redis_vcommand-At s i cmd w a = ground arith

  pub redis_vcommand_lost :
      (s : Instance) (i : ℕ) (cmd : List ℕ) (w : W)
      → get_elem? s.redis_pool i ≡ none
      → redis_vcommand p s i cmd w ≡ (none, s, w)
  unfolding redis_vcommand
  redis_vcommand_lost s i cmd w e = ground arith

  -- A command on a socket keeps the pool well formed; it changes no other socket, no id and no
  -- `inuse`, not even where it reconnects, nor the start of the next search.
  pub redis_vcommand-Kept :
      (s : Instance) (i : ℕ) (cmd : List ℕ) (w : W) {x : Socket}
      → IsPool s
      → At s i x
      → let (_, t, _) = redis_vcommand p s i cmd w in
        IsPool t
        × Kept s t
        × ((j : ℕ) → i ≢ j → get_elem? t.redis_pool j ≡ get_elem? s.redis_pool j)
  redis_vcommand-Kept s i cmd w {x} h a =
      let r = vcommand p s.config s.connect_after x cmd w in
      let t = record (store s i r.sock) { connect_after = r.connect_after } in
      let (f, id, used) =
        vcommand-Remains s.config s.connect_after x cmd w
          (All-get (IsSocket s.config) s.redis_pool i h.sockets a) in
      rw (redis_vcommand-At s i cmd w a) (
        written_IsPool s t i r.sock a refl h refl f h.pointer,
        record {
          config = refl;
          last_used = refl;
          size = written_size s t i r.sock a refl;
          each = written_Same s t i r.sock a refl id used;
        },
        λ j ne. written_elsewhere s t i r.sock a refl j ne,
      )
