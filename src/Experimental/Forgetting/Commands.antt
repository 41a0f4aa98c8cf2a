-- ===== src/Experimental/Forgetting/Commands.antt =====
-- redis_vcommand and redis_command_argv of the one pool against redis_vcommand of the other.
use hiredispool.Base.{
  ℕ, ◌≡◌, inl, inr, ◌∙◌, refl, sym, ap, true, false, Bool-cases, Option, none, some, Option-cases,
  List, get_elem?, ltb_ℤ, ℤ, pos, arith,
}
use hiredispool.Config.{Config}
use hiredispool.Platform.{Platform}
use hiredispool.Instance
use hiredispool.Instance.{Socket, Instance}
use hiredispool.Connect
use hiredispool.Connect.{Connected}
use hiredispool.Command
use hiredispool.Command.{Replied}
use hiredispool.Command.Effects.{redis_vcommand_lost}
use hiredispool.Experimental.Command.Steps.{
  retry_lost, retry_answered, retry_failed, vcommand_first, vcommand-retry, on_pointer_lost,
  on_pointer_at,
}
use hiredispool.Experimental.{
  ErrSocket, ErrInstance, ErrConnected, Hiredis, store, connect_single_socket,
}
use hiredispool.Experimental.Command.{ErrReplied, save_from, retry, vcommand, on_pointer}
use hiredispool.Experimental.Forgetting.{
  forget, forget_connected, connect-forget, get_elem?-forget_some, get_elem?-forget_none,
  forget-store,
}

abbrev pub forget_replied : {W : Type 0} → ErrReplied W → Replied W
forget_replied r = record {
  reply = r.reply;
  sock = r.sock.sock;
  connect_after = r.connect_after;
  world = r.world;
}

abbrev pub forget_answer : {W : Type 0} → Option ℕ × ErrInstance × W → Option ℕ × Instance × W
forget_answer (o, s, w) = (o, forget s, w)

-- The equations of redis_vcommand of the first version, by the pairs that the calls return.
module _ {W : Type 0} (p : Platform W) (k : Config) (after : ℤ) (x : Socket) (cmd : List ℕ)
    (w : W) where
  old_lost :
      let r = Connect.connect_single_socket p k after x (p.redis_free x.conn w) in
      ltb_ℤ r.rc (pos 0) ≡ true
      → Command.retry p k after x cmd w
        ≡ record { reply = none; sock = r.sock; connect_after = r.connect_after; world = r.world }
  unfolding Command.retry
  old_lost e = ground arith

  old_retried :
      {o : Option ℕ} {v : W}
      → let r = Connect.connect_single_socket p k after x (p.redis_free x.conn w) in
        ltb_ℤ r.rc (pos 0) ≡ false
        → p.redisv_command r.sock.conn cmd r.world ≡ (o, v)
        → Command.retry p k after x cmd w
          ≡ record { reply = o; sock = r.sock; connect_after = r.connect_after; world = v }
  unfolding Command.retry
  old_retried e f = ground arith

  old_first :
      {a : ℕ} {v : W}
      → p.redisv_command x.conn cmd w ≡ (some a, v)
      → Command.vcommand p k after x cmd w
        ≡ record { reply = some a; sock = x; connect_after = after; world = v }
  unfolding Command.vcommand
  old_first e = ground arith

  old_retry :
      {v : W}
      → p.redisv_command x.conn cmd w ≡ (none, v)
      → Command.vcommand p k after x cmd w ≡ Command.retry p k after x cmd v
  unfolding Command.vcommand
  old_retry e = ground arith

old_at :
    {W : Type 0} (p : Platform W) (s : Instance) (i : ℕ) (cmd : List ℕ) (w : W) (x : Socket)
    → get_elem? s.redis_pool i ≡ some x
    → let r = Command.vcommand p s.config s.connect_after x cmd w in
      Command.redis_vcommand p s i cmd w
      ≡ (r.reply, record (Instance.store s i r.sock) { connect_after = r.connect_after }, r.world)
unfolding Command.redis_vcommand
old_at p s i cmd w x e = ground arith

-- What a reply and a world make of a connection.
abbrev replied : {W : Type 0} → Option ℕ → W → Connected W → Replied W
replied o v c = record { reply = o; sock = c.sock; connect_after = c.connect_after; world = v }

module _ {W : Type 0} (t : Hiredis W) (cmd : List ℕ) (send : Option ℕ → W → Option ℕ × W)
    (same : (c : Option ℕ) (w : W) → send c w ≡ t.platform.redisv_command c cmd w) where
  save_from-forget : (o : Option ℕ) (y : ErrSocket) (w : W) → (save_from t o y w).sock ≡ y.sock
  unfolding save_from hiredispool.Experimental.save_last_error
  save_from-forget none y w = refl
  save_from-forget (some c) y w = refl

  retried-forget :
      (k : Config) (after : ℤ) (y : ErrSocket) (w : W)
      → let r = connect_single_socket t k after y (t.platform.redis_free y.sock.conn w) in
        ltb_ℤ r.rc (pos 0) ≡ false
        → Command.retry t.platform k after y.sock cmd w
          ≡ (let (o, v) = send r.sock.sock.conn r.world in replied o v (forget_connected r))
  retried-forget k after y w e =
      let p = t.platform in
      let w1 = p.redis_free y.sock.conn w in
      let r = connect_single_socket t k after y w1 in
      let q = connect-forget t k after y w1 in
      old_retried p k after y.sock cmd w (ap (λ c. ltb_ℤ c.rc (pos 0)) (sym q) ∙ e) (
        ap (λ c. p.redisv_command c.sock.conn cmd c.world) (sym q)
        ∙ sym (same r.sock.sock.conn r.world))
      ∙ ap (replied _ _) (sym q)

  retry-forget :
      (k : Config) (after : ℤ) (y : ErrSocket) (w : W)
      → forget_replied (retry t send k after y w) ≡ Command.retry t.platform k after y.sock cmd w
  retry-forget k after y w =
      let p = t.platform in
      let w1 = p.redis_free y.sock.conn w in
      let r = connect_single_socket t k after y w1 in
      let q = connect-forget t k after y w1 in
      let (o, v) = send r.sock.sock.conn r.world in
      elim (Bool-cases (ltb_ℤ r.rc (pos 0))) [
        | inl e ↦
            ap forget_replied (retry_lost t send k after y w e)
            ∙ ap (λ c. replied none c.world c) q
            ∙ sym (old_lost p k after y.sock cmd w (ap (λ c. ltb_ℤ c.rc (pos 0)) (sym q) ∙ e))
        | inr e ↦ elim (Option-cases o) [
          | inr (a, f) ↦
              ap forget_replied (retry_answered t send k after y w e (ap (λ b. (b, v)) f))
              ∙ ap (λ b. replied b v (forget_connected r)) (sym f)
              ∙ sym (retried-forget k after y w e)
          | inl f ↦
              ap forget_replied (retry_failed t send k after y w e (ap (λ b. (b, v)) f))
              ∙ ap (λ x. replied none v (record (forget_connected r) { sock = x }))
                  (save_from-forget r.sock.sock.conn r.sock v)
              ∙ ap (λ b. replied b v (forget_connected r)) (sym f)
              ∙ sym (retried-forget k after y w e)
        ]
      ]

  vcommand-forget :
      (k : Config) (after : ℤ) (y : ErrSocket) (w : W)
      → forget_replied (vcommand t send k after y w)
        ≡ Command.vcommand t.platform k after y.sock cmd w
  vcommand-forget k after y w =
      let (o, v) = send y.sock.conn w in
      elim (Option-cases o) [
        | inr (a, f) ↦
            let g : send y.sock.conn w ≡ (some a, v) = ap (λ b. (b, v)) f in
            ap forget_replied (vcommand_first t send k after y w g)
            ∙ sym (old_first t.platform k after y.sock cmd w (sym (same y.sock.conn w) ∙ g))
        | inl f ↦
            let g : send y.sock.conn w ≡ (none, v) = ap (λ b. (b, v)) f in
            ap forget_replied (vcommand-retry t send k after y w g)
            ∙ retry-forget k after y v
            ∙ sym (old_retry t.platform k after y.sock cmd w (sym (same y.sock.conn w) ∙ g))
      ]

  pub on_pointer-forget :
      (s : ErrInstance) (i : ℕ) (w : W)
      → forget_answer (on_pointer t send s i w)
        ≡ Command.redis_vcommand t.platform (forget s) i cmd w
  on_pointer-forget s i w =
      let p = t.platform in
      elim (Option-cases (get_elem? s.redis_pool i)) [
        | inl e ↦
            ap forget_answer (on_pointer_lost t send s i w e)
            ∙ sym
                (redis_vcommand_lost p (forget s) i cmd w (get_elem?-forget_none s.redis_pool i e))
        | inr (y, e) ↦
            let r = vcommand t send s.config s.connect_after y w in
            ap forget_answer (on_pointer_at t send s i w y e)
            ∙ ap
                (λ u.
                  let z : Instance = record u { connect_after = r.connect_after } in
                  (r.reply, z, r.world))
                (forget-store s i r.sock)
            ∙ ap
                (λ c.
                  let z : Instance = record (Instance.store (forget s) i c.sock) {
                    connect_after = c.connect_after;
                  } in
                  (c.reply, z, c.world))
                (vcommand-forget s.config s.connect_after y w)
            ∙ sym (old_at p (forget s) i cmd w y.sock (get_elem?-forget_some s.redis_pool i y e))
      ]
