-- ===== src/Experimental/Command/Errors.antt =====
-- What a command leaves as the last error of its socket.
use hiredispool.Base.{
  ℕ, ◌≡◌, ◌⊎◌, inl, inr, ◌∙◌, refl, sym, ap, Bool-cases, Option, none, some, Option-cases, ltb,
  ltb_ℤ, ℤ, pos, negsuc,
}
use hiredispool.Config.{Config, count_of}
use hiredispool.Instance.{Socket}
use hiredispool.Connect.{
  Outcome, established, exhausted, connect_loop, choose_backup, on_success, on_failure,
}
use hiredispool.Experimental.{
  ErrSocket, Hiredis, save_last_error, keep_error, finish, connect_single_socket,
}
use hiredispool.Experimental.Command.{ErrReplied, save_from, retry, vcommand}
use hiredispool.Experimental.Command.Steps.{
  retry_lost, retry_answered, retry_failed, vcommand_first, vcommand-retry,
}

module _ {W : Type 0} (t : Hiredis W) where
  Outcome-cases :
      (o : Outcome W)
      → ((c : ℕ) × (x : Socket) × (v : W) × (o ≡ established c x v))
        ⊎ ((c : Option ℕ) × (x : Socket) × (v : W) × (o ≡ exhausted c x v))
  Outcome-cases (established c x v) = inl (c, x, v, refl)
  Outcome-cases (exhausted c x v) = inr (c, x, v, refl)

  choose_backup-conn :
      (k : Config) (x : Socket) (w : W) → (choose_backup t.platform k x w).0.conn ≡ x.conn
  unfolding choose_backup
  choose_backup-conn k x w = elim (Bool-cases (ltb 1 (count_of k))) [
    | inl e ↦ rw e refl
    | inr e ↦ rw e refl
  ]

  finish_established :
      (k : Config) (after : ℤ) (y : ErrSocket) (c : ℕ) (x : Socket) (v : W)
      → let r = finish t k after y (established c x v) in
        (r.rc ≡ pos 0) × (r.sock.sock.conn ≡ some c) × (r.sock.last ≡ y.last)
  unfolding finish on_success
  finish_established k after y c x v = (refl, choose_backup-conn k _ v, refl)

  finish_exhausted :
      (k : Config) (after : ℤ) (y : ErrSocket) (c : Option ℕ) (x : Socket) (v : W)
      → let r = finish t k after y (exhausted c x v) in
        (r.rc ≡ negsuc 0) × (r.sock.last ≡ (keep_error t c y v).last)
  unfolding finish on_failure
  finish_exhausted k after y c x v = (refl, refl)

  save_from_conn :
      (o : Option ℕ) (c : ℕ) (y z : ErrSocket) (w : W)
      → o ≡ some c
      → (save_from t o y w).last ≡ (save_last_error t z c w).last
  unfolding save_from save_last_error
  save_from_conn o c y z w e = rw e refl

  module _ (send : Option ℕ → W → Option ℕ × W) (k : Config) (after : ℤ) (y : ErrSocket)
      (w : W) where
    -- The attempts to reconnect, after a first attempt that got no reply.
    abbrev pub attempts : Outcome W
    attempts = connect_loop t.platform (count_of k) k y.sock (t.platform.redis_free y.sock.conn w)

    -- No endpoint is usable, and the last error is that of the last context, or that there is none.
    abbrev pub Unreachable : ErrReplied W → Type 0
    Unreachable r =
        (c : Option ℕ) × (x : Socket) × (v : W) × (attempts ≡ exhausted c x v)
        × (r.reply ≡ none)
        × (r.sock.last ≡ (keep_error t c y v).last)

    -- The world after the attempts, in which the command is sent again.
    abbrev pub reconnected : W
    reconnected = (connect_single_socket t k after y (t.platform.redis_free y.sock.conn w)).world

    -- A new context, on which the command is sent again. If that gets no reply, the last error is that of
    -- the new context, and otherwise it stays.
    abbrev pub SentAgain : ErrReplied W → Type 0
    SentAgain r =
        (c : ℕ) × (x : Socket) × (v : W) × (attempts ≡ established c x v)
        × (send (some c) reconnected ≡ (r.reply, r.world))
        × ((r.reply ≡ none) × (r.sock.last ≡ (save_last_error t y c r.world).last)
            ⊎ ((a : ℕ) × (r.reply ≡ some a) × (r.sock.last ≡ y.last)))

    retry_errors : Unreachable (retry t send k after y w) ⊎ SentAgain (retry t send k after y w)
    unfolding connect_single_socket
    retry_errors = elim (Outcome-cases attempts) [
      | inr (c, x, v, e) ↦
          let r = connect_single_socket t k after y (t.platform.redis_free y.sock.conn w) in
          let (code, last) = finish_exhausted k after y c x v in
          let q : r ≡ finish t k after y (exhausted c x v) = ap (finish t k after y) e in
          rw
            (retry_lost t send k after y w
              (ap (λ s. ltb_ℤ s.rc (pos 0)) q ∙ ap (λ z. ltb_ℤ z (pos 0)) code))
            (inl (c, x, v, e, refl, ap (λ s. s.sock.last) q ∙ last))
      | inl (c, x, v, e) ↦
          let r = connect_single_socket t k after y (t.platform.redis_free y.sock.conn w) in
          let (code, conn, last) = finish_established k after y c x v in
          let q : r ≡ finish t k after y (established c x v) = ap (finish t k after y) e in
          let ok = ap (λ s. ltb_ℤ s.rc (pos 0)) q ∙ ap (λ z. ltb_ℤ z (pos 0)) code in
          let on_new = ap (λ s. s.sock.sock.conn) q ∙ conn in
          let (o, u) = send r.sock.sock.conn r.world in
          let sent : send (some c) r.world ≡ (o, u) = ap (λ s. send s r.world) (sym on_new) in
          elim (Option-cases o) [
            | inl f ↦ rw (retry_failed t send k after y w ok (ap (λ b. (b, u)) f)) (
                inr (
                  c,
                  x,
                  v,
                  e,
                  sent ∙ ap (λ b. (b, u)) f,
                  inl (refl, save_from_conn r.sock.sock.conn c r.sock y u on_new),
                ))
            | inr (a, f) ↦ rw (retry_answered t send k after y w ok (ap (λ b. (b, u)) f)) (
                inr (
                  c,
                  x,
                  v,
                  e,
                  sent ∙ ap (λ b. (b, u)) f,
                  inr (a, refl, ap (λ s. s.sock.last) q ∙ last),
                ))
          ]
    ]

  -- The end of a command with its last error. It is answered at once, and the last error stays; or it gets
  -- no reply, and then either no endpoint is usable and the last error is that of the last context, or it
  -- is sent again on a new context, right after the attempts to reconnect, and the reply is what this
  -- second attempt gets: without one again, the last error is that of this context.
  pub vcommand_errors :
      (send : Option ℕ → W → Option ℕ × W) (k : Config) (after : ℤ) (y : ErrSocket) (w : W)
      → let r = vcommand t send k after y w in
        let v = (send y.sock.conn w).1 in
        ((a : ℕ) × (send y.sock.conn w ≡ (some a, r.world)) × (r.reply ≡ some a) × (r.sock ≡ y))
        ⊎ ((send y.sock.conn w).0 ≡ none)
          × (Unreachable send k after y v r ⊎ SentAgain send k after y v r)
  vcommand_errors send k after y w =
      let (o, v) = send y.sock.conn w in
      elim (Option-cases o) [
        | inr (a, f) ↦
            rw (vcommand_first t send k after y w (ap (λ b. (b, v)) f))
              (inl (a, ap (λ b. (b, v)) f, refl, refl))
        | inl f ↦
            rw (vcommand-retry t send k after y w (ap (λ b. (b, v)) f))
              (inr (f, retry_errors send k after y v))
      ]
