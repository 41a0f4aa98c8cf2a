-- ===== src/Experimental/Client/Statuses.antt =====
-- The status of a command, from the search for a socket to its text.
use hiredispool.Base.{
  ℕ, ◌≡◌, ◌⊎◌, inl, inr, ◌∙◌, refl, sym, ap, subst, Option, none, some, List, get_elem?, codes,
  get_elem?-set_self, lt-length, arith,
}
use hiredispool.Instance.{Socket}
use hiredispool.Connect.{established, exhausted}
use hiredispool.Ramcloud.{Reply, Pack, reply_of}
use hiredispool.Ramcloud.Replies.{error_text, reply2status}
use hiredispool.Experimental.{
  LastError, ErrSocket, ErrInstance, Hiredis, store, save_last_error, set_last_error, keep_error,
}
use hiredispool.Experimental.Acquire.{redis_get_socket}
use hiredispool.Experimental.Command.{vcommand, on_pointer}
use hiredispool.Experimental.Command.Steps.{on_pointer_at}
use hiredispool.Experimental.Command.Errors.{attempts, reconnected, vcommand_errors}
use hiredispool.Experimental.Client.{set_error, pack_of, on_socket, pooled}

module _ {W : Type 0} (t : Hiredis W) (reply_at : ℕ → W → Reply)
    (send : Option ℕ → W → Option ℕ × W) where
  pooled_found :
      (s u : ErrInstance) (w v : W) (i : ℕ)
      → redis_get_socket t s w ≡ some (some i, u, v)
      → pooled t reply_at send s w ≡ on_socket t reply_at send i u v
  unfolding pooled
  pooled_found s u w v i e = ground arith

  on_socket_read :
      (u u2 : ErrInstance) (v v2 : W) (i : ℕ) (o : Option ℕ) (z : ErrSocket)
      → on_pointer t send u i v ≡ (o, u2, v2)
      → get_elem? u2.redis_pool i ≡ some z
      → (on_socket t reply_at send i u v).0 ≡ some (pack_of t reply_at o z v2)
  unfolding on_socket
  on_socket_read u u2 v v2 i o z e f = ground arith

  on_socket_at :
      (u : ErrInstance) (v : W) (i : ℕ) (y : ErrSocket)
      → get_elem? u.redis_pool i ≡ some y
      → let r = vcommand t send u.config u.connect_after y v in
        (on_socket t reply_at send i u v).0 ≡ some (pack_of t reply_at r.reply r.sock r.world)
  unfolding store
  on_socket_at u v i y e =
      let r = vcommand t send u.config u.connect_after y v in
      on_socket_read u (record (store u i r.sock) { connect_after = r.connect_after }) v r.world i
        r.reply r.sock (on_pointer_at t send u i v y e)
        (get_elem?-set_self u.redis_pool i r.sock (lt-length u.redis_pool i e))

  -- The text of a status without a reply.
  abbrev text_of_error : LastError → List ℕ
  text_of_error e = error_text e.err e.errstr

  pack_answered :
      (a : ℕ) (y : ErrSocket) (w : W)
      → reply_of (some (pack_of t reply_at (some a) y w)) ≡ some (reply_at a w)
  unfolding reply_of pack_of
  pack_answered a y w = refl

  pack_failed :
      (y : ErrSocket) (w : W)
      → (reply2status (some (pack_of t reply_at none y w))).code ≡ text_of_error y.last
  unfolding pack_of set_error reply2status
  pack_failed y w = refl

  -- The text of the status says why there is no reply: no context could be made, or what the context
  -- says of itself.
  abbrev pub text_of_context : Option ℕ → W → List ℕ
  text_of_context none w = codes "ERR Not enough memory"
  text_of_context (some c) w = error_text (t.platform.err c w) (t.errstr c w)

  -- How a command on socket `y` ends, with the reply that the client returns. `outcome` is that of the
  -- attempts to reconnect, after a first attempt that got no reply, and `later` the world after them.
  abbrev pub Diagnosed : ErrInstance → W → ErrSocket → Option Pack → Type 0
  Diagnosed u v y p =
      let r = vcommand t send u.config u.connect_after y v in
      let first = send y.sock.conn v in
      let outcome = attempts t send u.config u.connect_after y first.1 in
      let later = reconnected t send u.config u.connect_after y first.1 in
      ((a : ℕ) × (reply_of p ≡ some (reply_at a r.world)) × (first ≡ (some a, r.world)))
      ⊎ (first.0 ≡ none)
        × (((c : Option ℕ) × (x : Socket) × (w : W) × (outcome ≡ exhausted c x w)
              × ((reply2status p).code ≡ text_of_context c w))
            ⊎ ((c : ℕ) × (x : Socket) × (w : W) × (outcome ≡ established c x w)
                × (((a : ℕ) × (send (some c) later ≡ (some a, r.world))
                      × (reply_of p ≡ some (reply_at a r.world)))
                    ⊎ ((send (some c) later ≡ (none, r.world))
                        × ((reply2status p).code ≡ text_of_context (some c) r.world)))))

  keep_error_text :
      (c : Option ℕ) (y : ErrSocket) (w : W) (p : Option Pack)
      → (reply2status p).code ≡ text_of_error (keep_error t c y w).last
      → (reply2status p).code ≡ text_of_context c w
  unfolding keep_error save_last_error set_last_error error_text
  keep_error_text none y w p e = e
  keep_error_text (some c) y w p e = e

  answered_pack :
      (o : Option ℕ) (a : ℕ) (y : ErrSocket) (w : W)
      → o ≡ some a
      → reply_of (some (pack_of t reply_at o y w)) ≡ some (reply_at a w)
  answered_pack o a y w e =
      ap (λ b. reply_of (some (pack_of t reply_at b y w))) e ∙ pack_answered a y w

  failed_pack :
      (o : Option ℕ) (y : ErrSocket) (w : W) (e : LastError)
      → o ≡ none
      → y.last ≡ e
      → (reply2status (some (pack_of t reply_at o y w))).code ≡ text_of_error e
  failed_pack o y w e f g =
      ap (λ b. (reply2status (some (pack_of t reply_at b y w))).code) f
      ∙ pack_failed y w
      ∙ ap text_of_error g

  vcommand-Diagnosed :
      (u : ErrInstance) (v : W) (y : ErrSocket)
      → let r = vcommand t send u.config u.connect_after y v in
        Diagnosed u v y (some (pack_of t reply_at r.reply r.sock r.world))
  unfolding save_last_error
  vcommand-Diagnosed u v y =
      let r = vcommand t send u.config u.connect_after y v in
      elim (vcommand_errors t send u.config u.connect_after y v) [
        | inl (a, sent, e, _) ↦ inl (a, answered_pack r.reply a r.sock r.world e, sent)
        | inr (lost, inl (c, x, w, e, f, g)) ↦ inr (
          lost,
          inl (
            c,
            x,
            w,
            e,
            keep_error_text c y w (some (pack_of t reply_at r.reply r.sock r.world))
                (failed_pack r.reply r.sock r.world _ f g),
          ),
        )
        | inr (lost, inr (c, x, w, e, sent, inr (a, f, g))) ↦ inr (
          lost,
          inr (
            c,
            x,
            w,
            e,
            inl (a, sent ∙ ap (λ o. (o, r.world)) f, answered_pack r.reply a r.sock r.world f),
          ),
        )
        | inr (lost, inr (c, x, w, e, sent, inl (f, g))) ↦ inr (
          lost,
          inr (
            c,
            x,
            w,
            e,
            inr (sent ∙ ap (λ o. (o, r.world)) f, failed_pack r.reply r.sock r.world _ f g),
          ),
        )
      ]

  -- A command of the client for which the pool has a socket. It is answered at once, and the client returns
  -- that reply. Or it is not, and then no endpoint can be connected to again, and the text of the status is
  -- that of the last context that was tried, or that there was no memory for it; or the command is sent
  -- again on a new context, right after the attempts: its reply is returned, or it gets no reply either and
  -- the text of the status is that of the new context.
  pub pooled_diagnosis :
      (s u : ErrInstance) (w v : W) (i : ℕ) (y : ErrSocket)
      → redis_get_socket t s w ≡ some (some i, u, v)
      → get_elem? u.redis_pool i ≡ some y
      → Diagnosed u v y (pooled t reply_at send s w).0
  pooled_diagnosis s u w v i y e f =
      let q = ap (λ r. r.0) (pooled_found s u w v i e) ∙ on_socket_at u v i y f in
      subst (Diagnosed u v y) (sym q) (vcommand-Diagnosed u v y)
