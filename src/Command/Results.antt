-- ===== src/Command/Results.antt =====
-- What redis_vcommand promises: one retry on a fresh connection, and a pool that stays well formed.
use hiredispool.Base.{
  ℕ, ◌<◌, ◌≡◌, ◌⊎◌, inl, inr, refl, List, some, none, Option-cases, arith, ℤ, pos, negsuc,
}
use hiredispool.Config.{Config, count_of}
use hiredispool.Platform.{Platform}
use hiredispool.Instance.{Socket}
use hiredispool.Connect.{Connected, connect_single_socket}
use hiredispool.Connect.Results.{Failed, Succeeded, connect_cases}
use hiredispool.Command.{Replied, retry, vcommand}

module _ {W : Type 0} (p : Platform W) (k : Config) (after : ℤ) (x : Socket) (cmd : List ℕ)
    (w : W) where
  -- The reconnection after a first attempt that got no reply.
  abbrev pub reconnection : Connected W
  reconnection =
      connect_single_socket p k after x (p.redis_free x.conn (p.redisv_command x.conn cmd w).1)

  -- The first attempt got a reply, and nothing else has changed.
  pub record Answered (r : Replied W) : Type 0 where
    pub first : (c : ℕ) × ((p.redisv_command x.conn cmd w).0 ≡ some c) × (r.reply ≡ some c)
    pub sock : r.sock ≡ x
    pub connect_after : r.connect_after ≡ after
    pub world : r.world ≡ (p.redisv_command x.conn cmd w).1

  -- The first attempt got none, its context was freed, and reconnecting failed.
  pub record Lost (r : Replied W) : Type 0 where
    pub first : (p.redisv_command x.conn cmd w).0 ≡ none
    pub failed : Failed p k x after reconnection
    pub reply : r.reply ≡ none
    pub sock : r.sock ≡ reconnection.sock
    pub connect_after : r.connect_after ≡ reconnection.connect_after
    pub world : r.world ≡ reconnection.world

  -- The first attempt got none, its context was freed, and the reply, if there is one, is that of the
  -- second attempt, on the new context, which the socket keeps.
  pub record Retried (r : Replied W) : Type 0 where
    pub first : (p.redisv_command x.conn cmd w).0 ≡ none
    pub connected : Succeeded p k x after reconnection
    pub reply : r.reply ≡ (p.redisv_command reconnection.sock.conn cmd reconnection.world).0
    pub sock : r.sock ≡ reconnection.sock
    pub connect_after : r.connect_after ≡ after
    pub world : r.world ≡ (p.redisv_command reconnection.sock.conn cmd reconnection.world).1

  retry_lost :
      reconnection.rc ≡ negsuc 0
      → retry p k after x cmd (p.redisv_command x.conn cmd w).1 ≡ record {
        reply = none;
        sock = reconnection.sock;
        connect_after = reconnection.connect_after;
        world = reconnection.world;
      }
  unfolding retry
  retry_lost e = ground arith

  retry_on :
      reconnection.rc ≡ pos 0
      → retry p k after x cmd (p.redisv_command x.conn cmd w).1 ≡ record {
        reply = (p.redisv_command reconnection.sock.conn cmd reconnection.world).0;
        sock = reconnection.sock;
        connect_after = reconnection.connect_after;
        world = (p.redisv_command reconnection.sock.conn cmd reconnection.world).1;
      }
  unfolding retry
  retry_on e = ground arith

  vcommand_first :
      {c : ℕ}
      → (p.redisv_command x.conn cmd w).0 ≡ some c
      → vcommand p k after x cmd w ≡ record {
        reply = some c;
        sock = x;
        connect_after = after;
        world = (p.redisv_command x.conn cmd w).1;
      }
  unfolding vcommand
  vcommand_first e = ground arith

  vcommand-retry :
      (p.redisv_command x.conn cmd w).0 ≡ none
      → vcommand p k after x cmd w ≡ retry p k after x cmd (p.redisv_command x.conn cmd w).1
  unfolding vcommand
  vcommand-retry e = ground arith

  -- redis_vcommand on a socket whose backup index is in range ends in one of three ways: the first
  -- attempt is answered; it is not, and reconnecting fails with every endpoint asked; or it is not,
  -- and the command is tried once more on a new connection, whose reply is returned.
  pub vcommand_cases :
      x.backup < count_of k
      → Answered (vcommand p k after x cmd w)
        ⊎ Lost (vcommand p k after x cmd w)
        ⊎ Retried (vcommand p k after x cmd w)
  vcommand_cases h = elim (Option-cases (p.redisv_command x.conn cmd w).0) [
    | inr (c, e) ↦
        rw (vcommand_first e)
          (inl (record { first = (c, e, refl); sock = refl; connect_after = refl; world = refl }))
    | inl e ↦
        elim (connect_cases p k x after (p.redis_free x.conn (p.redisv_command x.conn cmd w).1) h) [
          | inl f ↦ rw (vcommand-retry e) (
              rw (retry_lost f.code) (
                inr (
                  inl (record {
                    first = e;
                    failed = f;
                    reply = refl;
                    sock = refl;
                    connect_after = refl;
                    world = refl;
                  }))))
          | inr g ↦ rw (vcommand-retry e) (
              rw (retry_on g.code) (
                inr (
                  inr (record {
                    first = e;
                    connected = g;
                    reply = refl;
                    sock = refl;
                    connect_after = g.grace;
                    world = refl;
                  }))))
        ]
  ]
