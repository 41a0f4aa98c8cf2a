-- ===== src/Acquire/Rounds.antt =====
-- One round of the loop in redis_get_socket: what it may change, and why it goes on to the next
-- socket.
use hiredispool.Base.{
  ℕ, ◌≡◌, ◌≢◌, ◌⊎◌, inl, inr, ◌∙◌, refl, ap, sym, subst, get_elem?, set_self, true, false,
  Bool-cases, some, arith, ℤ, pos, negsuc, ◌≤ℤ◌, ltb_ℤ, is_zero, is_zero-true, is_zero-false,
}
use hiredispool.Platform.{Platform}
use hiredispool.Instance.{
  sockunconnected, sockconnected, SockState-cases, Socket, Instance, next_of, store,
}
use hiredispool.Connect.{connect_single_socket}
use hiredispool.Invariant.{IsSocket, connect-IsReconnected}
use hiredispool.Acquire.Steps.{
  reconnect_up, reconnect_early, reconnect_due, grab_up, grab_down, visit_busy, visit_in_use,
  visit_free,
}
use hiredispool.Acquire.{Visit, taken, skipped, reconnect, grab, visit}

module _ {W : Type 0} (p : Platform W) (s : Instance) where
  -- A time up to which nothing is connected, for a search that began on pool `s`: the one that the pool
  -- had, or the one that an attempt to connect has set which failed.
  abbrev pub Grace : ℤ → Type 0
  Grace after =
      (after ≡ s.connect_after)
      ⊎ ((y : Socket) × (earlier : ℤ) × (u : W) × (let r =
              connect_single_socket p s.config earlier y u in
            (r.rc ≡ negsuc 0) × (after ≡ r.connect_after)))

  -- No connection for an unconnected socket: the grace period is not over, or connecting failed.
  abbrev pub NoConnection : Socket → Type 0
  NoConnection x =
      (x.state ≡ sockunconnected)
      × (u : W) × (after : ℤ) × Grace after
      × (((p.time u).0 ≤ℤ after) ⊎ ((connect_single_socket p s.config after x u).rc ≡ negsuc 0))

  -- Why a round does not return the socket: its mutex was not to be had, it was in use, or it was
  -- unconnected and could not be connected.
  abbrev pub Refused : Socket → Type 0
  Refused x =
      ((u : W) × ((p.mutex_trylock x.id u).0 ≢ pos 0))
      ⊎ (x.inuse ≡ true)
      ⊎ NoConnection (record x { inuse = true })

-- What is refused later in a search is refused by the pool that it began on.
module _ {W : Type 0} (p : Platform W) (s t : Instance) (k : t.config ≡ s.config)
    (g : Grace p s t.connect_after) where
  Grace-later : (after : ℤ) → Grace p t after → Grace p s after
  Grace-later after (inl e) = subst (Grace p s) (sym e) g
  Grace-later after (inr (y, earlier, u, (code, e))) = inr (
    y,
    earlier,
    u,
    (
      ap (λ c. (connect_single_socket p c earlier y u).rc) (sym k) ∙ code,
      e ∙ ap (λ c. (connect_single_socket p c earlier y u).connect_after) k,
    ),
  )

  pub Refused-later : (x : Socket) → Refused p t x → Refused p s x
  Refused-later x (inl busy) = inl busy
  Refused-later x (inr (inl used)) = inr (inl used)
  Refused-later x (inr (inr (down, u, after, h, inl early))) =
      inr (inr (down, u, after, Grace-later after h, inl early))
  Refused-later x (inr (inr (down, u, after, h, inr code))) =
      let y = record x { inuse = true } in
      let code' = ap (λ c. (connect_single_socket p c after y u).rc) (sym k) ∙ code in
      inr (inr (down, u, after, Grace-later after h, inr code'))

module _ {W : Type 0} (p : Platform W) (s : Instance) where
  pub record Reconnected (x : Socket) (r : Instance × Socket × W) : Type 0 where
    pub formed : IsSocket s.config r.1
    pub same_id : r.1.id ≡ x.id
    pub same_inuse : r.1.inuse ≡ x.inuse
    pub same_pool : r.0 ≡ record s { connect_after = r.0.connect_after }
    pub outcome :
        (r.1.state ≡ sockconnected)
        ⊎ (r.1.state ≡ sockunconnected) × NoConnection p s x × Grace p s r.0.connect_after

  due-Reconnected :
      (x : Socket) (w : W)
      → IsSocket s.config x
      → x.state ≡ sockunconnected
      → let r = connect_single_socket p s.config s.connect_after x w in
        Reconnected x (record s { connect_after = r.connect_after }, r.sock, r.world)
  due-Reconnected x w h e =
      let c = connect-IsReconnected p s.config s.connect_after x w h.backup_lt in
      record {
        formed = c.formed;
        same_id = c.same_id;
        same_inuse = c.same_inuse;
        same_pool = refl;
        outcome = elim c.outcome [
          | inl (_, up) ↦ inl up
          | inr (code, down, _) ↦ inr (
            down,
            (e, w, s.connect_after, inl refl, inr code),
            inr (x, s.connect_after, w, (code, refl)),
          )
        ];
      }

  pub reconnect-Reconnected :
      (x : Socket) (w : W) → IsSocket s.config x → Reconnected x (reconnect p s x w)
  reconnect-Reconnected x w h = elim (SockState-cases x.state) [
    | inr up ↦ rw (reconnect_up p s x w up) (record {
      formed = h;
      same_id = refl;
      same_inuse = refl;
      same_pool = refl;
      outcome = inl up;
    })
    | inl down ↦ elim (Bool-cases (ltb_ℤ s.connect_after (p.time w).0)) [
      | inl due ↦ rw (reconnect_due p s x w down due) (due-Reconnected x _ h down)
      | inr early ↦ rw (reconnect_early p s x w down early) (record {
        formed = h;
        same_id = refl;
        same_inuse = refl;
        same_pool = refl;
        outcome = inr (down, (down, w, s.connect_after, inl refl, inl (ground arith)), inl refl);
      })
    ]
  ]

  -- The effect of a round that goes on: the socket at `cur` may have been reconnected.
  pub record Passed (cur : ℕ) (x : Socket) (t : Instance) : Type 0 where
    pub sock : Socket
    pub formed : IsSocket s.config sock
    pub same_id : sock.id ≡ x.id
    pub same_inuse : sock.inuse ≡ x.inuse
    pub stored : t ≡ record (store s cur sock) { connect_after = t.connect_after }
    pub refused : Refused p s x
    pub grace : Grace p s t.connect_after

  -- The effect of a round that returns the socket at `cur`: it was free and locked for us, it is
  -- connected and in use now, and the next search starts behind it.
  pub record Won (cur : ℕ) (x : Socket) (t : Instance) : Type 0 where
    pub sock : Socket
    pub formed : IsSocket s.config sock
    pub same_id : sock.id ≡ x.id
    pub was_free : x.inuse ≡ false
    pub in_use : sock.inuse ≡ true
    pub up : sock.state ≡ sockconnected
    pub locked : (u : W) × ((p.mutex_trylock x.id u).0 ≡ pos 0)
    pub stored :
        t ≡ record (store s cur sock) { connect_after = t.connect_after; last_used = next_of s cur }

  abbrev pub Visited : ℕ → Socket → Visit W → Type 0
  Visited cur x (taken t v) = Won cur x t
  Visited cur x (skipped t v) = Passed cur x t

  -- Nothing is written, and the socket is refused.
  untouched :
      (cur : ℕ) (x : Socket)
      → get_elem? s.redis_pool cur ≡ some x
      → IsSocket s.config x
      → Refused p s x
      → Passed cur x s
  untouched cur x here h refused = record {
    sock = x;
    formed = h;
    same_id = refl;
    same_inuse = refl;
    stored = ground (arith, set_self s.redis_pool cur x);
    refused = refused;
    grace = inl refl;
  }

  grab-Visited :
      (cur : ℕ) (x : Socket) (r : Instance × Socket × W)
      → x.inuse ≡ false
      → (u : W) × ((p.mutex_trylock x.id u).0 ≡ pos 0)
      → Reconnected (record x { inuse = true }) r
      → Visited cur x (grab p cur r)
  grab-Visited cur x (t, y, w) free lock r = elim r.outcome [
    | inl up ↦ rw (grab_up p s cur t y w up) (record {
      sock = y;
      formed = r.formed;
      same_id = r.same_id;
      was_free = free;
      in_use = r.same_inuse;
      up = up;
      locked = lock;
      stored = ground (arith, r.same_pool);
    })
    | inr (down, none_made, grace) ↦ rw (grab_down p s cur t y w down) (record {
      sock = record y { inuse = false };
      formed = record { backup_lt = r.formed.backup_lt; linked = r.formed.linked };
      same_id = r.same_id;
      same_inuse = sym free;
      stored = ground (arith, r.same_pool);
      refused = inr (inr none_made);
      grace = grace;
    })
  ]

  -- A round returns the socket or goes on, in this sense.
  pub visit-Visited :
      (cur : ℕ) (x : Socket) (w : W)
      → get_elem? s.redis_pool cur ≡ some x
      → IsSocket s.config x
      → Visited cur x (visit p s cur x w)
  visit-Visited cur x w here h = elim (Bool-cases (is_zero (p.mutex_trylock x.id w).0)) [
    | inr busy ↦
        rw (visit_busy p s cur x w busy) (untouched cur x here h (inl (w, is_zero-false _ busy)))
    | inl got ↦ elim (Bool-cases x.inuse) [
      | inl used ↦ rw (visit_in_use p s cur x w got used) (untouched cur x here h (inr (inl used)))
      | inr free ↦ rw (visit_free p s cur x w got free) (
          grab-Visited cur x _ free (w, is_zero-true _ got)
            (reconnect-Reconnected (record x { inuse = true }) _
              (record { backup_lt = h.backup_lt; linked = h.linked })))
    ]
  ]
