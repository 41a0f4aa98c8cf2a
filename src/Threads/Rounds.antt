-- ===== src/Threads/Rounds.antt =====
-- One round of the search of Acquire, and the accesses of a thread in Threads.
use hiredispool.Base.{
  ℕ, ◌<◌, ◌≡◌, ◌≢◌, ◌∙◌, inl, inr, refl, sym, ap, subst, Bool-cases, true, false, none, some,
  Option-cases, arith, length, set, set_self, if◌then◌else◌, ◌==◌, ◌<◌,
}
use hiredispool.Config.{count_of}
use hiredispool.Platform.{Platform}
use hiredispool.Instance.{
  Socket, Instance, next_of, store, sockconnected, sockunconnected, SockState-cases,
}
use hiredispool.Invariant.{IsSocket}
use hiredispool.Invariant.Frame.{At}
use hiredispool.Acquire.{Visit, taken, skipped, reconnect, grab, visit}
use hiredispool.Acquire.Steps.{
  reconnect_up, grab_up, grab_down, visit_busy, visit_in_use, visit_free,
}
use hiredispool.Acquire.Rounds.{Reconnected, reconnect-Reconnected}
use hiredispool.Threads.{Phase, trying, holding, Shared, moved_on}
use hiredispool.Threads.Locks.{MutexLaws, reconnect_owners}
use hiredispool.Threads.Simulation.{Runs, Leads, leads_busy, leads_in_use, leads_down, leads_up}
use hiredispool.Threads.Cells.{
  cell_eq, next_same, cell_of, Shows, IsDistinct, Wrote, Wrote-Shows, Wrote-IsDistinct,
}

module _ {W : Type 0} {p : Platform W} {a : ℕ} (laws : MutexLaws p a) where
  open laws use {owner}

  -- What the threads share at the end, where the pool is `u` and the world `v`.
  pub record Agrees (n : ℕ) (t : Shared) (q : Phase) (u : Instance) (v : W) : Type 0 where
    pub to : Shared
    pub runs : Runs n a t to
    pub phase : to.phases a ≡ q
    pub shows : Shows laws u v to
    pub last : to.last_used ≡ u.last_used
    pub distinct : IsDistinct laws u

  -- How a round ends.
  abbrev pub VisitAgrees : ℕ → ℕ → ℕ → Shared → Visit W → Type 0
  VisitAgrees n start cur t (taken u v) = Agrees n t (holding cur) u v
  VisitAgrees n start cur t (skipped u v) = Agrees n t (moved_on n start cur) u v

  module _ (n start cur : ℕ) (s : Instance) (w : W) (t : Shared) {x : Socket} (h : Shows laws s w t)
      (last : t.last_used ≡ s.last_used) (distinct : IsDistinct laws s) (here : At s cur x)
      (at_start : t.phases a ≡ trying start cur) where
    Leads-Agrees :
        (y : Socket) (u : Instance) (v : W)
        → Wrote laws s w cur x y u v
        → u.last_used ≡ s.last_used
        → Leads n a cur t (moved_on n start cur) (cell_of laws v y)
        → Agrees n t (moved_on n start cur) u v
    Leads-Agrees y u v wrote e l = record {
      to = l.to;
      runs = l.runs;
      phase = l.phase;
      shows = Wrote-Shows laws s w cur y u v here wrote distinct t l.to h l.cell l.elsewhere;
      last = l.last ∙ last ∙ sym e;
      distinct = Wrote-IsDistinct laws s w cur y u v here wrote distinct;
    }

    busy-Agrees :
        (b : ℕ)
        → owner w x.id ≡ some b
        → Agrees n t (moved_on n start cur) s (p.mutex_trylock x.id w).1
    busy-Agrees b e =
        let (_, same) = laws.trylock_held x.id w e in
        let v = (p.mutex_trylock x.id w).1 in
        Leads-Agrees x s v
          (record {
            stored = sym (set_self s.redis_pool cur x here);
            same_id = refl;
            others = λ j ne. same j;
          })
          refl
          (subst
            (λ o.
              Leads n a cur t (moved_on n start cur)
                (record { owner = o; inuse = x.inuse; state = x.state }))
            (sym (same x.id))
            (leads_busy n a cur t start at_start (cell_of laws w x) (h cur x here) b e))

    -- The mutex is locked, and unlocked at the end.
    module _ (free : owner w x.id ≡ none) where
      abbrev w1 : W
      w1 = (p.mutex_trylock x.id w).1

      got : (j : ℕ) → owner w1 j ≡ (if j == x.id then some a else owner w j)
      got = (laws.trylock_free x.id w free).1

      mine : owner w1 x.id ≡ some a
      mine = ground (arith, got x.id)

      others_as_before : (j : ℕ) → j ≢ x.id → owner w1 j ≡ owner w j
      others_as_before j ne = ground (arith, got j)

      -- After the unlock, where nothing else has been done to mutexes in between.
      unlocked :
          (v : W)
          → ((j : ℕ) → owner v j ≡ owner w1 j)
          → (owner (p.mutex_unlock x.id v).1 x.id ≡ none)
            × ((j : ℕ) → j ≢ x.id → owner (p.mutex_unlock x.id v).1 j ≡ owner w j)
      unlocked v same =
          let law = laws.unlock_owner x.id v (same x.id ∙ mine) in
          (ground (arith, law x.id), λ j ne. ground (arith, law j, same j, others_as_before j ne))

      in_use-Agrees :
          x.inuse ≡ true → Agrees n t (moved_on n start cur) s (p.mutex_unlock x.id w1).1
      in_use-Agrees used =
          let v = (p.mutex_unlock x.id w1).1 in
          let (none_there, same) = unlocked w1 (λ j. refl) in
          Leads-Agrees x s v
            (record {
              stored = sym (set_self s.redis_pool cur x here);
              same_id = refl;
              others = same;
            })
            refl
            (subst
              (λ o.
                Leads n a cur t (moved_on n start cur)
                  (record { owner = o; inuse = x.inuse; state = x.state }))
              (sym none_there)
              (leads_in_use n a cur t start at_start (cell_of laws w x) (h cur x here) free used))

      -- The socket after the grace period has been looked at, and perhaps a connection been made.
      module _ (unused : x.inuse ≡ false) (s1 : Instance) (y : Socket) (v : W)
          (r : Reconnected p s (record x { inuse = true }) (s1, y, v))
          (same : (j : ℕ) → owner v j ≡ owner w1 j)
          (kept : x.state ≡ sockconnected → y.state ≡ x.state) where
        pool_of : (z : Socket) → (store s1 cur z).redis_pool ≡ set s.redis_pool cur z
        pool_of z = ap (λ q. set q.redis_pool cur z) r.same_pool

        down-Agrees :
            y.state ≡ sockunconnected
            → Agrees n t
                (moved_on n start cur)
                (store s1 cur (record y { inuse = false }))
                (p.mutex_unlock y.id v).1
        down-Agrees down =
            let (none_there, others) = unlocked v same in
            let after = (p.mutex_unlock x.id v).1 in
            let cell = cell_eq (sym (ap (owner after) r.same_id ∙ none_there)) refl (sym down) in
            let back = ap (λ i. (p.mutex_unlock i v).1) (sym r.same_id) in
            subst
              (λ u. Agrees n t (moved_on n start cur) (store s1 cur (record y { inuse = false })) u)
              back
              (Leads-Agrees (record y { inuse = false }) _ after
                (record { stored = pool_of _; same_id = r.same_id; others = others })
                (ap (λ q. q.last_used) r.same_pool)
                (subst (Leads n a cur t (moved_on n start cur)) cell (
                  leads_down n a cur t start at_start (cell_of laws w x) (h cur x here) free unused
                    (λ up. sym down ∙ kept up))))

        up-Agrees :
            length s.redis_pool ≡ n
            → y.state ≡ sockconnected
            → Agrees n t (holding cur) (record (store s1 cur y) { last_used = next_of s1 cur }) v
        up-Agrees len up =
            let l =
              leads_up n a cur t start at_start (cell_of laws w x) (h cur x here) free unused in
            let cell =
              cell_eq (sym (ap (owner v) r.same_id ∙ same x.id ∙ mine)) (sym r.same_inuse)
                (sym up) in
            let u = record (store s1 cur y) { last_used = next_of s1 cur } in
            let wrote : Wrote laws s w cur x y u v = record {
              stored = pool_of y;
              same_id = r.same_id;
              others = λ j ne. same j ∙ others_as_before j ne;
            } in
            record {
              to = l.to;
              runs = l.runs;
              phase = l.phase;
              shows =
                  Wrote-Shows laws s w cur y u v here wrote distinct t l.to h (l.cell ∙ cell)
                    l.elsewhere;
              last = l.last ∙ next_same n s1 cur (ap (λ q. length q.redis_pool) r.same_pool ∙ len);
              distinct = Wrote-IsDistinct laws s w cur y u v here wrote distinct;
            }

      free-Agrees :
          IsSocket s.config x
          → x.inuse ≡ false
          → length s.redis_pool ≡ n
          → 0 < count_of s.config
          → VisitAgrees n start cur t (grab p cur (reconnect p s (record x { inuse = true }) w1))
      free-Agrees formed unused len some_endpoint =
          let z = record x { inuse = true } in
          let (s1, y, v) = reconnect p s z w1 in
          let r =
            reconnect-Reconnected p s z w1
              (record { backup_lt = formed.backup_lt; linked = formed.linked }) in
          let same = λ (j : ℕ). reconnect_owners laws s z w1 j some_endpoint in
          let kept =
            λ (up : x.state ≡ sockconnected). ap (λ q. q.1.state) (reconnect_up p s z w1 up) in
          elim (SockState-cases y.state) [
            | inl down ↦
                rw (grab_down p s cur s1 y v down) (down-Agrees unused s1 y v r same kept down)
            | inr up ↦ rw (grab_up p s cur s1 y v up) (up-Agrees unused s1 y v r same kept len up)
          ]

    pub visit-Agrees :
        IsSocket s.config x
        → length s.redis_pool ≡ n
        → 0 < count_of s.config
        → VisitAgrees n start cur t (visit p s cur x w)
    visit-Agrees formed len some_endpoint = elim (Option-cases (owner w x.id)) [
      | inr (b, e) ↦ rw (visit_busy p s cur x w (laws.trylock_held x.id w e).0) (busy-Agrees b e)
      | inl e ↦
          let success = (laws.trylock_free x.id w e).0 in
          elim (Bool-cases x.inuse) [
            | inl used ↦ rw (visit_in_use p s cur x w success used) (in_use-Agrees e used)
            | inr unused ↦
                rw (visit_free p s cur x w success unused)
                  (free-Agrees e formed unused len some_endpoint)
          ]
    ]
