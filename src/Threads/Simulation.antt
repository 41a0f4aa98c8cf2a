-- ===== src/Threads/Simulation.antt =====
-- One round of redis_get_socket, as Acquire has it, against the accesses of one thread.
use hiredispool.Base.{
  ℕ, suc, ◌≡◌, ◌≢◌, ◌∙◌, inl, inr, refl, sym, ap, subst, true, false, none, some,
}
use hiredispool.Instance.{SockState, sockconnected, sockunconnected, SockState-cases}
use hiredispool.Threads.{
  Cell, Phase, Shared, trying, locked, claimed, checking, leaving, holding, next_of, goes, writes,
  moved_on, Step, actor, busy, locks, finds_in_use, claims, connects, passes, ignores, grabs,
  leaves,
}
use hiredispool.Threads.Ownership.{update_same, update_other}
use hiredispool.Threads.Termination.{Run, stays, own, other, searches}

-- An execution with any number of accesses.
abbrev pub Runs : ℕ → ℕ → Shared → Shared → Type 0
Runs n a s t = (k : ℕ) × Run n a k s t

pub Runs-trans : (n a : ℕ) (s t u : Shared) → Runs n a s t → Runs n a t u → Runs n a s u
Runs-trans n a s t u (k, r) q = joined k s r
  where
    joined : (k : ℕ) (s : Shared) → Run n a k s t → Runs n a s u
    joined _ s (stays _) = q
    joined _ s (own {k} _ v _ step e f rest) =
        let (j, run) = joined k v rest in (suc j, own s v u step e f run)
    joined k s (other _ v _ step e rest) =
        let (j, run) = joined k v rest in (j, other s v u step e run)

module _ (n a cur : ℕ) (t : Shared) where
  -- Thread `a` has come to `q` by accesses to socket `cur`, which is `d` now.
  pub record Leads (q : Phase) (d : Cell) : Type 0 where
    pub to : Shared
    pub runs : Runs n a t to
    pub phase : to.phases a ≡ q
    pub cell : to.cells cur ≡ d
    pub elsewhere : (i : ℕ) → i ≢ cur → to.cells i ≡ t.cells i
    pub last : to.last_used ≡ t.last_used

  pub at_first : Leads (t.phases a) (t.cells cur)
  at_first = record {
    to = t;
    runs = (0, stays t);
    phase = refl;
    cell = refl;
    elsewhere = λ i ne. refl;
    last = refl;
  }

  one_more :
      {q : Phase} {d : Cell} (l : Leads q d) (u : Shared) (step : Step n l.to u)
      → actor step ≡ a
      → searches q ≡ true
      → Runs n a t u
  one_more l u step e f =
      Runs-trans n a t l.to u l.runs (1, own l.to u u step e (ap searches l.phase ∙ f) (stays u))

  -- An access that writes the socket.
  writes_on :
      {q : Phase} {d : Cell} (l : Leads q d) (f : Cell → Cell) (r : Phase)
      (step : Step n l.to (writes l.to a cur (f (l.to.cells cur)) r))
      → actor step ≡ a
      → searches q ≡ true
      → Leads r (f d)
  writes_on l f r step e g = record {
    to = writes l.to a cur (f (l.to.cells cur)) r;
    runs = one_more l _ step e g;
    phase = update_same l.to.phases a a r refl;
    cell = update_same l.to.cells cur cur _ refl ∙ ap f l.cell;
    elsewhere = λ i ne. update_other l.to.cells cur i _ ne ∙ l.elsewhere i ne;
    last = l.last;
  }

  -- The socket has been returned to thread `a`, and the next search starts behind it.
  pub record Ends (d : Cell) : Type 0 where
    pub to : Shared
    pub runs : Runs n a t to
    pub phase : to.phases a ≡ holding cur
    pub cell : to.cells cur ≡ d
    pub elsewhere : (i : ℕ) → i ≢ cur → to.cells i ≡ t.cells i
    pub last : to.last_used ≡ next_of n cur

  -- An access that only reads.
  goes_on :
      {q : Phase} {d : Cell} (l : Leads q d) (r : Phase) (step : Step n l.to (goes l.to a r))
      → actor step ≡ a
      → searches q ≡ true
      → Leads r d
  goes_on l r step e g = record {
    to = goes l.to a r;
    runs = one_more l _ step e g;
    phase = update_same l.to.phases a a r refl;
    cell = l.cell;
    elsewhere = l.elsewhere;
    last = l.last;
  }

  module _ (start : ℕ) (here : t.phases a ≡ trying start cur) (d : Cell)
      (seen : t.cells cur ≡ d) where
    begin : Leads (trying start cur) d
    begin = subst (λ q. Leads q d) here (subst (λ c. Leads (t.phases a) c) seen at_first)

    pub leads_busy : (b : ℕ) → d.owner ≡ some b → Leads (moved_on n start cur) d
    unfolding searches
    leads_busy b e =
        goes_on begin _ (busy begin.to a start cur b begin.phase (ap (λ c. c.owner) begin.cell ∙ e))
          refl refl

    leads_locked : d.owner ≡ none → Leads (locked start cur) (record d { owner = some a })
    unfolding searches
    leads_locked e =
        writes_on begin (λ c. record c { owner = some a }) _
          (locks begin.to a start cur begin.phase (ap (λ c. c.owner) begin.cell ∙ e)) refl refl

    leaves_on :
        {c : Cell}
        → Leads (leaving start cur) c
        → Leads (moved_on n start cur) (record c { owner = none })
    unfolding searches
    leaves_on l =
        writes_on l (λ c. record c { owner = none }) _ (leaves l.to a start cur l.phase) refl refl

    pub leads_in_use :
        d.owner ≡ none → d.inuse ≡ true → Leads (moved_on n start cur) (record d { owner = none })
    unfolding searches
    leads_in_use e f =
        let l = leads_locked e in
        leaves_on (
          goes_on l _ (finds_in_use l.to a start cur l.phase (ap (λ c. c.inuse) l.cell ∙ f)) refl
            refl)

    leads_claimed :
        d.owner ≡ none
        → d.inuse ≡ false
        → Leads (claimed start cur) (record d { owner = some a; inuse = true })
    unfolding searches
    leads_claimed e f =
        let l = leads_locked e in
        writes_on l (λ c. record c { inuse = true }) _
          (claims l.to a start cur l.phase (ap (λ c. c.inuse) l.cell ∙ f)) refl refl

    -- Whether the socket is connected in between or not.
    leads_checking :
        (x : SockState)
        → d.owner ≡ none
        → d.inuse ≡ false
        → (d.state ≡ sockconnected → x ≡ d.state)
        → Leads (checking start cur) (record { owner = some a; inuse = true; state = x })
    unfolding searches
    leads_checking x e f same =
        let l = leads_claimed e f in
        elim (SockState-cases d.state) [
          | inl down ↦
              writes_on l (λ c. record c { state = x }) _
                (connects l.to a start cur x l.phase (ap (λ c. c.state) l.cell ∙ down)) refl refl
          | inr up ↦
              subst
                (λ y.
                  Leads (checking start cur) (record { owner = some a; inuse = true; state = y }))
                (sym (same up)) (writes_on l (λ c. c) _ (passes l.to a start cur l.phase) refl refl)
        ]

    pub leads_down :
        d.owner ≡ none
        → d.inuse ≡ false
        → (d.state ≡ sockconnected → sockunconnected ≡ d.state)
        → Leads
            (moved_on n start cur)
            (record { owner = none; inuse = false; state = sockunconnected })
    unfolding searches
    leads_down e f same =
        let l = leads_checking sockunconnected e f same in
        leaves_on (
          writes_on l (λ c. record c { inuse = false }) _
            (ignores l.to a start cur l.phase (ap (λ c. c.state) l.cell)) refl refl)

    pub leads_up :
        d.owner ≡ none
        → d.inuse ≡ false
        → Ends (record { owner = some a; inuse = true; state = sockconnected })
    unfolding searches
    leads_up e f =
        let l = leads_checking sockconnected e f (λ up. sym up) in
        let step = grabs l.to a start cur l.phase (ap (λ c. c.state) l.cell) in
        record {
          to = record (writes l.to a cur (l.to.cells cur) (holding cur)) {
            last_used = next_of n cur;
          };
          runs = one_more l _ step refl refl;
          phase = update_same l.to.phases a a _ refl;
          cell = update_same l.to.cells cur cur _ refl ∙ l.cell;
          elsewhere = λ i ne. update_other l.to.cells cur i _ ne ∙ l.elsewhere i ne;
          last = refl;
        }
