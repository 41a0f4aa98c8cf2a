-- ===== src/Threads/Availability.antt =====
-- What a search does with a socket that is free: it stays within reach until the search is over.
use hiredispool.Base.{
  ℕ, suc, ◌<◌, ◌≤◌, ◌≡◌, ◌≢◌, ◌⊎◌, inl, inr, ◌∙◌, refl, sym, ap, subst, true, false, Bool-cases,
  none, some, ltb, ◌==◌, eq_cases, arith,
}
use hiredispool.Instance.{sockunconnected, sockconnected}
use hiredispool.Threads.{
  Cell, Phase, idle, trying, locked, claimed, checking, leaving, holding, releasing, Shared, goes,
  writes, next_of, start_of, moved_on, Step, actor, begins, busy, locks, finds_in_use, claims,
  connects, passes, ignores, grabs, leaves, commands, releases, unlocks, Reachable, follows,
}
use hiredispool.Threads.Ownership.{socket_of, uses, IsSound, update_same, update_other}
use hiredispool.Threads.Exclusion.{Reachable-IsSound, mine_clear}
use hiredispool.Threads.Range.{IsInside, IsInRange, inside, Reachable-IsInRange}
use hiredispool.Threads.Termination.{Run, stays, own, other, searches, left, step-same}

-- Socket `j` has not been passed by the search.
unfoldable pub IsAhead : ℕ → ℕ → Phase → Type 0
IsAhead n j (trying start cur) = left n start j ≤ left n start cur
IsAhead n j (locked start cur) = left n start j ≤ left n start cur
IsAhead n j (claimed start cur) = left n start j ≤ left n start cur
IsAhead n j (checking start cur) = left n start j ≤ left n start cur
IsAhead n j (leaving start cur) = left n start j < left n start cur
IsAhead n j (holding cur) = Unit
IsAhead n j _ = ⊥

moved_on-IsAhead :
    (n start cur j : ℕ)
    → start < n
    → cur < n
    → j < n
    → left n start j < left n start cur
    → IsAhead n j (moved_on n start cur)
unfolding moved_on next_of start_of IsAhead
moved_on-IsAhead n start cur j h k l lt = elim (Bool-cases (ltb (suc cur) n)) [
  | inl e ↦ elim (Bool-cases (suc cur == start)) [
    | inl f ↦ rw (e, f) (absurd (ground arith))
    | inr f ↦ rw (e, f) (ground arith)
  ]
  | inr e ↦ elim (Bool-cases (0 == start)) [
    | inl f ↦ rw (e, f) (absurd (ground arith))
    | inr f ↦ rw (e, f) (ground arith)
  ]
]

-- Two sockets are as far from the end of the search only if they are one.
left_apart :
    (n start cur j : ℕ)
    → start < n
    → cur < n
    → j < n
    → left n start j ≤ left n start cur
    → j ≢ cur
    → left n start j < left n start cur
left_apart n start cur j h k l le ne = ground arith

-- Socket `j` is connected, has not been passed by thread `a`, and is locked by nobody else.
record IsLeft (n j a : ℕ) (s : Shared) : Type 0 where
  ahead : IsAhead n j (s.phases a)
  up : (s.cells j).state ≡ sockconnected
  owner : ((s.cells j).owner ≡ none) ⊎ ((s.cells j).owner ≡ some a)

module _ (n j : ℕ) (s : Shared) (a : ℕ) {p : Phase} (e : s.phases a ≡ p) (w : IsLeft n j a s) where
  still : IsAhead n j p
  still = subst (IsAhead n j) e w.ahead

  -- The thread goes on, and leaves the sockets alone.
  went : (q : Phase) → IsAhead n j q → IsLeft n j a (goes s a q)
  went q h = record {
    ahead = subst (IsAhead n j) (sym (update_same s.phases a a q refl)) h;
    up = w.up;
    owner = w.owner;
  }

  -- The thread writes a socket, and goes on.
  wrote :
      (cur : ℕ) (d : Cell) (q : Phase)
      → IsAhead n j q
      → (j ≡ cur → (d.state ≡ sockconnected) × ((d.owner ≡ none) ⊎ (d.owner ≡ some a)))
      → IsLeft n j a (writes s a cur d q)
  wrote cur d q h k = elim (eq_cases j cur) [
    | inl same ↦
        let (up, owner) = k same in
        let now = update_same s.cells cur j d same in
        record {
          ahead = subst (IsAhead n j) (sym (update_same s.phases a a q refl)) h;
          up = ap (λ c. c.state) now ∙ up;
          owner = subst (λ c. (c.owner ≡ none) ⊎ (c.owner ≡ some a)) (sym now) owner;
        }
    | inr another ↦
        let now = update_other s.cells cur j d another in
        record {
          ahead = subst (IsAhead n j) (sym (update_same s.phases a a q refl)) h;
          up = ap (λ c. c.state) now ∙ w.up;
          owner = subst (λ c. (c.owner ≡ none) ⊎ (c.owner ≡ some a)) (sym now) w.owner;
        }
  ]

  -- What the thread keeps of the socket that it has locked.
  as_before :
      (cur : ℕ)
      → j ≡ cur
      → ((s.cells cur).state ≡ sockconnected)
        × (((s.cells cur).owner ≡ none) ⊎ ((s.cells cur).owner ≡ some a))
  as_before cur same =
      subst
        (λ i.
          ((s.cells i).state ≡ sockconnected)
          × (((s.cells i).owner ≡ none) ⊎ ((s.cells i).owner ≡ some a)))
        same (w.up, w.owner)

  not_down : (cur : ℕ) → (s.cells cur).state ≡ sockunconnected → j ≢ cur
  not_down cur down same = cc (sym down ∙ (as_before cur same).0)

own-IsLeft :
    (n j : ℕ) (s t : Shared) (step : Step n s t)
    → j < n
    → IsSound s
    → IsInRange n s
    → searches (s.phases (actor step)) ≡ true
    → IsLeft n j (actor step) s
    → IsLeft n j (actor step) t
unfolding searches IsAhead IsInside socket_of uses
own-IsLeft n j s t (begins _ a e h) l sound r g w = absurd (cc (sym (ap searches e) ∙ g))
own-IsLeft n j s t (busy _ a st cur b e f) l sound r g w =
    let (h, k) = inside n s a e r in
    let another : j ≢ cur = λ same. elim (as_before n j s a e w cur same).1 [
      | inl free ↦ cc (sym f ∙ free)
      | inr mine ↦ cc (sym (ap socket_of e) ∙ sound.held cur a mine)
    ] in
    went n j s a e w _
      (moved_on-IsAhead n st cur j h k l (left_apart n st cur j h k l (still n j s a e w) another))
own-IsLeft n j s t (locks _ a st cur e f) l sound r g w =
    wrote n j s a e w cur _ _ (still n j s a e w)
      (λ same. ((as_before n j s a e w cur same).0, inr refl))
own-IsLeft n j s t (finds_in_use _ a st cur e f) l sound r g w =
    absurd (cc (sym f ∙ mine_clear s sound a cur (ap socket_of e) (ap uses e)))
own-IsLeft n j s t (claims _ a st cur e f) l sound r g w =
    wrote n j s a e w cur _ _ (still n j s a e w) (as_before n j s a e w cur)
own-IsLeft n j s t (connects _ a st cur x e f) l sound r g w =
    wrote n j s a e w cur _ _ (still n j s a e w) (λ same. absurd (not_down n j s a e w cur f same))
own-IsLeft n j s t (passes _ a st cur e) l sound r g w =
    wrote n j s a e w cur _ _ (still n j s a e w) (as_before n j s a e w cur)
own-IsLeft n j s t (ignores _ a st cur e f) l sound r g w =
    let (h, k) = inside n s a e r in
    let another = not_down n j s a e w cur f in
    wrote n j s a e w cur _ _ (left_apart n st cur j h k l (still n j s a e w) another)
      (λ same. absurd (another same))
own-IsLeft n j s t (grabs _ a st cur e f) l sound r g w =
    let held = wrote n j s a e w cur (s.cells cur) (holding cur) tt (as_before n j s a e w cur) in
    record { ahead = held.ahead; up = held.up; owner = held.owner }
own-IsLeft n j s t (leaves _ a st cur e) l sound r g w =
    let (h, k) = inside n s a e r in
    let lt = still n j s a e w in
    wrote n j s a e w cur _ _ (moved_on-IsAhead n st cur j h k l lt)
      (λ same. ((as_before n j s a e w cur same).0, inl refl))
own-IsLeft n j s t (commands _ a cur x e) l sound r g w = absurd (cc (sym (ap searches e) ∙ g))
own-IsLeft n j s t (releases _ a cur e) l sound r g w = absurd (cc (sym (ap searches e) ∙ g))
own-IsLeft n j s t (unlocks _ a cur e) l sound r g w = absurd (cc (sym (ap searches e) ∙ g))

-- No other thread touches socket `j` in the execution.
unfoldable pub Spared : {n a k : ℕ} {s t : Shared} → ℕ → Run n a k s t → Type 0
Spared j (stays _) = Unit
Spared j (own _ _ _ _ _ _ run) = Spared j run
Spared j (other s t _ _ _ run) = (t.cells j ≡ s.cells j) × Spared j run

Run-IsLeft :
    (n j a k : ℕ) (s t : Shared) (run : Run n a k s t)
    → j < n
    → Reachable n s
    → Spared j run
    → IsLeft n j a s
    → IsLeft n j a t
unfolding Spared
Run-IsLeft n j a _ s _ (stays _) l r spared w = w
Run-IsLeft n j a _ s u (own _ t _ step e f run) l r spared w =
    let next =
      subst (λ b. IsLeft n j b t) e
        (own-IsLeft n j s t step l (Reachable-IsSound n s r) (Reachable-IsInRange n s r)
          (ap (λ b. searches (s.phases b)) e ∙ f) (subst (λ b. IsLeft n j b s) (sym e) w)) in
    Run-IsLeft n j a _ t u run l (follows s t r step) spared next
Run-IsLeft n j a k s u (other _ t _ step e run) l r (same, spared) w =
    Run-IsLeft n j a k t u run l (follows s t r step) spared (record {
      ahead = subst (IsAhead n j) (sym (step-same n s t a step e)) w.ahead;
      up = ap (λ c. c.state) same ∙ w.up;
      owner = subst (λ c. (c.owner ≡ none) ⊎ (c.owner ≡ some a)) (sym same) w.owner;
    })

given : (n j : ℕ) (q : Phase) → IsAhead n j q → searches q ≡ false → (i : ℕ) × (q ≡ holding i)
unfolding IsAhead searches
given n j idle h f = absurd h
given n j (trying st cur) h f = cc
given n j (locked st cur) h f = cc
given n j (claimed st cur) h f = cc
given n j (checking st cur) h f = cc
given n j (leaving st cur) h f = cc
given n j (holding cur) h f = (cur, refl)
given n j (releasing cur) h f = absurd h

-- A thread has just called redis_get_socket, and has read `last_used`. Where there is a connected socket that
-- nobody has locked, and that no other thread touches while the call lasts, the call does not return NULL:
-- once it has ended, the thread has been given a socket, that one or another, whatever the other threads do.
pub never_null :
    (n j a k start : ℕ) (s t : Shared) (run : Run n a k s t)
    → Reachable n s
    → s.phases a ≡ trying start start
    → j < n
    → (s.cells j).owner ≡ none
    → (s.cells j).state ≡ sockconnected
    → Spared j run
    → searches (t.phases a) ≡ false
    → (i : ℕ) × (t.phases a ≡ holding i)
unfolding IsAhead IsInside
never_null n j a k start s t run r e l free up spared done =
    let (h, _) = inside n s a e (Reachable-IsInRange n s r) in
    let all : left n start j ≤ left n start start = ground arith in
    let ready : IsLeft n j a s = record {
      ahead = subst (IsAhead n j) (sym e) all;
      up = up;
      owner = inl free;
    } in
    given n j (t.phases a) (Run-IsLeft n j a k s t run l r spared ready).ahead done
