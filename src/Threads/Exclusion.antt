-- ===== src/Threads/Exclusion.antt =====
-- Accesses of many threads in any order: who has a socket locked, and who uses it.
use hiredispool.Base.{
  Option-cases, ℕ, ◌≡◌, ◌≢◌, inl, inr, ◌∙◌, refl, sym, ap, false, Bool-cases, none, some, ◌==◌,
  arith,
}
use hiredispool.Threads.{
  Cell, Phase, holding, Shared, writes, next_of, start_of, moved_on, Step, begins, busy, locks,
  finds_in_use, claims, connects, passes, ignores, grabs, leaves, commands, releases, unlocks,
  untouched, Reachable, initial, follows,
}
use hiredispool.Threads.Ownership.{socket_of, uses, IsSound, goes-IsSound, writes-IsSound}

moved_on-none :
    (n start cur : ℕ)
    → (socket_of (moved_on n start cur) ≡ none) × (uses (moved_on n start cur) ≡ false)
unfolding moved_on socket_of uses
moved_on-none n start cur = elim (Bool-cases (start_of (next_of n cur) == start)) [
  | inl e ↦ rw e (refl, refl)
  | inr e ↦ rw e (refl, refl)
]

module _ (s : Shared) (h : IsSound s) where
  -- `inuse` is clear where nobody has locked the socket, and where the thread that has does not use it.
  free_clear : (i : ℕ) → (s.cells i).owner ≡ none → (s.cells i).inuse ≡ false
  free_clear i e = elim (Bool-cases (s.cells i).inuse) [
    | inr clear ↦ clear
    | inl set ↦ let (b, k, _) = h.unused i set in absurd (cc (sym e ∙ h.owned b i k))
  ]

  pub mine_clear :
      (a i : ℕ)
      → socket_of (s.phases a) ≡ some i
      → uses (s.phases a) ≡ false
      → (s.cells i).inuse ≡ false
  mine_clear a i e f = elim (Bool-cases (s.cells i).inuse) [
    | inr clear ↦ clear
    | inl set ↦
        let (b, k, u) = h.unused i set in
        let same : a ≡ b = ground (arith, sym (h.owned a i e) ∙ h.owned b i k) in
        absurd (cc (sym f ∙ ap (λ c. uses (s.phases c)) same ∙ u))
  ]

  -- The thread keeps its lock.
  keeps :
      (a i : ℕ) (d : Cell) (q : Phase)
      → socket_of (s.phases a) ≡ some i
      → socket_of q ≡ some i
      → d.owner ≡ (s.cells i).owner
      → d.inuse ≡ uses q
      → IsSound (writes s a i d q)
  keeps a i d q e f same u = writes-IsSound s a i d q h (record {
    nobody_else = inr (h.owned a i e);
    before = inr e;
    after = inr (f, same ∙ h.owned a i e);
    in_use = u;
  })

  -- The thread unlocks the socket.
  frees :
      (a i : ℕ) (d : Cell) (q : Phase)
      → socket_of (s.phases a) ≡ some i
      → socket_of q ≡ none
      → d.owner ≡ none
      → d.inuse ≡ uses q
      → IsSound (writes s a i d q)
  frees a i d q e f o u =
      writes-IsSound s a i d q h (record {
        nobody_else = inr (h.owned a i e);
        before = inr e;
        after = inl (f, o);
        in_use = u;
      })

step-IsSound : (n : ℕ) (s t : Shared) → Step n s t → IsSound s → IsSound t
unfolding socket_of uses
step-IsSound n s t (begins _ a e _) h = goes-IsSound s a _ h (ap socket_of e) refl
step-IsSound n s t (busy _ a st cur b e _) h =
    goes-IsSound s a _ h (ap socket_of e) (moved_on-none n st cur).0
step-IsSound n s t (locks _ a st cur e f) h = writes-IsSound s a cur _ _ h (record {
  nobody_else = inl f;
  before = inl (ap socket_of e);
  after = inr (refl, refl);
  in_use = free_clear s h cur f;
})
step-IsSound n s t (finds_in_use _ a st cur e f) h =
    absurd (cc (sym f ∙ mine_clear s h a cur (ap socket_of e) (ap uses e)))
step-IsSound n s t (claims _ a st cur e f) h = keeps s h a cur _ _ (ap socket_of e) refl refl refl
step-IsSound n s t (connects _ a st cur x e f) h =
    keeps s h a cur _ _ (ap socket_of e) refl refl (h.used a cur (ap socket_of e) (ap uses e))
step-IsSound n s t (passes _ a st cur e) h =
    keeps s h a cur _ _ (ap socket_of e) refl refl (h.used a cur (ap socket_of e) (ap uses e))
step-IsSound n s t (ignores _ a st cur e f) h = keeps s h a cur _ _ (ap socket_of e) refl refl refl
step-IsSound n s t (grabs _ a st cur e f) h =
    let g =
      keeps s h a cur (s.cells cur) (holding cur) (ap socket_of e) refl refl
        (h.used a cur (ap socket_of e) (ap uses e)) in
    record { owned = g.owned; used = g.used; unused = g.unused; held = g.held }
step-IsSound n s t (leaves _ a st cur e) h =
    frees s h a cur _ _ (ap socket_of e) (moved_on-none n st cur).0 refl
      (mine_clear s h a cur (ap socket_of e) (ap uses e) ∙ sym (moved_on-none n st cur).1)
step-IsSound n s t (commands _ a cur x e) h =
    keeps s h a cur _ _ (ap socket_of e) refl refl (h.used a cur (ap socket_of e) (ap uses e))
step-IsSound n s t (releases _ a cur e) h = keeps s h a cur _ _ (ap socket_of e) refl refl refl
step-IsSound n s t (unlocks _ a cur e) h =
    frees s h a cur _ _ (ap socket_of e) refl refl
      (mine_clear s h a cur (ap socket_of e) (ap uses e))

pub Reachable-IsSound : (n : ℕ) (s : Shared) → Reachable n s → IsSound s
unfolding untouched socket_of
Reachable-IsSound n s (initial states) = record {
  owned = λ a i e. cc;
  used = λ a i e u. cc;
  unused = λ i e. cc;
  held = λ i a e. cc;
}
Reachable-IsSound n t (follows s _ r step) = step-IsSound n s t step (Reachable-IsSound n s r)

-- However the accesses of the threads interleave: while a thread has a socket locked, from the trylock of
-- redis_get_socket to the unlock of redis_release_socket, no other thread has it locked.
pub never_shared :
    (n : ℕ) (s : Shared) (a b i : ℕ)
    → Reachable n s
    → a ≢ b
    → socket_of (s.phases a) ≡ some i
    → socket_of (s.phases b) ≢ some i
never_shared n s a b i r other e f =
    let h = Reachable-IsSound n s r in other (ground (arith, sym (h.owned a i e) ∙ h.owned b i f))

-- However the accesses of the threads interleave, and wherever a thread is between the trylock of a socket
-- in redis_get_socket and its unlock: the mutex is locked by that thread, and `inuse` is set exactly from
-- where the thread has set it to where it clears it. So a thread that has just got the mutex finds `inuse`
-- clear, and the branch for a socket in use is never taken; and a thread that has been given a socket finds
-- `inuse` set as long as it does not release it.
pub lock_decides :
    (n : ℕ) (s : Shared) (a i : ℕ)
    → Reachable n s
    → socket_of (s.phases a) ≡ some i
    → ((s.cells i).owner ≡ some a) × ((s.cells i).inuse ≡ uses (s.phases a))
lock_decides n s a i r e =
    let h = Reachable-IsSound n s r in
    (
      h.owned a i e,
      elim (Bool-cases (uses (s.phases a))) [
        | inl u ↦ h.used a i e u ∙ sym u
        | inr u ↦ mine_clear s h a i e u ∙ sym u
      ],
    )

-- However the accesses of the threads interleave: a socket that no thread has locked, between the trylock of
-- redis_get_socket and the unlock of redis_release_socket, is free. Its mutex is not locked, and its `inuse`
-- is clear, so no search that has ended has left a socket behind that no other search can get.
pub nothing_left_behind :
    (n : ℕ) (s : Shared) (i : ℕ)
    → Reachable n s
    → ((a : ℕ) → socket_of (s.phases a) ≢ some i)
    → ((s.cells i).owner ≡ none) × ((s.cells i).inuse ≡ false)
nothing_left_behind n s i r nobody =
    let h = Reachable-IsSound n s r in
    (
      elim (Option-cases (s.cells i).owner) [
        | inl free ↦ free
        | inr (a, e) ↦ absurd (nobody a (h.held i a e))
      ],
      elim (Bool-cases (s.cells i).inuse) [
        | inr clear ↦ clear
        | inl set ↦ let (a, e, _) = h.unused i set in absurd (nobody a e)
      ],
    )
