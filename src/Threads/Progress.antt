-- ===== src/Threads/Progress.antt =====
-- Nothing in a search makes a thread wait.
use hiredispool.Base.{
  ℕ, zero, suc, ◌*◌, ◌≤◌, ◌≡◌, inl, inr, refl, true, false, Bool-cases, Option-cases, arith,
}
use hiredispool.Instance.{SockState-cases}
use hiredispool.Threads.{
  Phase, idle, trying, locked, claimed, checking, leaving, holding, releasing, Shared, Step, actor,
  busy, locks, finds_in_use, claims, passes, ignores, grabs, leaves, Reachable,
}
use hiredispool.Threads.Range.{IsInRange, step-IsInRange, Reachable-IsInRange}
use hiredispool.Threads.Termination.{
  Run, stays, own, searches, budget, own-budget, budget-le, Run-budget,
}

-- An execution in which thread `a`, in its search, makes `k` accesses, and no other thread makes one.
pub data Alone (n a : ℕ) : ℕ → Shared → Shared → Type 0 where
  done : (s : Shared) → Alone n a 0 s s
  goes_on :
      {k : ℕ} (s t u : Shared) (step : Step n s t)
      → actor step ≡ a
      → searches (s.phases a) ≡ true
      → Alone n a k t u
      → Alone n a (suc k) s u

Alone-Run : (n a k : ℕ) (s t : Shared) → Alone n a k s t → Run n a k s t
Alone-Run n a _ s _ (done _) = stays s
Alone-Run n a _ s u (goes_on {k} _ t _ step e f rest) =
    own s t u step e f (Alone-Run n a k t u rest)

-- A thread that is in the search, behind any access, has one more to make.
has_access :
    (n : ℕ) (s : Shared) (a : ℕ) (p : Phase)
    → s.phases a ≡ p
    → searches p ≡ true
    → (t : Shared) × (step : Step n s t) × (actor step ≡ a)
unfolding searches
has_access n s a idle e h = cc
has_access n s a (trying st cur) e h = elim (Option-cases (s.cells cur).owner) [
  | inl f ↦ (_, locks s a st cur e f, refl)
  | inr (b, f) ↦ (_, busy s a st cur b e f, refl)
]
has_access n s a (locked st cur) e h = elim (Bool-cases (s.cells cur).inuse) [
  | inl f ↦ (_, finds_in_use s a st cur e f, refl)
  | inr f ↦ (_, claims s a st cur e f, refl)
]
has_access n s a (claimed st cur) e h = (_, passes s a st cur e, refl)
has_access n s a (checking st cur) e h = elim (SockState-cases (s.cells cur).state) [
  | inl f ↦ (_, ignores s a st cur e f, refl)
  | inr f ↦ (_, grabs s a st cur e f, refl)
]
has_access n s a (leaving st cur) e h = (_, leaves s a st cur e, refl)
has_access n s a (holding cur) e h = cc
has_access n s a (releasing cur) e h = cc

-- What is left of a search, if only the thread itself goes on.
finishes :
    (m n a : ℕ) (s : Shared)
    → IsInRange n s
    → budget n (s.phases a) ≤ m
    → (k : ℕ) × (t : Shared) × Alone n a k s t × (searches (t.phases a) ≡ false)
finishes zero n a s r h = elim (Bool-cases (searches (s.phases a))) [
  | inr f ↦ (0, s, done s, f)
  | inl f ↦
      let (t, step, e) = has_access n s a (s.phases a) refl f in
      let less = own-budget n a s t step r e f in absurd (omega arith)
]
finishes (suc m) n a s r h = elim (Bool-cases (searches (s.phases a))) [
  | inr f ↦ (0, s, done s, f)
  | inl f ↦
      let (t, step, e) = has_access n s a (s.phases a) refl f in
      let less = own-budget n a s t step r e f in
      let (k, u, run, g) = finishes m n a t (step-IsInRange n s t step r) (omega arith) in
      (suc k, u, goes_on s t u step e f run, g)
]

-- From every state that the threads can bring about, wherever a thread is in its search for a socket: by its
-- own accesses alone, while no other thread makes one, the thread reaches the end of redis_get_socket, in at
-- most five accesses for each of the `n` sockets. So whatever the other threads have done, or have locked,
-- the thread need not wait for them.
pub search_completes :
    (n a : ℕ) (s : Shared)
    → Reachable n s
    → (k : ℕ) × (t : Shared) × Alone n a k s t × (searches (t.phases a) ≡ false) × (k ≤ 5 * n)
search_completes n a s r =
    let inside = Reachable-IsInRange n s r in
    let (k, t, run, f) = finishes (budget n (s.phases a)) n a s inside (omega arith) in
    let spent = Run-budget n a k s t inside (Alone-Run n a k s t run) in
    let most = budget-le n (s.phases a) (inside.searching a) in (k, t, run, f, omega arith)
