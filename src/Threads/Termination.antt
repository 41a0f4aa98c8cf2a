-- ===== src/Threads/Termination.antt =====
-- How long a search for a socket lasts, whatever the other threads do in the meantime.
use hiredispool.Base.{
  ℕ, suc, ◌+◌, ◌-◌, ◌*◌, ◌<◌, ◌≤◌, ◌≡◌, ◌≢◌, inl, inr, ◌∙◌, refl, sym, ap, subst, Bool, true, false,
  Bool-cases, ltb, ◌==◌, if◌then◌else◌, arith,
}
use hiredispool.Threads.Ownership.{update_same, update_other}
use hiredispool.Threads.{
  Phase, idle, trying, locked, claimed, checking, leaving, holding, releasing, Shared, update,
  next_of, start_of, moved_on, Step, actor, begins, busy, locks, finds_in_use, claims, connects,
  passes, ignores, grabs, leaves, commands, releases, unlocks, Reachable,
}
use hiredispool.Threads.Range.{IsInside, IsInRange, inside, step-IsInRange, Reachable-IsInRange}

-- The thread is in the loop of redis_get_socket.
unfoldable pub searches : Phase → Bool
searches idle = false
searches (holding cur) = false
searches (releasing cur) = false
searches _ = true

-- An execution in which thread `a`, while it searches, makes `k` accesses, and the other threads any number.
pub data Run (n a : ℕ) : ℕ → Shared → Shared → Type 0 where
  stays : (s : Shared) → Run n a 0 s s
  own :
      {k : ℕ} (s t u : Shared) (step : Step n s t)
      → actor step ≡ a
      → searches (s.phases a) ≡ true
      → Run n a k t u
      → Run n a (suc k) s u
  other :
      {k : ℕ} (s t u : Shared) (step : Step n s t) → actor step ≢ a → Run n a k t u → Run n a k s u

-- How many sockets are left, `cur` among them.
abbrev pub left : ℕ → ℕ → ℕ → ℕ
left n start cur = if ltb cur start then start - cur else n + start - cur

-- How many accesses the search can still make.
unfoldable pub budget : ℕ → Phase → ℕ
budget n (trying start cur) = 5 * left n start cur
budget n (locked start cur) = 5 * left n start cur - 1
budget n (claimed start cur) = 5 * left n start cur - 2
budget n (checking start cur) = 5 * left n start cur - 3
budget n (leaving start cur) = 5 * left n start cur - 4
budget n _ = 0

budget-moved_on :
    (n start cur : ℕ)
    → start < n
    → cur < n
    → budget n (moved_on n start cur) + 5 ≤ 5 * left n start cur
unfolding moved_on next_of start_of budget
budget-moved_on n start cur h k = elim (Bool-cases (ltb (suc cur) n)) [
  | inl e ↦ elim (Bool-cases (suc cur == start)) [
    | inl f ↦ rw (e, f) ground arith
    | inr f ↦ rw (e, f) ground arith
  ]
  | inr e ↦ elim (Bool-cases (0 == start)) [
    | inl f ↦ rw (e, f) ground arith
    | inr f ↦ rw (e, f) ground arith
  ]
]

-- A thread that goes on from `p` to `q`.
module _ (n : ℕ) (s : Shared) (a : ℕ) (q : Phase) {p : Phase} (e : s.phases a ≡ p)
    (r : IsInRange n s) where
  spends :
      (IsInside n p → budget n q + 1 ≤ budget n p)
      → budget n (update s.phases a q a) + 1 ≤ budget n (s.phases a)
  spends h =
      subst (λ x. budget n x + 1 ≤ budget n (s.phases a)) (sym (update_same s.phases a a q refl))
        (subst (λ x. budget n q + 1 ≤ budget n x) (sym e) (h (inside n s a e r)))

-- The `d`-th of the five accesses of a round.
in_round :
    (n start cur d : ℕ)
    → d < 5
    → (start < n) × (cur < n)
    → (5 * left n start cur - suc d) + 1 ≤ 5 * left n start cur - d
in_round n start cur d h (k, m) = ground arith

last_of_round :
    (n start cur : ℕ)
    → (start < n) × (cur < n)
    → budget n (moved_on n start cur) + 1 ≤ 5 * left n start cur - 4
last_of_round n start cur (h, k) = let le = budget-moved_on n start cur h k in omega arith

step-spends :
    (n : ℕ) (s t : Shared) (step : Step n s t)
    → IsInRange n s
    → searches (s.phases (actor step)) ≡ true
    → budget n (t.phases (actor step)) + 1 ≤ budget n (s.phases (actor step))
unfolding searches IsInside budget
step-spends n s t (begins _ a e h) r g = absurd (cc (sym (ap searches e) ∙ g))
step-spends n s t (busy _ a st cur b e f) r g =
    spends n s a _ e r (λ h. let le = last_of_round n st cur h in omega arith)
step-spends n s t (locks _ a st cur e f) r g =
    spends n s a _ e r (λ h. let le = in_round n st cur 0 (omega arith) h in omega arith)
step-spends n s t (finds_in_use _ a st cur e f) r g =
    spends n s a _ e r (λ h. let le = in_round n st cur 3 (omega arith) h in omega arith)
step-spends n s t (claims _ a st cur e f) r g =
    spends n s a _ e r (in_round n st cur 1 (omega arith))
step-spends n s t (connects _ a st cur x e f) r g =
    spends n s a _ e r (in_round n st cur 2 (omega arith))
step-spends n s t (passes _ a st cur e) r g = spends n s a _ e r (in_round n st cur 2 (omega arith))
step-spends n s t (ignores _ a st cur e f) r g =
    spends n s a _ e r (in_round n st cur 3 (omega arith))
step-spends n s t (grabs _ a st cur e f) r g =
    spends n s a _ e r (λ h. let le = in_round n st cur 3 (omega arith) h in omega arith)
step-spends n s t (leaves _ a st cur e) r g = spends n s a _ e r (last_of_round n st cur)
step-spends n s t (commands _ a cur x e) r g = absurd (cc (sym (ap searches e) ∙ g))
step-spends n s t (releases _ a cur e) r g = absurd (cc (sym (ap searches e) ∙ g))
step-spends n s t (unlocks _ a cur e) r g = absurd (cc (sym (ap searches e) ∙ g))

-- The access of another thread.
pub step-same :
    (n : ℕ) (s t : Shared) (a : ℕ) (step : Step n s t) → actor step ≢ a → t.phases a ≡ s.phases a
step-same n s t a (begins _ b e h) f = update_other s.phases b a _ (λ g. f (sym g))
step-same n s t a (busy _ b st cur o e g) f = update_other s.phases b a _ (λ g. f (sym g))
step-same n s t a (locks _ b st cur e g) f = update_other s.phases b a _ (λ g. f (sym g))
step-same n s t a (finds_in_use _ b st cur e g) f = update_other s.phases b a _ (λ g. f (sym g))
step-same n s t a (claims _ b st cur e g) f = update_other s.phases b a _ (λ g. f (sym g))
step-same n s t a (connects _ b st cur x e g) f = update_other s.phases b a _ (λ g. f (sym g))
step-same n s t a (passes _ b st cur e) f = update_other s.phases b a _ (λ g. f (sym g))
step-same n s t a (ignores _ b st cur e g) f = update_other s.phases b a _ (λ g. f (sym g))
step-same n s t a (grabs _ b st cur e g) f = update_other s.phases b a _ (λ g. f (sym g))
step-same n s t a (leaves _ b st cur e) f = update_other s.phases b a _ (λ g. f (sym g))
step-same n s t a (commands _ b cur x e) f = update_other s.phases b a _ (λ g. f (sym g))
step-same n s t a (releases _ b cur e) f = update_other s.phases b a _ (λ g. f (sym g))
step-same n s t a (unlocks _ b cur e) f = update_other s.phases b a _ (λ g. f (sym g))

pub own-budget :
    (n a : ℕ) (s t : Shared) (step : Step n s t)
    → IsInRange n s
    → actor step ≡ a
    → searches (s.phases a) ≡ true
    → budget n (t.phases a) + 1 ≤ budget n (s.phases a)
own-budget n a s t step r e f =
    subst (λ b. budget n (t.phases b) + 1 ≤ budget n (s.phases b)) e
      (step-spends n s t step r (ap (λ b. searches (s.phases b)) e ∙ f))

pub budget-le : (n : ℕ) (p : Phase) → IsInside n p → budget n p ≤ 5 * n
unfolding budget IsInside
budget-le n idle h = omega arith
budget-le n (trying st cur) (h, k) = ground arith
budget-le n (locked st cur) (h, k) = ground arith
budget-le n (claimed st cur) (h, k) = ground arith
budget-le n (checking st cur) (h, k) = ground arith
budget-le n (leaving st cur) (h, k) = ground arith
budget-le n (holding cur) h = omega arith
budget-le n (releasing cur) h = omega arith

pub Run-budget :
    (n a k : ℕ) (s t : Shared)
    → IsInRange n s
    → Run n a k s t
    → k + budget n (t.phases a) ≤ budget n (s.phases a)
Run-budget n a _ s _ r (stays _) = omega arith
Run-budget n a _ s u r (own {k} _ t _ step e f run) =
    let rest = Run-budget n a k t u (step-IsInRange n s t step r) run in
    let less = own-budget n a s t step r e f in omega arith
Run-budget n a k s u r (other _ t _ step e run) =
    let rest = Run-budget n a k t u (step-IsInRange n s t step r) run in
    subst (λ p. k + budget n (u.phases a) ≤ budget n p) (step-same n s t a step e) rest

-- In an execution that begins where a thread has just called redis_get_socket, and has read `last_used`: as
-- long as it is in the call, it makes at most five accesses for each of the `n` sockets, however many
-- accesses the other threads make, and in whatever order. So the loop ends whatever the others do.
pub search_bounded :
    (n a k start : ℕ) (s t : Shared)
    → Reachable n s
    → s.phases a ≡ trying start start
    → Run n a k s t
    → k ≤ 5 * n
unfolding budget
search_bounded n a k start s t r e run =
    let le = Run-budget n a k s t (Reachable-IsInRange n s r) run in
    let full : budget n (s.phases a) ≡ 5 * n = ap (budget n) e ∙ ground arith in omega arith
