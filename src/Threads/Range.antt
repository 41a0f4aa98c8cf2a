-- ===== src/Threads/Range.antt =====
-- The pointers with which threads look for a socket stay in the list of the sockets.
use hiredispool.Base.{
  ℕ, suc, ◌<◌, ◌≡◌, inl, inr, ◌∙◌, refl, sym, subst, Bool-cases, Option, none, some, ltb, ◌==◌,
  eq_cases, arith,
}
use hiredispool.Threads.Ownership.{update_same, update_other}
use hiredispool.Threads.{
  Phase, trying, locked, claimed, checking, leaving, Shared, update, next_of, start_of, moved_on,
  Step, begins, busy, locks, finds_in_use, claims, connects, passes, ignores, grabs, leaves,
  commands, releases, unlocks, untouched, Reachable, initial, follows,
}

-- The pointers of a search lead to sockets.
unfoldable pub IsInside : ℕ → Phase → Type 0
IsInside n (trying start cur) = (start < n) × (cur < n)
IsInside n (locked start cur) = (start < n) × (cur < n)
IsInside n (claimed start cur) = (start < n) × (cur < n)
IsInside n (checking start cur) = (start < n) × (cur < n)
IsInside n (leaving start cur) = (start < n) × (cur < n)
IsInside n _ = Unit

pub moved_on-IsInside : (n start cur : ℕ) → start < n → cur < n → IsInside n (moved_on n start cur)
unfolding moved_on next_of start_of IsInside
moved_on-IsInside n start cur h k = elim (Bool-cases (ltb (suc cur) n)) [
  | inl e ↦ elim (Bool-cases (suc cur == start)) [
    | inl f ↦ rw (e, f) tt
    | inr f ↦ rw (e, f) (h, ground arith)
  ]
  | inr e ↦ elim (Bool-cases (0 == start)) [
    | inl f ↦ rw (e, f) tt
    | inr f ↦ rw (e, f) (h, omega arith)
  ]
]

-- Every pointer of a search leads to a socket, and so does `last_used`.
pub record IsInRange (n : ℕ) (s : Shared) : Type 0 where
  pub searching : (a : ℕ) → IsInside n (s.phases a)
  pub last : (i : ℕ) → s.last_used ≡ some i → i < n

update-IsInside :
    (n : ℕ) (f : ℕ → Phase) (a : ℕ) (q : Phase)
    → ((b : ℕ) → IsInside n (f b))
    → IsInside n q
    → (b : ℕ) → IsInside n (update f a q b)
update-IsInside n f a q h k b = elim (eq_cases b a) [
  | inl same ↦ subst (IsInside n) (sym (update_same f a b q same)) k
  | inr another ↦ subst (IsInside n) (sym (update_other f a b q another)) (h b)
]

next_of-lt : (n cur i : ℕ) → next_of n cur ≡ some i → i < n
unfolding next_of
next_of-lt n cur i e = ground arith

start_of-lt : (n : ℕ) (o : Option ℕ) → 0 < n → ((i : ℕ) → o ≡ some i → i < n) → start_of o < n
unfolding start_of
start_of-lt n none h k = h
start_of-lt n (some i) h k = k i refl

pub inside :
    (n : ℕ) (s : Shared) (a : ℕ) {p : Phase} → s.phases a ≡ p → IsInRange n s → IsInside n p
inside n s a e r = subst (IsInside n) e (r.searching a)

-- A thread that goes on from `p` to `q`.
module _ (n : ℕ) (s : Shared) (a : ℕ) (q : Phase) {p : Phase} (e : s.phases a ≡ p)
    (r : IsInRange n s) where
  moves :
      (t : Shared)
      → t.phases ≡ update s.phases a q
      → t.last_used ≡ s.last_used
      → (IsInside n p → IsInside n q)
      → IsInRange n t
  moves t f g h = record {
    searching =
        subst (λ w. (b : ℕ) → IsInside n (w b)) (sym f)
          (update-IsInside n s.phases a q r.searching (h (inside n s a e r)));
    last = λ i k. r.last i (sym g ∙ k);
  }

pub step-IsInRange : (n : ℕ) (s t : Shared) → Step n s t → IsInRange n s → IsInRange n t
unfolding IsInside
step-IsInRange n s t (begins _ a e h) r =
    let lt = start_of-lt n s.last_used h r.last in moves n s a _ e r t refl refl (λ _. (lt, lt))
step-IsInRange n s t (busy _ a st cur b e f) r =
    moves n s a _ e r t refl refl (λ (h, k). moved_on-IsInside n st cur h k)
step-IsInRange n s t (locks _ a st cur e f) r = moves n s a _ e r t refl refl (λ h. h)
step-IsInRange n s t (finds_in_use _ a st cur e f) r = moves n s a _ e r t refl refl (λ h. h)
step-IsInRange n s t (claims _ a st cur e f) r = moves n s a _ e r t refl refl (λ h. h)
step-IsInRange n s t (connects _ a st cur x e f) r = moves n s a _ e r t refl refl (λ h. h)
step-IsInRange n s t (passes _ a st cur e) r = moves n s a _ e r t refl refl (λ h. h)
step-IsInRange n s t (ignores _ a st cur e f) r = moves n s a _ e r t refl refl (λ h. h)
step-IsInRange n s t (grabs _ a st cur e f) r = record {
  searching = update-IsInside n s.phases a _ r.searching tt;
  last = λ i g. next_of-lt n cur i g;
}
step-IsInRange n s t (leaves _ a st cur e) r =
    moves n s a _ e r t refl refl (λ (h, k). moved_on-IsInside n st cur h k)
step-IsInRange n s t (commands _ a cur x e) r = moves n s a _ e r t refl refl (λ _. tt)
step-IsInRange n s t (releases _ a cur e) r = moves n s a _ e r t refl refl (λ _. tt)
step-IsInRange n s t (unlocks _ a cur e) r = moves n s a _ e r t refl refl (λ _. tt)

pub Reachable-IsInRange : (n : ℕ) (s : Shared) → Reachable n s → IsInRange n s
unfolding untouched IsInside
Reachable-IsInRange n s (initial states) = record { searching = λ a. tt; last = λ i e. cc }
Reachable-IsInRange n t (follows s _ r step) = step-IsInRange n s t step (Reachable-IsInRange n s r)
