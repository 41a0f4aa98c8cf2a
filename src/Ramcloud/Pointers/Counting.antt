-- ===== src/Ramcloud/Pointers/Counting.antt =====
-- The counters of RedisClientPtr, the pointers in scope and the clients that have been deleted,
-- against each other.
use hiredispool.Base.{
  ℕ, zero, suc, ◌+◌, ◌<◌, ◌≡◌, inl, inr, refl, ap, Option, none, some, Option-cases, List, [], ◌∷◌,
  get_or, set, length, ◌==◌, ltb, if◌then◌else◌, arith,
}
use hiredispool.Platform.Laws.{at_address}
use hiredispool.Client.Replies.Ownership.{owners, times_freed, owners-set, owners-taken}
use hiredispool.Ramcloud.Pointers.{
  Pointers, nothing_made, counter, add_ref, drop_ref, construct, destroy, copy, assign, Move,
  constructing, destroying, copying, assigning, perform, perform_all,
}

-- Each counter holds the number of the pointers to its client, and each client that has been made has been
-- deleted once if there is none, and not otherwise; no other has been deleted.
pub record IsCounted (s : Pointers) : Type 0 where
  pub counted : (c : ℕ) → s.counts c ≡ owners s.pointers c
  pub once :
      (c : ℕ)
      → times_freed s.deleted c + (if s.counts c == 0 then 0 else 1)
        ≡ (if ltb c s.made then 1 else 0)

pub lt-counter : (qs : List (Option ℕ)) (i : ℕ) {c : ℕ} → get_or qs i none ≡ some c → i < length qs
lt-counter [] i e = cc
lt-counter (q ∷ qs) zero e = omega arith
lt-counter (q ∷ qs) (suc i) e = omega (arith, lt-counter qs i e)

pub construct-IsCounted : (s : Pointers) → IsCounted s → IsCounted (construct s)
unfolding construct owners
construct-IsCounted s h = record {
  counted = λ c. ground (arith, h.counted c, h.once c, h.once s.made, h.counted s.made);
  once = λ c. ground (arith, h.counted c, h.once c, h.once s.made);
}

-- The pointer that refers to a client is one of those that are counted.
pub owners-counter : (s : Pointers) (i : ℕ) {c : ℕ} → counter s i ≡ some c → 0 < owners s.pointers c
owners-counter s i {c = c} e =
    ground (arith, owners-taken s.pointers i c, ap (λ q. at_address q c) e)

add_ref-IsCounted :
    (s : Pointers) (b : ℕ)
    → IsCounted s
    → 0 < owners s.pointers b
    → IsCounted (add_ref b (record s { pointers = some b ∷ s.pointers }))
unfolding add_ref owners
add_ref-IsCounted s b h some_owner = record {
  counted = λ c. ground (arith, h.counted c, h.counted b);
  once = λ c. ground (arith, h.once c, h.once b, h.counted b);
}

-- One more is counted of client `a` than there are pointers to it.
pub record IsCountedBut (a : ℕ) (s : Pointers) : Type 0 where
  pub counted : (c : ℕ) → s.counts c ≡ owners s.pointers c + at_address (some a) c
  pub once :
      (c : ℕ)
      → times_freed s.deleted c + (if s.counts c == 0 then 0 else 1)
        ≡ (if ltb c s.made then 1 else 0)

pub drop_ref-IsCounted : (s : Pointers) (a : ℕ) → IsCountedBut a s → IsCounted (drop_ref a s)
unfolding drop_ref times_freed
drop_ref-IsCounted s a h = record {
  counted = λ c. ground (arith, h.counted c, h.counted a);
  once = λ c. ground (arith, h.once c, h.once a, h.counted c, h.counted a);
}

copy_at :
    (s : Pointers) (j : ℕ) {c : ℕ}
    → counter s j ≡ some c
    → copy j s ≡ add_ref c (record s { pointers = some c ∷ s.pointers })
unfolding copy
copy_at s j e = ground arith

copy_missing : (s : Pointers) (j : ℕ) → counter s j ≡ none → copy j s ≡ s
unfolding copy
copy_missing s j e = ground arith

pub destroy_at :
    (s : Pointers) (i : ℕ) {c : ℕ}
    → counter s i ≡ some c
    → destroy i s ≡ drop_ref c (record s { pointers = set s.pointers i none })
unfolding destroy
destroy_at s i e = ground arith

pub destroy_missing : (s : Pointers) (i : ℕ) → counter s i ≡ none → destroy i s ≡ s
unfolding destroy
destroy_missing s i e = ground arith

pub assign_at :
    (s : Pointers) (i j : ℕ) {a b : ℕ}
    → counter s i ≡ some a
    → counter s j ≡ some b
    → assign i j s ≡ drop_ref a (record (add_ref b s) { pointers = set s.pointers i (some b) })
unfolding assign
assign_at s i j e f = ground arith

pub assign_to_none : (s : Pointers) (i j : ℕ) → counter s i ≡ none → assign i j s ≡ s
unfolding assign
assign_to_none s i j e = ground arith

pub assign_from_none :
    (s : Pointers) (i j : ℕ) {a : ℕ} → counter s i ≡ some a → counter s j ≡ none → assign i j s ≡ s
unfolding assign
assign_from_none s i j e f = ground arith

destroyed-IsCountedBut :
    (s : Pointers) (i a : ℕ)
    → IsCounted s
    → counter s i ≡ some a
    → IsCountedBut a (record s { pointers = set s.pointers i none })
destroyed-IsCountedBut s i a h e = record {
  counted =
      λ c. omega (arith, h.counted c, owners-taken s.pointers i c, ap (λ q. at_address q c) e);
  once = h.once;
}

assigned-IsCountedBut :
    (s : Pointers) (i j a b : ℕ)
    → IsCounted s
    → counter s i ≡ some a
    → counter s j ≡ some b
    → IsCountedBut a (record (add_ref b s) { pointers = set s.pointers i (some b) })
unfolding add_ref
assigned-IsCountedBut s i j a b h e f = record {
  counted = λ c. ground (
    arith,
    h.counted c,
    h.counted b,
    owners-set s.pointers i (some b) c (lt-counter s.pointers i e),
    ap (λ q. at_address q c) e,
  );
  once = λ c. ground (arith, h.once c, h.once b, h.counted b, owners-counter s j f);
}

pub perform-IsCounted : (m : Move) (s : Pointers) → IsCounted s → IsCounted (perform m s)
unfolding perform
perform-IsCounted constructing s h = construct-IsCounted s h
perform-IsCounted (destroying i) s h = elim (Option-cases (counter s i)) [
  | inl e ↦ rw (destroy_missing s i e) h
  | inr (a, e) ↦ rw (destroy_at s i e) (drop_ref-IsCounted _ a (destroyed-IsCountedBut s i a h e))
]
perform-IsCounted (copying j) s h = elim (Option-cases (counter s j)) [
  | inl e ↦ rw (copy_missing s j e) h
  | inr (b, e) ↦ rw (copy_at s j e) (add_ref-IsCounted s b h (owners-counter s j e))
]
perform-IsCounted (assigning i j) s h = elim (Option-cases (counter s i)) [
  | inl e ↦ rw (assign_to_none s i j e) h
  | inr (a, e) ↦ elim (Option-cases (counter s j)) [
    | inl f ↦ rw (assign_from_none s i j e f) h
    | inr (b, f) ↦
        rw (assign_at s i j e f) (drop_ref-IsCounted _ a (assigned-IsCountedBut s i j a b h e f))
  ]
]

run-IsCounted : (ms : List Move) (s : Pointers) → IsCounted s → IsCounted (perform_all ms s)
unfolding perform_all
run-IsCounted [] s h = h
run-IsCounted (m ∷ ms) s h = run-IsCounted ms (perform m s) (perform-IsCounted m s h)

pub nothing-IsCounted : IsCounted nothing_made
unfolding nothing_made owners times_freed
nothing-IsCounted = record { counted = λ c. refl; once = λ c. ground arith }

-- After any constructions, copies, assignments and destructions of pointers: each counter holds the number
-- of the pointers in scope that refer to its client; a client that has been made has been deleted exactly
-- once if there is no such pointer, and not at all otherwise; no other client has been deleted.
pub perform_all-IsCounted : (ms : List Move) → IsCounted (perform_all ms nothing_made)
perform_all-IsCounted ms = run-IsCounted ms nothing_made nothing-IsCounted
