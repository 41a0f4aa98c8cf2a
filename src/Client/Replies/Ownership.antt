-- ===== src/Client/Replies/Ownership.antt =====
-- Who owns a reply, and how often it is freed.
use hiredispool.Base.{
  ℕ, zero, suc, ◌+◌, ◌<◌, ◌≤◌, ◌≡◌, ◌⊎◌, inl, inr, ◌∙◌, refl, Option, none, some, List, [], ◌∷◌,
  ◌==◌, if◌then◌else◌, Bool, true, false, get_or, set, length, length-set, arith,
}
use hiredispool.Platform.Laws.{at_address}
use hiredispool.Client.Replies.{
  Replies, member, free_reply_object, construct, release, destroy, copy, assign, same_reply,
  assign_ref, Move, copying, destroying, assigning, assigning_ref, perform, perform_all,
}

-- How many of the pointers own the reply at address `a`.
unfoldable pub owners : List (Option ℕ) → ℕ → ℕ
owners [] a = 0
owners (q ∷ qs) a = at_address q a + owners qs a

-- How often the reply at address `a` has been freed.
unfoldable pub times_freed : List ℕ → ℕ → ℕ
times_freed [] a = 0
times_freed (b ∷ bs) a = at_address (some b) a + times_freed bs a

-- A reply is counted once for each pointer that owns it and each time that it has been freed.
abbrev pub claims : Replies → ℕ → ℕ
claims s a = owners s.pointers a + times_freed s.freed a

pub owners-set :
    (qs : List (Option ℕ)) (i : ℕ) (q : Option ℕ) (a : ℕ)
    → i < length qs
    → owners (set qs i q) a + at_address (get_or qs i none) a ≡ owners qs a + at_address q a
unfolding owners
owners-set [] i q a h = elim h [ ]
owners-set (z ∷ qs) zero q a h = omega arith
owners-set (z ∷ qs) (suc i) q a h = omega (arith, owners-set qs i q a (omega arith))

-- Taking what a pointer owns; from a pointer that is not there, nothing.
pub owners-taken :
    (qs : List (Option ℕ)) (i : ℕ) (a : ℕ)
    → owners (set qs i none) a + at_address (get_or qs i none) a ≡ owners qs a
unfolding owners
owners-taken [] i a = omega arith
owners-taken (z ∷ qs) zero a = omega arith
owners-taken (z ∷ qs) (suc i) a = omega (arith, owners-taken qs i a)

freed_lem :
    (q : Option ℕ) (fs : List ℕ) (a : ℕ)
    → times_freed (free_reply_object q fs) a ≡ at_address q a + times_freed fs a
unfolding free_reply_object times_freed
freed_lem none fs a = omega arith
freed_lem (some b) fs a = omega arith

get_or-taken : (qs : List (Option ℕ)) (i : ℕ) → get_or (set qs i none) i none ≡ none
get_or-taken [] i = refl
get_or-taken (q ∷ qs) zero = refl
get_or-taken (q ∷ qs) (suc i) = get_or-taken qs i

get_or-null :
    (qs : List (Option ℕ)) (i j : ℕ)
    → get_or qs i none ≡ none
    → get_or (set qs j none) i none ≡ none
get_or-null [] i j e = refl
get_or-null (q ∷ qs) zero zero e = refl
get_or-null (q ∷ qs) zero (suc j) e = e
get_or-null (q ∷ qs) (suc i) zero e = e
get_or-null (q ∷ qs) (suc i) (suc j) e = get_or-null qs i j e

at_address-none : (q : Option ℕ) (a : ℕ) → q ≡ none → at_address q a ≡ 0
at_address-none none a e = refl
at_address-none (some b) a e = cc

-- Two pointers that are not NULL and the same own the same reply, and two others are both NULL.
same_reply-true :
    (q r : Option ℕ)
    → same_reply q r ≡ true
    → (r ≡ none) ⊎ ((a : ℕ) × (at_address q a ≡ 1) × (at_address r a ≡ 1))
unfolding same_reply
same_reply-true none none e = inl refl
same_reply-true none (some b) e = cc
same_reply-true (some a) none e = cc
same_reply-true (some a) (some b) e = inr (a, ground arith, ground arith)

if_claims :
    (c : Bool) (t u : Replies) (a n : ℕ)
    → (c ≡ true → claims t a ≡ n)
    → (c ≡ false → claims u a ≡ n)
    → claims (if c then t else u) a ≡ n
if_claims true t u a n f g = f refl
if_claims false t u a n f g = g refl

module _ (qs : List (Option ℕ)) (i j a : ℕ) (h : i < length qs) where
  -- Pointer `i` takes what pointer `j` owns, after both have been emptied, `i` first.
  emptied_first :
      let mid = set qs i none in
      let empty = set mid j none in
      owners (set empty i (get_or mid j none)) a + at_address (get_or qs i none) a ≡ owners qs a
  emptied_first =
      let mid = set qs i none in
      let empty = set mid j none in
      omega (
        arith,
        owners-set empty i (get_or mid j none) a
            (omega (arith, length-set mid j none, length-set qs i none)),
        owners-taken mid j a,
        owners-taken qs i a,
        at_address-none _ a (get_or-null mid i j (get_or-taken qs i)),
      )

  -- The same, with `j` first.
  emptied_last :
      let mid = set qs j none in
      let empty = set mid i none in
      owners (set empty i (get_or qs j none)) a + at_address (get_or mid i none) a ≡ owners qs a
  emptied_last =
      let mid = set qs j none in
      let empty = set mid i none in
      omega (
        arith,
        owners-set empty i (get_or qs j none) a
            (omega (arith, length-set mid i none, length-set qs j none)),
        owners-taken mid i a,
        owners-taken qs j a,
        at_address-none _ a (get_or-taken mid i),
      )

  -- A reply with at most one owner cannot be owned by pointer `i` after pointer `j` has given it up.
  same_null :
      ((b : ℕ) → owners qs b ≤ 1)
      → same_reply (get_or (set qs j none) i none) (get_or qs j none) ≡ true
      → at_address (get_or qs j none) a ≡ 0
  same_null x e = elim (same_reply-true _ _ e) [
    | inl n ↦ at_address-none _ a n
    | inr (b, k, l) ↦
        absurd (omega (arith, x b, owners-taken qs j b, owners-taken (set qs j none) i b))
  ]

module _ (s : Replies) where
  -- No reply has two owners, or an owner after it has been freed, or is freed twice.
  abbrev pub Exclusive : Type 0
  Exclusive = (a : ℕ) → claims s a ≤ 1

  claims-copy : (i a : ℕ) → claims (copy i s) a ≡ claims s a
  unfolding copy release construct member owners
  claims-copy i a = omega (arith, owners-taken s.pointers i a)

  claims-destroy : (i a : ℕ) → claims (destroy i s) a ≡ claims s a
  unfolding destroy member
  claims-destroy i a =
      omega (arith, owners-taken s.pointers i a, freed_lem (get_or s.pointers i none) s.freed a)

  claims-assign : (i j a : ℕ) → i < length s.pointers → claims (assign i j s) a ≡ claims s a
  unfolding assign release member
  claims-assign i j a h =
      if_claims (i == j) s _ a _ (λ e. refl)
        (λ e.
          omega (
            arith,
            emptied_first s.pointers i j a h,
            freed_lem (get_or s.pointers i none) s.freed a,
          ))

  claims-assign_ref :
      (i j a : ℕ) → Exclusive → i < length s.pointers → claims (assign_ref i j s) a ≡ claims s a
  unfolding assign_ref release member
  claims-assign_ref i j a x h =
      let qs = s.pointers in
      let mid = set qs j none in
      if_claims (same_reply (get_or mid i none) (get_or qs j none)) _ _ a _
        (λ e. omega (arith, same_null qs i j a h (λ b. omega (arith, x b)) e, owners-taken qs j a))
        (λ e. omega (arith, emptied_last qs i j a h, freed_lem (get_or mid i none) s.freed a))

  -- The pointer that is assigned to is in scope.
  abbrev pub InScope : Move → Type 0
  InScope (copying i) = Unit
  InScope (destroying i) = Unit
  InScope (assigning i other) = i < length s.pointers
  InScope (assigning_ref i other) = i < length s.pointers

  -- Each move leaves each reply with the owners and the frees that it had, taken together.
  pub claims-perform :
      (m : Move) → Exclusive → InScope m → (a : ℕ) → claims (perform m s) a ≡ claims s a
  unfolding perform
  claims-perform (copying i) x h a = claims-copy i a
  claims-perform (destroying i) x h a = claims-destroy i a
  claims-perform (assigning i j) x h a = claims-assign i j a h
  claims-perform (assigning_ref i j) x h a = claims-assign_ref i j a x h

-- Every pointer that is assigned to is in scope when it is.
abbrev pub AllInScope : List Move → Replies → Type 0
AllInScope [] s = Unit
AllInScope (m ∷ ms) s = InScope s m × AllInScope ms (perform m s)

-- From pointers that share no reply, with every pointer that is assigned to in scope, any moves keep
-- count of every reply: one that is owned is still owned by one pointer, or has been freed, once; no
-- reply is lost and none is freed twice.
pub claims-perform_all :
    (ms : List Move) (s : Replies)
    → Exclusive s
    → AllInScope ms s
    → (a : ℕ) → (claims (perform_all ms s) a ≡ claims s a) × (claims (perform_all ms s) a ≤ 1)
unfolding perform_all
claims-perform_all [] s x h a = (refl, x a)
claims-perform_all (m ∷ ms) s x h a =
    let step = claims-perform s m x h.0 in
    let (e, l) = claims-perform_all ms (perform m s) (λ b. omega (arith, step b, x b)) h.1 a in
    (e ∙ step a, l)
