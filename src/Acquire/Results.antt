-- ===== src/Acquire/Results.antt =====
-- What redis_get_socket and redis_release_socket promise their callers.
use native.Mathlib.Nat.{mod-lt, mod-eq_of_lt, add-mod_right}
use hiredispool.Base.{
  ℕ, suc, ◌+◌, ◌-◌, ◌%◌, ◌<◌, ◌≡◌, inl, inr, ◌∙◌, refl, ap, sym, subst, List, [], ◌∷◌, length,
  lt-length, Option, none, some, Option-cases, arith,
}
use hiredispool.Platform.{Platform}
use hiredispool.Instance.{Socket, Instance}
use hiredispool.Connect.Ring.{ring_reach}
use hiredispool.Invariant.{IsPool, PointsInto}
use hiredispool.Invariant.Frame.{At, Kept, some_inj}
use hiredispool.Acquire.Rounds.{Refused}
use hiredispool.Acquire.Effects.{Got}
use hiredispool.Acquire.Scan.{RefusedAt, Searched, scan-Searched}
use hiredispool.Acquire.{
  Search, found, nothing, stuck, start_from, start_of, scan, redis_get_socket,
}

start_from-lt :
    (l : Option ℕ) (xs : List Socket) {i : ℕ}
    → PointsInto (length xs) l
    → start_from l xs ≡ some i
    → i < length xs
start_from-lt none [] h e = cc
start_from-lt none (x ∷ xs) h e = ground arith
start_from-lt (some j) xs h e = ground arith

start_from-none : (l : Option ℕ) (xs : List Socket) → start_from l xs ≡ none → length xs ≡ 0
start_from-none none [] e = refl
start_from-none none (x ∷ xs) e = cc
start_from-none (some j) xs e = cc

module _ {W : Type 0} (p : Platform W) (s : Instance) where
  -- The two answers of a search. A socket: the first one in list order from the start, wrapping
  -- round, that was not refused. NULL: nothing is in use that was not, and every socket was refused.
  abbrev pub Answers : Search W → Type 0
  Answers (found i t v) =
      Got s i t
      × IsPool t
      × (start : ℕ) × (start_of s ≡ some start)
      × (d : ℕ) × (i ≡ (start + d) % length s.redis_pool)
      × ((e : ℕ) → e < d → RefusedAt p s ((start + e) % length s.redis_pool))
  Answers (nothing t v) = Kept s t × IsPool t × ((j : ℕ) (x : Socket) → At s j x → Refused p s x)
  Answers stuck = ⊥

  -- A full round from `start` answers for the whole search.
  Searched-Answers :
      (n m start : ℕ) (o : Search W)
      → n ≡ length s.redis_pool
      → n ≡ suc m
      → start < n
      → start_of s ≡ some start
      → Searched p n m start s o
      → Answers o
  Searched-Answers n m start (found i t v) len eq lt st (d, le, e, g, h, misses) = (
    g,
    h,
    start,
    st,
    d,
    e ∙ ap (λ l. (start + d) % l) len,
    λ j lj. subst (λ l. RefusedAt p s ((start + j) % l)) len (misses j lj),
  )
  Searched-Answers n m start (nothing t v) len eq lt st (k, h, misses) = (
    k,
    h,
    λ j x a.
        let jn : j < n = omega (arith, lt-length s.redis_pool j a) in
        let d = (j + n - start) % n in
        let (y, b, r) =
          subst (RefusedAt p s) (ring_reach start j n lt jn)
            (misses d (omega (arith, mod-lt (j + n - start) {m = n}))) in
        subst (Refused p s) (some_inj (sym b ∙ a)) r,
  )
  Searched-Answers n m start stuck len eq lt st o = o

  pub get_null : (w : W) → start_of s ≡ none → redis_get_socket p s w ≡ nothing s w
  unfolding redis_get_socket
  get_null w e = ground arith

  pub get_scan :
      (w : W) {start : ℕ}
      → start_of s ≡ some start
      → redis_get_socket p s w ≡ scan p (length s.redis_pool) start start s w
  unfolding redis_get_socket
  get_scan w e = ground arith

  pub get_socket-Answers : (w : W) → IsPool s → Answers (redis_get_socket p s w)
  unfolding start_of
  get_socket-Answers w h = elim (Option-cases (start_of s)) [
    | inl e ↦
        let z : length s.redis_pool ≡ 0 = start_from-none s.last_used s.redis_pool e in
        rw (get_null w e) (
          record {
            config = refl;
            last_used = refl;
            size = refl;
            each = λ j x a. (x, a, refl, refl);
          },
          h,
          λ j x a. absurd (omega (arith, lt-length s.redis_pool j a)),
        )
    | inr (start, e) ↦
        let n = length s.redis_pool in
        let lt : start < n = start_from-lt s.last_used s.redis_pool h.pointer e in
        let eq : n ≡ suc (n - 1) = omega arith in
        rw (get_scan w e) (
          Searched-Answers n (n - 1) start _ refl eq lt e (
            subst (λ f. Searched p n (n - 1) start s (scan p f start start s w)) (sym eq)
              (scan-Searched p (n - 1) n start start s w h refl lt (omega arith) (
                sym (
                  subst (λ f. (start + f) % n ≡ start) eq
                    (add-mod_right start n ∙ mod-eq_of_lt lt))))))
  ]
