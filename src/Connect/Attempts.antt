-- ===== src/Connect/Attempts.antt =====
-- Which endpoints connect_single_socket tries, in which order, and what that does to the backup
-- index: the loop against the ring of endpoints.
use native.Mathlib.Nat.{mod-lt}
use hiredispool.Base.{
  ℕ, zero, suc, ◌+◌, ◌%◌, ◌<◌, ◌≤◌, ◌≡◌, inl, inr, ◌∙◌, subst, Option, none, some, Option-cases,
  arith,
}
use hiredispool.Config.{Config, count_of}
use hiredispool.Platform.{Platform}
use hiredispool.Instance.{Socket}
use hiredispool.Connect.Ring.{ring_step, ring_stay}
use hiredispool.Connect.{
  Outcome, established, exhausted, advance, usable, try_endpoint, discard, connect_loop,
}

-- The socket `s` with its backup moved on `d` places in the ring.
abbrev pub moved : Config → Socket → ℕ → Socket
moved k s d = record s { backup = (s.backup + d) % count_of k }

module _ {W : Type 0} (p : Platform W) (k : Config) where
  -- The endpoint of socket `s` was tried in some world and gave the usable context `c`, or none.
  abbrev pub Tried : Socket → Option ℕ → Type 0
  Tried s c = (u : W) × (usable p (try_endpoint p k s u).0 (try_endpoint p k s u).1 ≡ c)

  -- What `m + 1` rounds of the loop from socket `s` come to: the first usable endpoint in ring order,
  -- after others that failed; or failures only, one for each round.
  abbrev pub Ends : ℕ → Socket → Outcome W → Type 0
  Ends m s (established c t v) =
      (d : ℕ) × (d ≤ m)
      × (t ≡ moved k s d)
      × Tried t (some c)
      × ((e : ℕ) → e < d → Tried (moved k s e) none)
  Ends m s (exhausted c t v) = (t ≡ moved k s m) × ((e : ℕ) → e ≤ m → Tried (moved k s e) none)

  moved_zero : (s : Socket) → s.backup < count_of k → s ≡ moved k s 0
  moved_zero s h = ground (arith, ring_stay s.backup (count_of k) h)

  moved-advance : (s : Socket) (d : ℕ) → moved k (advance k s) d ≡ moved k s (suc d)
  unfolding advance
  moved-advance s d = ground (arith, ring_step s.backup d (count_of k))

  -- A failure now, and failures in all the rounds after it.
  Tried-shift :
      (s : Socket) (m : ℕ)
      → s.backup < count_of k
      → Tried s none
      → ((e : ℕ) → e < m → Tried (moved k (advance k s) e) none)
      → (e : ℕ) → e < suc m
      → Tried (moved k s e) none
  Tried-shift s m h now later zero lt = subst (λ t. Tried t none) (moved_zero s h) now
  Tried-shift s m h now later (suc e) lt =
      subst (λ t. Tried t none) (moved-advance s e) (later e (omega arith))

  Ends-shift :
      (m : ℕ) (s : Socket) (o : Outcome W)
      → s.backup < count_of k
      → Tried s none
      → Ends m (advance k s) o
      → Ends (suc m) s o
  Ends-shift m s (established c t v) h now (d, le, e, hit, misses) =
      (suc d, omega arith, e ∙ moved-advance s d, hit, Tried-shift s d h now misses)
  Ends-shift m s (exhausted c t v) h now (e, misses) = (
    e ∙ moved-advance s m,
    λ j lt. Tried-shift s (suc m) h now (λ i li. misses i (omega arith)) j (omega arith),
  )

  advance-lt : (s : Socket) → s.backup < count_of k → (advance k s).backup < count_of k
  unfolding advance
  advance-lt s h = mod-lt (s.backup + 1) (omega arith)

  -- One round of the loop.
  pub connect_loop_hit :
      (n : ℕ) (s : Socket) (w : W) {c : ℕ}
      → usable p (try_endpoint p k s w).0 (try_endpoint p k s w).1 ≡ some c
      → connect_loop p (suc n) k s w ≡ established c s (try_endpoint p k s w).1
  unfolding connect_loop
  connect_loop_hit n s w e = ground arith

  pub connect_loop_last :
      (s : Socket) (w : W)
      → usable p (try_endpoint p k s w).0 (try_endpoint p k s w).1 ≡ none
      → connect_loop p 1 k s w ≡ exhausted (try_endpoint p k s w).0 s (try_endpoint p k s w).1
  unfolding connect_loop
  connect_loop_last s w e = ground arith

  pub connect_loop_miss :
      (n : ℕ) (s : Socket) (w : W)
      → usable p (try_endpoint p k s w).0 (try_endpoint p k s w).1 ≡ none
      → connect_loop p (suc (suc n)) k s w
        ≡ connect_loop p
            (suc n)
            k
            (advance k s)
            (discard p (try_endpoint p k s w).0 (try_endpoint p k s w).1)
  unfolding connect_loop
  connect_loop_miss n s w e = ground arith

  pub connect_loop-Ends :
      (m : ℕ) (s : Socket) (w : W) → s.backup < count_of k → Ends m s (connect_loop p (suc m) k s w)
  connect_loop-Ends zero s w h =
      elim (Option-cases (usable p (try_endpoint p k s w).0 (try_endpoint p k s w).1)) [
        | inl e ↦ rw (connect_loop_last s w e) (
          moved_zero s h,
          λ j lt. Tried-shift s 0 h (w, e) (λ i li. absurd (omega arith)) j (omega arith),
        )
        | inr (c, e) ↦
            rw (connect_loop_hit 0 s w e)
              (0, omega arith, moved_zero s h, (w, e), λ j lt. absurd (omega arith))
      ]
  connect_loop-Ends (suc m) s w h =
      elim (Option-cases (usable p (try_endpoint p k s w).0 (try_endpoint p k s w).1)) [
        | inl e ↦
            rw (connect_loop_miss m s w e)
              (Ends-shift m s _ h (w, e) (connect_loop-Ends m (advance k s) _ (advance-lt s h)))
        | inr (c, e) ↦
            rw (connect_loop_hit (suc m) s w e)
              (0, omega arith, moved_zero s h, (w, e), λ j lt. absurd (omega arith))
      ]
