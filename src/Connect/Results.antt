-- ===== src/Connect/Results.antt =====
-- What connect_single_socket promises: the socket and the grace period after a success and after a
-- failure, and which endpoints were asked.
use native.Mathlib.Nat.{mod-lt}
use native.Mathlib.Decide.{dec_lt}
use hiredispool.Base.{
  ℕ, suc, ◌+◌, ◌-◌, ◌%◌, ◌<◌, ◌≤◌, ◌≡◌, ◌≢◌, ◌⊎◌, inl, inr, refl, sym, subst, Option, none, some,
  arith, ℤ, pos, negsuc, ◌+ℤ◌,
}
use hiredispool.Config.{Config, count_of}
use hiredispool.Platform.{Platform}
use hiredispool.Instance.{Socket, sockconnected, sockunconnected}
use hiredispool.Connect.Ring.{ring_round, ring_reach, ring_other}
use hiredispool.Connect.Attempts.{Tried, moved, Ends, connect_loop-Ends}
use hiredispool.Connect.{
  Connected, Outcome, established, exhausted, connect_loop, choose_backup, on_success, on_failure,
  finish, advance, connect_single_socket,
}

module _ {W : Type 0} (p : Platform W) (k : Config) (s : Socket) (after : ℤ) where
  -- After a failure: every endpoint was tried and was not usable, the socket is unconnected and is
  -- otherwise as before, its backup index included, and the grace period is counted from the time
  -- that the clock shows after the attempts.
  pub record Failed (r : Connected W) : Type 0 where
    pub code : r.rc ≡ negsuc 0
    pub asked : (i : ℕ) → i < count_of k → Tried p k (record s { backup = i }) none
    pub sock_after : r.sock ≡ record s { conn = none; state = sockunconnected }
    pub grace :
        (u : W) × (r.connect_after ≡ (p.time u).0 +ℤ k.connect_failure_retry_delay)
        × (r.world ≡ (p.time u).1)

  -- After a success: the first usable endpoint in ring order from the backup index gave the context
  -- that the socket holds; the new backup is an endpoint other than that one, if there is another;
  -- nothing else has changed, the grace period included.
  pub record Succeeded (r : Connected W) : Type 0 where
    pub code : r.rc ≡ pos 0
    pub steps : ℕ
    pub steps_lt : steps < count_of k
    pub context : ℕ
    pub hit : Tried p k (moved k s steps) (some context)
    pub misses : (e : ℕ) → e < steps → Tried p k (moved k s e) none
    pub sock_after :
        r.sock ≡ record s { backup = r.sock.backup; conn = some context; state = sockconnected }
    pub backup_lt : r.sock.backup < count_of k
    pub backup_other : 1 < count_of k → r.sock.backup ≢ (s.backup + steps) % count_of k
    pub grace : r.connect_after ≡ after

  choose_backup_range :
      (t : Socket) (v : W)
      → t.backup < count_of k
      → let b = (choose_backup p k t v).0.backup in
        ((choose_backup p k t v).0 ≡ record t { backup = b })
        × (b < count_of k)
        × (1 < count_of k → b ≢ t.backup)
  unfolding choose_backup
  choose_backup_range t v h = elim (dec_lt 1 (count_of k)) [
    | yes more ↦
        let e : 1 + (p.rand v).0 % (count_of k - 1) < count_of k =
          omega (arith, mod-lt (p.rand v).0 {m = count_of k - 1}) in
        ground (
          arith,
          mod-lt (t.backup + (1 + (p.rand v).0 % (count_of k - 1))) {m = count_of k},
          ring_other t.backup (1 + (p.rand v).0 % (count_of k - 1)) (count_of k) h,
        )
    | no one ↦ ground arith
  ]

  ring_all :
      (m : ℕ)
      → count_of k ≡ suc m
      → s.backup < count_of k
      → ((e : ℕ) → e ≤ m → Tried p k (moved k s e) none)
      → (i : ℕ) → i < count_of k
      → Tried p k (record s { backup = i }) none
  ring_all m eq h misses i lt =
      subst (λ b. Tried p k (record s { backup = b }) none)
        (ring_reach s.backup i (count_of k) h lt)
        (misses ((i + count_of k - s.backup) % count_of k)
          (omega (arith, mod-lt (i + count_of k - s.backup) {m = count_of k})))

  on_failure-Failed :
      (m : ℕ) (c : Option ℕ) (t : Socket) (v : W)
      → count_of k ≡ suc m
      → s.backup < count_of k
      → Ends p k m s (exhausted c t v)
      → Failed (on_failure p k c t v)
  unfolding on_failure advance
  on_failure-Failed m c t v eq h (e, misses) = record {
    code = refl;
    asked = ring_all m eq h misses;
    sock_after = ground (arith, ring_round s.backup m);
    grace = (_, refl, refl);
  }

  on_success-Succeeded :
      (m : ℕ) (c : ℕ) (t : Socket) (v : W)
      → count_of k ≡ suc m
      → s.backup < count_of k
      → Ends p k m s (established c t v)
      → Succeeded (on_success p k after c t v)
  unfolding on_success
  on_success-Succeeded m c t v eq h (d, le, e, hit, misses) =
      let chosen =
        choose_backup_range (record t { conn = some c; state = sockconnected }) v
          (ground (arith, mod-lt (s.backup + d) {m = count_of k})) in
      record {
        code = refl;
        steps = d;
        steps_lt = omega arith;
        context = c;
        hit = subst (λ x. Tried p k x (some c)) e hit;
        misses = misses;
        sock_after = ground arith;
        backup_lt = chosen.1;
        backup_other = ground arith;
        grace = refl;
      }

  finish-cases :
      (m : ℕ) (o : Outcome W)
      → count_of k ≡ suc m
      → s.backup < count_of k
      → Ends p k m s o
      → Failed (finish p k after o) ⊎ Succeeded (finish p k after o)
  unfolding finish
  finish-cases m (established c t v) eq h e = inr (on_success-Succeeded m c t v eq h e)
  finish-cases m (exhausted c t v) eq h e = inl (on_failure-Failed m c t v eq h e)

  -- With a backup index in range connect_single_socket fails or succeeds. A failure means that
  -- every endpoint was tried and was not usable, leaves the socket unconnected and otherwise as
  -- before, its backup index included, and counts the grace period from the time after the
  -- attempts. A success gives the socket the context of the first usable endpoint in ring order
  -- from the backup index, after others that were tried and were not usable, picks a new backup
  -- other than that endpoint where there is another, and changes nothing else, the grace period
  -- included.
  pub connect_cases :
      (w : W)
      → s.backup < count_of k
      → Failed (connect_single_socket p k after s w)
        ⊎ Succeeded (connect_single_socket p k after s w)
  unfolding connect_single_socket
  connect_cases w h =
      let m = count_of k - 1 in
      let eq : count_of k ≡ suc m = omega arith in
      finish-cases m _ eq h (
        subst (λ n. Ends p k m s (connect_loop p n k s w)) (sym eq) (connect_loop-Ends p k m s w h))
