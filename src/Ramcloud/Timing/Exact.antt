-- ===== src/Ramcloud/Timing/Exact.antt =====
-- The times that RedisClientYaf.cpp logs, against the clock.
use hiredispool.Base.{
  ℕ, ◌+◌, ◌-◌, ◌*◌, ◌<◌, ◌≡◌, inl, inr, ◌∙◌, refl, ap, Bool-cases, Option, none, some, List, [],
  ◌∷◌, pos, negsuc, sub_ℕ, ◌+ℤ◌, leb, c_str, codes, zero, suc, arith,
}
use hiredispool.Config.{Timeval}
use hiredispool.Ramcloud.{Pack, formatted, word, str, bin, Server}
use hiredispool.Ramcloud.Replies.{reply2status}
use hiredispool.Ramcloud.Timing.{
  low_word, to_int64, opposite, Clock, read_into, in_microseconds, host_of, port_of, microsec,
  construct_command, duration, report_status, timed_set,
}

-- What the clock tells is `n` microseconds, before the year 294247; a clock that cannot be read tells 0.
pub data IsTime : Option Timeval → ℕ → Type 0 where
  unread : IsTime none 0
  tells :
      (s m : ℕ)
      → s < 9223372036854
      → m < 1000000
      → IsTime (some (record { tv_sec = pos s; tv_usec = pos m })) (s * 1000000 + m)

to_int64-pos : (n : ℕ) → n < 9223372036854775808 → to_int64 (pos n) ≡ pos n
unfolding to_int64 low_word
to_int64-pos n h = ground arith

to_int64-negsuc : (n : ℕ) → n < 9223372036854775808 → to_int64 (negsuc n) ≡ negsuc n
unfolding to_int64 low_word
to_int64-negsuc n h = ground arith

in_microseconds-IsTime :
    (o : Option Timeval) (n : ℕ) → IsTime o n → in_microseconds (read_into o) ≡ pos n
unfolding in_microseconds read_into ◌+ℤ◌
in_microseconds-IsTime _ _ unread = to_int64-pos 0 (omega arith)
in_microseconds-IsTime _ _ (tells s m h k) =
    ap to_int64 (ground arith) ∙ to_int64-pos (s * 1000000 + m) (omega arith)

time_fits : (o : Option Timeval) (n : ℕ) → IsTime o n → n < 9223372036854775808
time_fits _ _ unread = omega arith
time_fits _ _ (tells s m h k) = omega arith

-- The difference of two times fits.
to_int64-sub_ℕ :
    (a b : ℕ) → a < 9223372036854775808 → b < 9223372036854775808 → to_int64 (sub_ℕ a b) ≡ sub_ℕ a b
to_int64-sub_ℕ a b h k = elim (Bool-cases (leb b a)) [
  | inl e ↦ rw e (to_int64-pos (a - b) (omega arith))
  | inr e ↦ rw e (to_int64-negsuc (b - a - 1) (omega arith))
]

minus_opposite : (a b : ℕ) → pos a +ℤ opposite (pos b) ≡ sub_ℕ a b
unfolding ◌+ℤ◌ opposite
minus_opposite a zero = ground arith
minus_opposite a (suc b) = ground arith

module _ {W : Type 0} (c : Clock W) where
  microsec_exact :
      (w v : W) (o : Option Timeval) (n : ℕ)
      → c.gettimeofday w ≡ (o, v)
      → IsTime o n
      → microsec c w ≡ (pos n, v)
  unfolding microsec
  microsec_exact w v o n e h = rw e (ap (λ z. (z, v)) (in_microseconds-IsTime o n h))

  duration_exact :
      (name : List ℕ) (m : ℕ) (w v : W) (o : Option Timeval) (n : ℕ)
      → c.gettimeofday w ≡ (o, v)
      → m < 9223372036854775808
      → IsTime o n
      → duration c (record { start = pos m; command = name }) w ≡ (sub_ℕ n m, v)
  unfolding duration
  duration_exact name m w v o n e h k =
      rw (microsec_exact w v o n e k) (
        ap (λ z. (z, v))
          (ap to_int64 (minus_opposite n m) ∙ to_int64-sub_ℕ n m (time_fits o n k) h))

module _ {W D : Type 0} (c : Clock W) (t : Server W D) where
  -- Client::set, where the clock is read before and after: its status is that of the reply, and it logs
  -- the microseconds that have passed, exactly, below 0 where the clock has been set back.
  pub report_exact :
      (key val : List ℕ) (w w1 w2 w3 : W) (before after : Option Timeval) (m n : ℕ)
      (reply : Option Pack)
      → c.gettimeofday w ≡ (before, w1)
      → t.command (formatted (word (codes "SET") ∷ str key ∷ bin val ∷ [])) w1 ≡ (reply, w2)
      → c.gettimeofday w2 ≡ (after, w3)
      → IsTime before m
      → IsTime after n
      → timed_set c t key val w ≡ (
        reply2status reply,
        c.log_th
            (record {
              command = codes "SET";
              host = host_of reply;
              port = port_of reply;
              status = c_str (reply2status reply).code;
              cost = sub_ℕ n m;
            })
            w3,
      )
  unfolding timed_set construct_command report_status
  report_exact key val w w1 w2 w3 before after m n reply e f g h k =
      rw (microsec_exact c w w1 before m e h, f)
        (rw
          (report_status, duration_exact c (codes "SET") m w2 w3 after n g (time_fits before m h) k)
          refl)
