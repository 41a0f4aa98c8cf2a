-- ===== src/Acquire/Effects.antt =====
-- The effect of one round of redis_get_socket on the pool.
use native.Mathlib.Decide.{dec_lt}
use hiredispool.Base.{ℕ, suc, ◌≡◌, ◌≢◌, ap, sym, subst, set, length, true, false, arith}
use hiredispool.Platform.{Platform}
use hiredispool.Instance.{sockconnected, Socket, Instance, next_of}
use hiredispool.Invariant.{IsPool, PointsInto}
use hiredispool.Invariant.Frame.{
  At, Same, Kept, written_size, written_here, written_others, written_Same, written_IsPool,
}
use hiredispool.Acquire.Rounds.{Passed, Won}

-- Socket `i` was free and is now in use and connected; the next search starts behind it; every other
-- socket has kept its id and its `inuse`.
pub record Got (s : Instance) (i : ℕ) (t : Instance) : Type 0 where
  pub config : t.config ≡ s.config
  pub last_used : t.last_used ≡ next_of s i
  pub size : length t.redis_pool ≡ length s.redis_pool
  pub before : (x : Socket) × At s i x × (x.inuse ≡ false)
  pub after :
      (y : Socket) × At t i y × (y.id ≡ before.0.id) × (y.inuse ≡ true) × (y.state ≡ sockconnected)
  pub others : (j : ℕ) → j ≢ i → Same s t j

module _ {W : Type 0} (p : Platform W) where
  module _ (s : Instance) (cur : ℕ) {x : Socket} (h : IsPool s) (a : At s cur x)
      (t : Instance) where
    module _ (g : Passed p s cur x t) where
      pub pool_written : t.redis_pool ≡ set s.redis_pool cur g.sock
      pool_written = ap (λ r. r.redis_pool) g.stored

      pub Passed-Kept : Kept s t
      Passed-Kept = record {
        config = ap (λ r. r.config) g.stored;
        last_used = ap (λ r. r.last_used) g.stored;
        size = written_size s t cur g.sock a pool_written;
        each = written_Same s t cur g.sock a pool_written g.same_id g.same_inuse;
      }

      pub Passed-IsPool : IsPool t
      Passed-IsPool =
          written_IsPool s t cur g.sock a pool_written h (ap (λ r. r.config) g.stored) g.formed (
            subst (PointsInto (length s.redis_pool)) (sym (ap (λ r. r.last_used) g.stored))
              h.pointer)

    module _ (g : Won p s cur x t) where
      pub pool_won : t.redis_pool ≡ set s.redis_pool cur g.sock
      pool_won = ap (λ r. r.redis_pool) g.stored

      pub Won-Got : Got s cur t
      Won-Got = record {
        config = ap (λ r. r.config) g.stored;
        last_used = ap (λ r. r.last_used) g.stored;
        size = written_size s t cur g.sock a pool_won;
        before = (x, a, g.was_free);
        after = (g.sock, written_here s t cur g.sock a pool_won, g.same_id, g.in_use, g.up);
        others = λ j ne. written_others s t cur g.sock a pool_won j (λ e. ne (sym e));
      }

      next_points : PointsInto (length s.redis_pool) (next_of s cur)
      next_points = elim (dec_lt (suc cur) (length s.redis_pool)) [
        | yes more ↦ ground arith
        | no last ↦ ground arith
      ]

      pub Won-IsPool : IsPool t
      Won-IsPool =
          written_IsPool s t cur g.sock a pool_won h (ap (λ r. r.config) g.stored) g.formed (
            subst (PointsInto (length s.redis_pool)) (sym (ap (λ r. r.last_used) g.stored))
              next_points)
