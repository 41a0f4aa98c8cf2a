-- ===== src/Platform/Laws.antt =====
-- Documented behaviour of the platform, as hypotheses that the theorems name.
use hiredispool.Base.{ℕ, ◌+◌, ◌<◌, ◌≡◌, Option, none, some, List, ℤ, ◌==◌, if◌then◌else◌}
use hiredispool.Config.{Timeval}
use hiredispool.Platform.{Platform}

-- 1 at the address of the pointer, 0 elsewhere.
abbrev pub at_address : Option ℕ → ℕ → ℕ
at_address none a = 0
at_address (some c) a = if c == a then 1 else 0

-- Who allocates contexts and who frees them: `live w a` counts the contexts at address `a` that have
-- been made by redisConnectWithTimeout and not yet been given to redisFree.
pub record ContextLaws {W : Type 0} (p : Platform W) : Type 0 where
  pub live : W → ℕ → ℕ
  -- a connection attempt, failed or not, makes one context, or none where memory runs out
  pub connect_live :
      (h : List ℕ) (n : ℤ) (t : Timeval) (w : W) (a : ℕ)
      → let (c, v) = p.redis_connect_with_timeout h n t w in live v a ≡ live w a + at_address c a
  -- freeing NULL does nothing, freeing a live context takes it away; nothing is said of any other
  pub free_null : (w : W) (a : ℕ) → live (p.redis_free none w) a ≡ live w a
  pub free_live :
      (c : ℕ) (w : W) (a : ℕ)
      → 0 < live w c
      → live (p.redis_free (some c) w) a + at_address (some c) a ≡ live w a
  -- nothing else makes or frees a context
  pub set_timeout_live :
      (c : ℕ) (t : Timeval) (w : W) (a : ℕ) → live (p.redis_set_timeout c t w).1 a ≡ live w a
  pub keep_alive_live :
      (c : ℕ) (w : W) (a : ℕ) → live (p.redis_enable_keep_alive c w).1 a ≡ live w a
  pub command_live :
      (c : Option ℕ) (f : List ℕ) (w : W) (a : ℕ) → live (p.redisv_command c f w).1 a ≡ live w a
  pub time_live : (w : W) (a : ℕ) → live (p.time w).1 a ≡ live w a
  pub rand_live : (w : W) (a : ℕ) → live (p.rand w).1 a ≡ live w a
  pub init_live : (i : ℕ) (w : W) (a : ℕ) → live (p.mutex_init i w).1 a ≡ live w a
  pub trylock_live : (i : ℕ) (w : W) (a : ℕ) → live (p.mutex_trylock i w).1 a ≡ live w a
  pub unlock_live : (i : ℕ) (w : W) (a : ℕ) → live (p.mutex_unlock i w).1 a ≡ live w a
  pub destroy_live : (i : ℕ) (w : W) (a : ℕ) → live (p.mutex_destroy i w).1 a ≡ live w a
