-- ===== src/Contexts.antt =====
-- The hiredis contexts that a pool holds, against those that are live in the platform's world.
pub mod Acquiring
pub mod Searching
pub mod Commands
use hiredispool.Base.{
  ℕ, ◌+◌, ◌≡◌, refl, zero, suc, get_elem?, set, List, [], ◌∷◌, some, Option, none, if◌then◌else◌,
  ◌==◌, arith,
}
use hiredispool.Platform.{Platform}
use hiredispool.Platform.Laws.{ContextLaws, at_address}
use hiredispool.Instance.{Socket, Instance}

-- How many sockets of the list hold the context at address `a`.
unfoldable pub held : List Socket → ℕ → ℕ
held [] a = 0
held (x ∷ xs) a = at_address x.conn a + held xs a

pub held-set :
    (xs : List Socket) (i : ℕ) (x y : Socket) (a : ℕ)
    → get_elem? xs i ≡ some x
    → held (set xs i y) a + at_address x.conn a ≡ held xs a + at_address y.conn a
unfolding held
held-set [] i x y a e = cc
held-set (z ∷ xs) zero x y a e = ground arith
held-set (z ∷ xs) (suc i) x y a e = omega (arith, held-set xs i x y a e)

module _ {W : Type 0} {p : Platform W} (laws : ContextLaws p) where
  -- Every context that is live belongs to a socket of the pool, which holds it once, or to others,
  -- who hold `f` of them.
  abbrev pub Balanced : (ℕ → ℕ) → Instance → W → Type 0
  Balanced f s w = (a : ℕ) → laws.live w a ≡ f a + held s.redis_pool a

  -- As many contexts have been made as sockets have gained, and as many freed as they have lost.
  abbrev pub Conserves : Instance → W → Instance → W → Type 0
  Conserves s w t v =
      (a : ℕ) → laws.live v a + held s.redis_pool a ≡ laws.live w a + held t.redis_pool a

  pub Balanced-step :
      (f : ℕ → ℕ) (s : Instance) (w : W) (t : Instance) (v : W)
      → Conserves s w t v
      → Balanced f s w
      → Balanced f t v
  Balanced-step f s w t v c b a = omega (arith, c a, b a)
