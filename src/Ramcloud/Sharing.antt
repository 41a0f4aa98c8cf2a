-- ===== src/Ramcloud/Sharing.antt =====
-- Threads that give commands through objects of the class Client of RedisClientYaf.cpp: the member
-- `client`, which every command assigns again, against the pointers of the class Config.
pub mod Counters
pub mod Whole
pub mod Lifetimes
use hiredispool.Base.{
  ℕ, zero, suc, ◌<◌, ◌≡◌, Bool, true, false, Option, none, some, List, [], ◌∷◌, set, ltb, ◌==◌,
  if◌then◌else◌,
}
use hiredispool.Ramcloud.Pointers.{
  Pointers, nothing_made, counter, set_count, drop_ref, construct, destroy, assign,
}
use hiredispool.Threads.{update}

-- A thread is in no command; has run `_init`; or is in a method of a client.
pub data Doing : Type 0 where
  outside ready : Doing
  within : ℕ → Doing

-- The pointers: at 0 that of instMap for the database, where it has one, and from 1 on the members `client`
-- of the objects. `null` says of a counter that its pointers are NULL.
pub record Usage : Type 0 where
  pub refs : Pointers
  pub null : ℕ → Bool
  pub doing : ℕ → Doing

-- What pointer `i` had is given up for a new pointer.
unfoldable pub renew : ℕ → Pointers → Pointers
renew i s =
    let fresh = record s {
      counts = set_count s.counts s.made 1;
      made = suc s.made;
      pointers = set s.pointers i (some s.made);
    } in
    elim (counter s i) [ none ↦ fresh | some a ↦ drop_ref a fresh ]

abbrev pub turns : Usage → ℕ → Pointers → Doing → Usage
turns s a refs d = record s { refs = refs; doing = update s.doing a d }

-- What happens in one step, where thread `a` uses object `object a` of the `n` that there are: deleteInst; `_init`, where
-- getRedisClient finds a client, makes one, or has none to return; the test of isNull with the call of the
-- client; and the end of the call.
pub data Turn (n : ℕ) (object : ℕ → ℕ) : Usage → Usage → Type 0 where
  deletes : (s : Usage) → Turn n object s (record s { refs = destroy 0 s.refs })
  finds :
      (s : Usage) (a c : ℕ)
      → s.doing a ≡ outside
      → object a < n
      → counter s.refs 0 ≡ some c
      → Turn n object s (turns s a (assign (suc (object a)) 0 s.refs) ready)
  creates :
      (s : Usage) (a : ℕ)
      → s.doing a ≡ outside
      → object a < n
      → counter s.refs 0 ≡ none
      → Turn n object s (turns s a (assign (suc (object a)) 0 (renew 0 s.refs)) ready)
  fails :
      (s : Usage) (a : ℕ)
      → s.doing a ≡ outside
      → object a < n
      → counter s.refs 0 ≡ none
      → Turn n object s (record (turns s a (renew (suc (object a)) s.refs) ready) {
        null = update s.null s.refs.made true;
      })
  calls :
      (s : Usage) (a c : ℕ)
      → s.doing a ≡ ready
      → counter s.refs (suc (object a)) ≡ some c
      → s.null c ≡ false
      → Turn n object s (turns s a s.refs (within c))
  gives_up :
      (s : Usage) (a c : ℕ)
      → s.doing a ≡ ready
      → counter s.refs (suc (object a)) ≡ some c
      → s.null c ≡ true
      → Turn n object s (turns s a s.refs outside)
  returns :
      (s : Usage) (a c : ℕ) → s.doing a ≡ within c → Turn n object s (turns s a s.refs outside)

-- The constructors of `n` objects, each with a pointer to NULL.
unfoldable pub objects : ℕ → Pointers
objects zero = nothing_made
objects (suc n) = construct (objects n)

-- Before the first command: no client is known, and no thread is in a command.
unfoldable pub unused : ℕ → Usage
unused n = record {
  refs = let s = objects n in record s { pointers = none ∷ s.pointers };
  null = λ c. ltb c n;
  doing = λ a. outside;
}

-- The states that the threads, with what they use of the `n` objects, can bring about.
pub data Reached (n : ℕ) (object : ℕ → ℕ) : Usage → Type 0 where
  starts : Reached n object (unused n)
  turn : (s t : Usage) → Reached n object s → Turn n object s t → Reached n object t
