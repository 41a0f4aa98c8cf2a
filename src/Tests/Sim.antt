-- ===== src/Tests/Sim.antt =====
-- A platform to run the model on: contexts are numbered in order, the endpoints with a port in
-- `dead` refuse, a command on a context in `broken` gets no reply, and the clock stands still.
use hiredispool.Base.{
  ℕ, suc, ◌+◌, ◌<◌, ◌≡◌, refl, Bool, false, ◌||◌, Option, none, some, List, [], ◌∷◌, ◌==◌,
  if◌then◌else◌, ℤ, pos, pos_part, arith,
}
use hiredispool.Platform.{Platform}
use hiredispool.Platform.Laws.{ContextLaws, at_address}

pub record Sim : Type 0 where
  pub contexts : List ℕ
  pub fresh : ℕ
  pub failed : List ℕ
  pub dead : List ℕ
  pub broken : List ℕ
  pub locks : List ℕ
  pub now : ℕ

abbrev pub mem : ℕ → List ℕ → Bool
mem a [] = false
mem a (b ∷ bs) = a == b || mem a bs

abbrev pub count : ℕ → List ℕ → ℕ
count a [] = 0
count a (b ∷ bs) = (if b == a then 1 else 0) + count a bs

abbrev pub erase : ℕ → List ℕ → List ℕ
erase a [] = []
erase a (b ∷ bs) = if a == b then bs else b ∷ erase a bs

pub count-erase :
    (c a : ℕ) (cs : List ℕ)
    → 0 < count c cs
    → count a (erase c cs) + at_address (some c) a ≡ count a cs
count-erase c a [] h = absurd (elim h [ ])
count-erase c a (b ∷ cs) h = ground (arith, count-erase c a cs)

abbrev pub open_context : ℤ → Sim → Option ℕ × Sim
open_context port w = (
  some w.fresh,
  record w {
    contexts = w.fresh ∷ w.contexts;
    fresh = suc w.fresh;
    failed = if mem (pos_part port) w.dead then w.fresh ∷ w.failed else w.failed;
  },
)

abbrev pub free_context : Option ℕ → Sim → Sim
free_context none w = w
free_context (some c) w = record w { contexts = erase c w.contexts }

abbrev pub reply_to : Option ℕ → Sim → Option ℕ
reply_to none w = none
reply_to (some c) w = if mem c w.broken then none else some 1

abbrev pub sim : Platform Sim
sim = record {
  redis_connect_with_timeout = λ h n t w. open_context n w;
  err = λ c w. if mem c w.failed then pos 1 else pos 0;
  redis_set_timeout = λ c t w. (pos 0, w);
  redis_enable_keep_alive = λ c w. (pos 0, w);
  redis_free = free_context;
  redisv_command = λ c f w. (reply_to c w, w);
  time = λ w. (pos w.now, w);
  rand = λ w. (5, w);
  mutex_init = λ i w. (pos 0, w);
  mutex_trylock =
      λ i w. if mem i w.locks then (pos 16, w) else (pos 0, record w { locks = i ∷ w.locks });
  mutex_unlock = λ i w. (pos 0, record w { locks = erase i w.locks });
  mutex_destroy = λ i w. (pos 0, w);
}

pub open_count :
    (n : ℤ) (w : Sim) (a : ℕ)
    → count a (open_context n w).1.contexts ≡ count a w.contexts + at_address (open_context n w).0 a
open_count n w a = omega arith

pub trylock_same :
    (i : ℕ) (w : Sim) (a : ℕ) → count a (sim.mutex_trylock i w).1.contexts ≡ count a w.contexts
trylock_same i w a = ground arith

abbrev pub sim_contexts : ContextLaws sim
sim_contexts = record {
  live = λ w a. count a w.contexts;
  connect_live = λ h n t w a. open_count n w a;
  free_null = λ w a. refl;
  free_live = λ c w a h. count-erase c a w.contexts h;
  set_timeout_live = λ c t w a. refl;
  keep_alive_live = λ c w a. refl;
  command_live = λ c f w a. refl;
  time_live = λ w a. refl;
  rand_live = λ w a. refl;
  init_live = λ i w a. refl;
  trylock_live = trylock_same;
  unlock_live = λ i w a. refl;
  destroy_live = λ i w a. refl;
}

abbrev pub world : Sim
world = record {
  contexts = [];
  fresh = 100;
  failed = [];
  dead = [];
  broken = [];
  locks = [];
  now = 50;
}
