-- ===== src/Threads.antt =====
-- Threads on one pool: redis_get_socket, redis_release_socket and the commands between them
-- (hiredispool.c), one access to shared memory after the other, in any order of the threads.
pub mod Ownership
pub mod Exclusion
pub mod Range
pub mod Termination
pub mod Progress
pub mod Availability
pub mod Locks
pub mod Simulation
pub mod Cells
pub mod Rounds
pub mod Refinement
use hiredispool.Base.{
  ℕ, suc, ◌<◌, ◌≡◌, Bool, true, false, Option, none, some, ltb, ◌==◌, if◌then◌else◌,
}
use hiredispool.Instance.{SockState, sockunconnected, sockconnected}

-- What the threads share of a socket: who has locked its mutex, `inuse` and `state`.
pub record Cell : Type 0 where
  pub owner : Option ℕ
  pub inuse : Bool
  pub state : SockState

-- Where a thread is, with `start` and `cur`: outside; before the trylock; behind it, before `inuse` is
-- read; with `inuse` set, before connecting; before `state` is read; before the unlock that ends a round.
-- Then the socket has been returned; and it is being released, with `inuse` cleared.
pub data Phase : Type 0 where
  idle : Phase
  trying locked claimed checking leaving : ℕ → ℕ → Phase
  holding releasing : ℕ → Phase

-- The sockets by their position in the list, the threads by number, and `last_used`.
pub record Shared : Type 0 where
  pub cells : ℕ → Cell
  pub phases : ℕ → Phase
  pub last_used : Option ℕ

abbrev pub update {ℓ} : {A : Type ℓ} → (ℕ → A) → ℕ → A → ℕ → A
update f i v j = if j == i then v else f j

-- Thread `a` goes on.
abbrev pub goes : Shared → ℕ → Phase → Shared
goes s a q = record s { phases = update s.phases a q }

-- Thread `a` writes socket `i` and goes on.
abbrev pub writes : Shared → ℕ → ℕ → Cell → Phase → Shared
writes s a i d q = record s { cells = update s.cells i d; phases = update s.phases a q }

-- `last_used`, or the head of the list.
unfoldable pub start_of : Option ℕ → ℕ
start_of none = 0
start_of (some i) = i

-- `cur->next`, in a list of `n` sockets.
unfoldable pub next_of : ℕ → ℕ → Option ℕ
next_of n cur = if ltb (suc cur) n then some (suc cur) else none

-- `cur = cur->next`, from the end to the head, up to the start, where NULL is returned.
unfoldable pub moved_on : ℕ → ℕ → ℕ → Phase
moved_on n start cur =
    let next = start_of (next_of n cur) in if next == start then idle else trying start next

-- One access. Whether the grace period is over, and how an attempt to connect ends, is left open.
pub data Step (n : ℕ) : Shared → Shared → Type 0 where
  begins :
      (s : Shared) (a : ℕ)
      → s.phases a ≡ idle
      → 0 < n
      → Step n s (goes s a (trying (start_of s.last_used) (start_of s.last_used)))
  busy :
      (s : Shared) (a start cur b : ℕ)
      → s.phases a ≡ trying start cur
      → (s.cells cur).owner ≡ some b
      → Step n s (goes s a (moved_on n start cur))
  locks :
      (s : Shared) (a start cur : ℕ)
      → s.phases a ≡ trying start cur
      → (s.cells cur).owner ≡ none
      → Step n s (writes s a cur (record (s.cells cur) { owner = some a }) (locked start cur))
  finds_in_use :
      (s : Shared) (a start cur : ℕ)
      → s.phases a ≡ locked start cur
      → (s.cells cur).inuse ≡ true
      → Step n s (goes s a (leaving start cur))
  claims :
      (s : Shared) (a start cur : ℕ)
      → s.phases a ≡ locked start cur
      → (s.cells cur).inuse ≡ false
      → Step n s (writes s a cur (record (s.cells cur) { inuse = true }) (claimed start cur))
  connects :
      (s : Shared) (a start cur : ℕ) (x : SockState)
      → s.phases a ≡ claimed start cur
      → (s.cells cur).state ≡ sockunconnected
      → Step n s (writes s a cur (record (s.cells cur) { state = x }) (checking start cur))
  passes :
      (s : Shared) (a start cur : ℕ)
      → s.phases a ≡ claimed start cur
      → Step n s (writes s a cur (s.cells cur) (checking start cur))
  ignores :
      (s : Shared) (a start cur : ℕ)
      → s.phases a ≡ checking start cur
      → (s.cells cur).state ≡ sockunconnected
      → Step n s (writes s a cur (record (s.cells cur) { inuse = false }) (leaving start cur))
  grabs :
      (s : Shared) (a start cur : ℕ)
      → s.phases a ≡ checking start cur
      → (s.cells cur).state ≡ sockconnected
      → Step n s (record (writes s a cur (s.cells cur) (holding cur)) { last_used = next_of n cur })
  leaves :
      (s : Shared) (a start cur : ℕ)
      → s.phases a ≡ leaving start cur
      → Step n s (writes s a cur (record (s.cells cur) { owner = none }) (moved_on n start cur))
  commands :
      (s : Shared) (a cur : ℕ) (x : SockState)
      → s.phases a ≡ holding cur
      → Step n s (writes s a cur (record (s.cells cur) { state = x }) (holding cur))
  releases :
      (s : Shared) (a cur : ℕ)
      → s.phases a ≡ holding cur
      → Step n s (writes s a cur (record (s.cells cur) { inuse = false }) (releasing cur))
  unlocks :
      (s : Shared) (a cur : ℕ)
      → s.phases a ≡ releasing cur
      → Step n s (writes s a cur (record (s.cells cur) { owner = none }) idle)

-- The thread that makes the access.
abbrev pub actor : {n : ℕ} {s t : Shared} → Step n s t → ℕ
actor (begins s a _ _) = a
actor (busy s a _ _ _ _ _) = a
actor (locks s a _ _ _ _) = a
actor (finds_in_use s a _ _ _ _) = a
actor (claims s a _ _ _ _) = a
actor (connects s a _ _ _ _ _) = a
actor (passes s a _ _ _) = a
actor (ignores s a _ _ _ _) = a
actor (grabs s a _ _ _ _) = a
actor (leaves s a _ _ _) = a
actor (commands s a _ _ _) = a
actor (releases s a _ _) = a
actor (unlocks s a _ _) = a

-- The pool that redis_pool_create returns, before any thread uses it: a socket may be connected or not.
unfoldable pub untouched : (ℕ → SockState) → Shared
untouched states = record {
  cells = λ i. record { owner = none; inuse = false; state = states i };
  phases = λ a. idle;
  last_used = none;
}

-- The states that the threads can bring about.
pub data Reachable (n : ℕ) : Shared → Type 0 where
  initial : (states : ℕ → SockState) → Reachable n (untouched states)
  follows : (s t : Shared) → Reachable n s → Step n s t → Reachable n t
