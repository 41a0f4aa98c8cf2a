-- ===== src/Instance.antt =====
-- REDIS_SOCKET and REDIS_INSTANCE of hiredispool.h. The linked list `redis_pool` is a list, and a
-- pointer to one of its sockets is the position of the socket in it: the list is built once, and
-- from then on no link changes. `none` is the NULL pointer.
use hiredispool.Base.{
  ◌≡◌, ◌⊎◌, inl, inr, refl, ℕ, zero, suc, Bool, Option, none, some, List, [], ◌∷◌, set, length, ltb,
  if◌then◌else◌, ℤ,
}
use hiredispool.Config.{Config}

pub data SockState : Type 0 where
  sockunconnected sockconnected : SockState

pub SockState-cases : (t : SockState) → (t ≡ sockunconnected) ⊎ (t ≡ sockconnected)
SockState-cases sockunconnected = inl refl
SockState-cases sockconnected = inr refl

-- The mutex of a socket is part of the platform's world, under the socket's id.
pub record Socket : Type 0 where
  pub id : ℕ
  pub backup : ℕ
  pub inuse : Bool
  pub state : SockState
  pub conn : Option ℕ

pub record Instance : Type 0 where
  pub connect_after : ℤ
  pub redis_pool : List Socket
  pub last_used : Option ℕ
  pub config : Config

-- `cur->next`
abbrev pub next_of : Instance → ℕ → Option ℕ
next_of s cur = if ltb (suc cur) (length s.redis_pool) then some (suc cur) else none

-- `inst->redis_pool`, as a pointer to the first socket
abbrev pub head_pointer : List Socket → Option ℕ
head_pointer [] = none
head_pointer (x ∷ xs) = some zero

-- A write through the pointer to socket `cur`.
abbrev pub store : Instance → ℕ → Socket → Instance
store s cur x = record s { redis_pool = set s.redis_pool cur x }
