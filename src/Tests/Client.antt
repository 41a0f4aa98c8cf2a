-- ===== src/Tests/Client.antt =====
-- The theorems on RedisClient, each at an input that exercises it.
use hiredispool.Base.{ℕ, List, [], ◌∷◌, some, none, arith}
use hiredispool.Client.Replies.{
  Replies, Move, destroying, assigning, assigning_ref, perform, assign, assign_ref, destroy,
  release, member, free_reply_object, same_reply,
}
use hiredispool.Client.Replies.Ownership.{owners, times_freed, Exclusive, AllInScope}

abbrev commands : List (List ℕ)
commands = (1 ∷ []) ∷ (2 ∷ 3 ∷ []) ∷ []

abbrev replies : Replies
replies = record { pointers = some 7 ∷ none ∷ some 8 ∷ []; freed = 9 ∷ [] }

abbrev moves : List Move
moves = assigning 0 2 ∷ assigning_ref 1 0 ∷ destroying 1 ∷ []

replies-Exclusive : Exclusive replies
unfolding owners times_freed
replies-Exclusive = λ a. ground arith

moves-AllInScope : AllInScope moves replies
unfolding perform assign assign_ref destroy release member free_reply_object same_reply
moves-AllInScope = (omega arith, (omega arith, (tt, tt)))
