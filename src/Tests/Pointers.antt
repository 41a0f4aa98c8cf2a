-- ===== src/Tests/Pointers.antt =====
-- The theorems on RedisClientPtr and on the RedisReplyPtr of the later client, each at a list of moves.
use hiredispool.Base.{List, [], ◌∷◌, ℕ, ◌+◌, ◌≤◌, ◌≡◌, ◌∙◌, sym, refl, Option, some, arith}
use hiredispool.Invariant.Frame.{some_inj}
use hiredispool.Client.Replies
use hiredispool.Client.Replies.Ownership.{owners, times_freed, Exclusive}
use hiredispool.Experimental.Packs
use hiredispool.Experimental.Packs.{Packs}
use hiredispool.Experimental.Packs.Owned.{IsFreed, packs_of, replies_freed_once}
use hiredispool.Ramcloud.Pointers.{
  Move, constructing, destroying, copying, assigning, nothing_made, perform_all,
}
use hiredispool.Ramcloud.Pointers.Counting.{IsCounted, perform_all-IsCounted}

abbrev moves : List Move
moves = constructing ∷ copying 0 ∷ constructing ∷ assigning 1 0 ∷ destroying 2 ∷ destroying 0 ∷ []

perform_all-IsCounted_example : IsCounted (perform_all moves nothing_made)
perform_all-IsCounted_example = perform_all-IsCounted moves

-- Pack `b` has the reply at `b + 10`; two pointers own two packs.
abbrev replies : ℕ → Option ℕ
replies b = some (b + 10)

abbrev packs : Packs
packs = record { reply = replies; pointers = some 1 ∷ some 2 ∷ []; deleted = []; freed = [] }

packs-Exclusive : Exclusive (packs_of packs)
unfolding owners times_freed
packs-Exclusive a = ground arith

packs-IsFreed : IsFreed replies packs
unfolding times_freed
packs-IsFreed = record { same = refl; as_often = λ b r e. refl }

-- The second pack goes to the first pointer, which is then destroyed.
abbrev hand_over : List Replies.Move
hand_over = Replies.assigning 0 1 ∷ Replies.destroying 0 ∷ []

replies_freed_once_example :
    let t = Packs.perform_all hand_over packs in
    (owners t.pointers 2 + times_freed t.freed 12
      ≡ owners packs.pointers 2 + times_freed packs.freed 12)
    × (owners t.pointers 2 + times_freed t.freed 12 ≤ 1)
replies_freed_once_example =
    replies_freed_once replies (λ b c r e f. omega (arith, some_inj (e ∙ sym f))) hand_over packs 2
      12 packs-IsFreed packs-Exclusive (omega arith, (tt, tt)) refl
