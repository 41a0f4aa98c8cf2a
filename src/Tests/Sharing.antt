-- ===== src/Tests/Sharing.antt =====
-- The theorems on objects of the class Client: a thread is in a method of the client that has been made
-- for its command, once with an object for each of two threads, once with one for both.
use hiredispool.Base.{ℕ, ◌<◌, ◌≡◌, refl, arith}
use hiredispool.Client.Replies.Ownership.{times_freed}
use hiredispool.Ramcloud.Pointers.{nothing_made, construct, destroy, assign, add_ref, drop_ref}
use hiredispool.Ramcloud.Sharing.{
  ready, within, Usage, renew, turns, deletes, creates, calls, objects, unused, Reached, starts,
  turn,
}
use hiredispool.Ramcloud.Sharing.Lifetimes.{own_client_alive, shared_client_deleted}

-- `n` objects, and thread 0 in the client of object 0.
abbrev begun : ℕ → Usage
begun n = turns (unused n) 0 (assign 1 0 (renew 0 (unused n).refs)) ready

abbrev inside : ℕ → Usage
inside n = turns (begun n) 0 (begun n).refs (within n)

abbrev one_object : ℕ → ℕ
one_object a = 0

abbrev own_object : ℕ → ℕ
own_object a = a

one-Reached : Reached 1 one_object (inside 1)
unfolding unused objects nothing_made construct renew assign drop_ref add_ref
one-Reached =
    turn (begun 1) (inside 1)
      (turn (unused 1) (begun 1) starts (creates (unused 1) 0 refl (omega arith) refl))
      (calls (begun 1) 0 1 refl refl refl)

shared_client_deleted_example :
    (t : Usage) × Reached 1 one_object t
    × (t.doing 0 ≡ within 1)
    × (0 < times_freed t.refs.deleted 1)
unfolding unused objects nothing_made construct renew assign drop_ref add_ref
shared_client_deleted_example =
    shared_client_deleted 1 one_object (inside 1) 0 1 1 one-Reached refl (omega arith) refl refl
      refl refl refl

own-Reached : Reached 2 own_object (record (inside 2) { refs = destroy 0 (inside 2).refs })
unfolding unused objects nothing_made construct renew assign drop_ref add_ref
own-Reached =
    turn (inside 2) _
      (turn (begun 2) (inside 2)
        (turn (unused 2) (begun 2) starts (creates (unused 2) 0 refl (omega arith) refl))
        (calls (begun 2) 0 2 refl refl refl))
      (deletes (inside 2))

own_client_alive_example :
    let s = record (inside 2) { refs = destroy 0 (inside 2).refs } in
    (0 < s.refs.counts 2) × (times_freed s.refs.deleted 2 ≡ 0)
own_client_alive_example =
    own_client_alive 2 own_object (record (inside 2) { refs = destroy 0 (inside 2).refs }) 0 2
      (λ x y e. e) own-Reached refl
