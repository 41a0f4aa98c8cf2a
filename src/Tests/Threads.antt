-- ===== src/Tests/Threads.antt =====
-- The theorems on threads at an interleaving: thread 1 has been given socket 0 of two, and thread 0 has
-- just locked socket 1.
use hiredispool.Base.{none, ◌≤◌, ℕ, ◌*◌, ◌≡◌, ◌≢◌, refl, true, false, some, arith}
use hiredispool.Instance.{sockconnected}
use hiredispool.Threads.{
  trying, locked, claimed, checking, holding, releasing, Shared, goes, writes, next_of, start_of,
  begins, locks, claims, passes, grabs, untouched, Reachable, initial, releases, follows,
}
use hiredispool.Threads.Ownership.{uses, socket_of}
use hiredispool.Threads.Termination.{Run, stays, own, other, searches, search_bounded}
use hiredispool.Threads.Progress.{Alone, search_completes}
use hiredispool.Threads.Availability.{Spared, never_null}
use hiredispool.Threads.Exclusion.{nothing_left_behind, never_shared, lock_decides}

abbrev at_first : Shared
unfolding untouched
at_first = untouched (λ i. sockconnected)

abbrev begun : Shared
begun = goes at_first 1 (trying 0 0)

abbrev locked_first : Shared
locked_first = writes begun 1 0 (record (begun.cells 0) { owner = some 1 }) (locked 0 0)

abbrev claimed_first : Shared
claimed_first =
    writes locked_first 1 0 (record (locked_first.cells 0) { inuse = true }) (claimed 0 0)

abbrev checked_first : Shared
checked_first = writes claimed_first 1 0 (claimed_first.cells 0) (checking 0 0)

abbrev given_first : Shared
given_first = record (writes checked_first 1 0 (checked_first.cells 0) (holding 0)) {
  last_used = some 1;
}

abbrev second_begun : Shared
second_begun = goes given_first 0 (trying 1 1)

abbrev both : Shared
both = writes second_begun 0 1 (record (second_begun.cells 1) { owner = some 0 }) (locked 1 1)

given : Reachable 2 given_first
unfolding untouched next_of start_of
given =
    follows checked_first given_first
      (follows claimed_first checked_first
        (follows locked_first claimed_first
          (follows begun locked_first
            (follows at_first begun (initial (λ i. sockconnected))
              (begins at_first 1 refl (omega arith)))
            (locks begun 1 0 0 refl refl))
          (claims locked_first 1 0 0 refl refl))
        (passes claimed_first 1 0 0 refl))
      (grabs checked_first 1 0 0 refl refl)

second_reached : Reachable 2 second_begun
unfolding untouched start_of
second_reached = follows given_first second_begun given (begins given_first 0 refl (omega arith))

both_reached : Reachable 2 both
unfolding untouched
both_reached = follows second_begun both second_reached (locks second_begun 0 1 1 refl refl)

on_second : socket_of (both.phases 0) ≡ some 1
unfolding untouched socket_of
on_second = refl

never_shared_example : socket_of (both.phases 1) ≢ some 1
never_shared_example = never_shared 2 both 0 1 1 both_reached (omega arith) on_second

lock_decides_example :
    ((both.cells 0).owner ≡ some 1) × ((both.cells 0).inuse ≡ uses (both.phases 1))
unfolding untouched socket_of
lock_decides_example = lock_decides 2 both 1 0 both_reached refl

abbrev being_released : Shared
being_released =
    writes second_begun 1 0 (record (second_begun.cells 0) { inuse = false }) (releasing 0)

abbrev locked_second : Shared
locked_second =
    writes being_released 0 1 (record (being_released.cells 1) { owner = some 0 }) (locked 1 1)

-- Thread 1 begins to release its socket, and then thread 0 gets the lock of the other.
first_access : Run 2 0 1 second_begun locked_second
unfolding untouched searches
first_access =
    other second_begun being_released locked_second (releases second_begun 1 0 refl) (omega arith) (
      own being_released locked_second locked_second (locks being_released 0 1 1 refl refl) refl
        refl (stays locked_second))

search_bounded_example : 1 ≤ 5 * 2
unfolding untouched
search_bounded_example =
    search_bounded 2 0 1 1 second_begun locked_second second_reached refl first_access

search_completes_example :
    (k : ℕ) × (t : Shared) × Alone 2 0 k both t × (searches (t.phases 0) ≡ false) × (k ≤ 5 * 2)
search_completes_example = search_completes 2 0 both both_reached

-- Thread 1 has been given the first socket, and nobody has the second.
second_free : (a : ℕ) → socket_of (given_first.phases a) ≢ some 1
unfolding untouched socket_of
second_free a e = ground arith

nothing_left_behind_example :
    ((given_first.cells 1).owner ≡ none) × ((given_first.cells 1).inuse ≡ false)
nothing_left_behind_example = nothing_left_behind 2 given_first 1 given second_free

abbrev claimed_second : Shared
claimed_second =
    writes locked_second 0 1 (record (locked_second.cells 1) { inuse = true }) (claimed 1 1)

abbrev checked_second : Shared
checked_second = writes claimed_second 0 1 (claimed_second.cells 1) (checking 1 1)

abbrev given_second : Shared
given_second = record (writes checked_second 0 1 (checked_second.cells 1) (holding 1)) {
  last_used = next_of 2 1;
}

whole_search : Run 2 0 4 second_begun given_second
unfolding untouched searches
whole_search =
    other second_begun being_released given_second (releases second_begun 1 0 refl) (omega arith) (
      own being_released locked_second given_second (locks being_released 0 1 1 refl refl) refl refl
        (own locked_second claimed_second given_second (claims locked_second 0 1 1 refl refl) refl
          refl
          (own claimed_second checked_second given_second (passes claimed_second 0 1 1 refl) refl
            refl
            (own checked_second given_second given_second (grabs checked_second 0 1 1 refl refl)
              refl refl (stays given_second)))))

whole_search-Spared : Spared 1 whole_search
unfolding Spared whole_search untouched
whole_search-Spared = (refl, tt)

never_null_example : (i : ℕ) × (given_second.phases 0 ≡ holding i)
unfolding untouched searches
never_null_example =
    never_null 2 1 0 4 1 second_begun given_second whole_search second_reached refl (omega arith)
      refl refl whole_search-Spared refl
