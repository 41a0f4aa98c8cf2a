-- ===== src/Threads/Refinement.antt =====
-- The search of Acquire, where one thread runs while the others do not, is an execution of Threads.
use hiredispool.Base.{
  ℕ, zero, suc, ◌<◌, ◌≡◌, ◌∙◌, inl, inr, ap, subst, Bool-cases, some, Option-cases, arith, length,
  get_elem?, if◌then◌else◌, ◌==◌, All-get, ◌<◌,
}
use hiredispool.Config.{count_of}
use hiredispool.Platform.{Platform}
use hiredispool.Instance.{Instance}
use hiredispool.Invariant.{IsSocket, IsPool}
use hiredispool.Acquire.{Search, found, nothing, stuck, visit, scan, following, redis_get_socket}
use hiredispool.Acquire.Steps.{Visit-cases, scan_taken, scan_end, scan_on, scan_lost}
use hiredispool.Acquire.Rounds.{Visited, visit-Visited}
use hiredispool.Acquire.Effects.{Passed-Kept, Passed-IsPool}
use hiredispool.Threads.{Phase, idle, trying, holding, Shared}
use hiredispool.Threads.Locks.{MutexLaws}
use hiredispool.Threads.Simulation.{Runs, Runs-trans}
use hiredispool.Threads.Cells.{moved_on-following, Shows, IsDistinct}
use hiredispool.Threads.Rounds.{Agrees, VisitAgrees, visit-Agrees}
use hiredispool.Acquire.{start_of}
use hiredispool.Acquire.Results.{Answers, get_scan, get_socket-Answers}

module _ {W : Type 0} {p : Platform W} {a : ℕ} (laws : MutexLaws p a) where
  -- How the loop ends.
  abbrev pub SearchAgrees : ℕ → Shared → Search W → Type 0
  SearchAgrees n t (found i u v) = Agrees laws n t (holding i) u v
  SearchAgrees n t (nothing u v) = Agrees laws n t idle u v
  SearchAgrees n t stuck = Unit

  Agrees-trans :
      (n : ℕ) (t t1 : Shared) (q : Phase) (u : Instance) (v : W)
      → Runs n a t t1
      → Agrees laws n t1 q u v
      → Agrees laws n t q u v
  Agrees-trans n t t1 q u v r g = record {
    to = g.to;
    runs = Runs-trans n a t t1 g.to r g.runs;
    phase = g.phase;
    shows = g.shows;
    last = g.last;
    distinct = g.distinct;
  }

  SearchAgrees-trans :
      (n : ℕ) (t t1 : Shared) (o : Search W)
      → Runs n a t t1
      → SearchAgrees n t1 o
      → SearchAgrees n t o
  SearchAgrees-trans n t t1 (found i u v) r g = Agrees-trans n t t1 (holding i) u v r g
  SearchAgrees-trans n t t1 (nothing u v) r g = Agrees-trans n t t1 idle u v r g
  SearchAgrees-trans n t t1 stuck r g = tt

  scan-Agrees :
      (fuel n start cur : ℕ) (s : Instance) (w : W) (t : Shared)
      → Shows laws s w t
      → t.last_used ≡ s.last_used
      → IsDistinct laws s
      → IsPool s
      → length s.redis_pool ≡ n
      → t.phases a ≡ trying start cur
      → SearchAgrees n t (scan p fuel start cur s w)
  unfolding scan
  scan-Agrees zero n start cur s w t h last distinct pool len at_start = tt
  scan-Agrees (suc fuel) n start cur s w t h last distinct pool len at_start =
      elim (Option-cases (get_elem? s.redis_pool cur)) [
        | inl e ↦ rw (scan_lost p fuel start cur s w e) tt
        | inr (x, here) ↦
            let formed = All-get (IsSocket s.config) s.redis_pool cur pool.sockets here in
            let some_endpoint : 0 < count_of s.config = omega (arith, formed.backup_lt) in
            let round =
              visit-Agrees laws n start cur s w t h last distinct here at_start formed len
                some_endpoint in
            let seen = visit-Visited p s cur x w here formed in
            elim (Visit-cases (visit p s cur x w)) [
              | inl (u, v, q) ↦
                  rw (scan_taken p fuel start cur s w here q)
                    (subst (VisitAgrees laws n start cur t) q round)
              | inr (u, v, q) ↦
                  let g = subst (VisitAgrees laws n start cur t) q round in
                  let passed = subst (Visited p s cur x) q seen in
                  let long = (Passed-Kept p s cur pool here u passed).size ∙ len in
                  let next = moved_on-following n start u cur long in
                  elim (Bool-cases (following u cur == start)) [
                    | inl stop ↦
                        let end =
                          next
                          ∙ ap (λ b. if b then idle else trying start (following u cur)) stop in
                        rw (scan_end p fuel start cur s w here q (ground arith))
                          (subst (λ r. Agrees laws n t r u v) end g)
                    | inr more ↦
                        let on =
                          next
                          ∙ ap (λ b. if b then idle else trying start (following u cur)) more in
                        rw (scan_on p fuel start cur s w here q (λ e. ground arith)) (
                          SearchAgrees-trans n t g.to _ g.runs (
                            scan-Agrees fuel n start (following u cur) u v g.to g.shows g.last
                              g.distinct (Passed-IsPool p s cur pool here u passed) long
                              (g.phase ∙ on)))
                  ]
            ]
      ]

  -- The same, for a search that ends.
  abbrev pub Performs : ℕ → Shared → Search W → Type 0
  Performs n t (found i u v) = Agrees laws n t (holding i) u v
  Performs n t (nothing u v) = Agrees laws n t idle u v
  Performs n t stuck = ⊥

  answered :
      (n : ℕ) (s : Instance) (t : Shared) (o : Search W)
      → Answers p s o
      → SearchAgrees n t o
      → Performs n t o
  answered n s t (found i u v) k g = g
  answered n s t (nothing u v) k g = g
  answered n s t stuck k g = k

  -- What the threads share is what a well-formed pool of `n` sockets and its mutexes are, and a thread has
  -- just read `last_used`. Where that thread runs redis_get_socket while the others do nothing, and the
  -- mutexes are what pthreads say they are, then the search as Acquire has it ends, and there is an
  -- execution of the accesses of that thread that ends the same way: with the same socket, or with NULL,
  -- and with the pool, its mutexes and `last_used` as the search leaves them.
  pub get_socket-Performs :
      (n start : ℕ) (s : Instance) (w : W) (t : Shared)
      → IsPool s
      → IsDistinct laws s
      → length s.redis_pool ≡ n
      → Shows laws s w t
      → t.last_used ≡ s.last_used
      → start_of s ≡ some start
      → t.phases a ≡ trying start start
      → Performs n t (redis_get_socket p s w)
  get_socket-Performs n start s w t pool distinct len h last from at_start =
      answered n s t (redis_get_socket p s w) (get_socket-Answers p s w pool) (
        rw (get_scan p s w from)
          (scan-Agrees (length s.redis_pool) n start start s w t h last distinct pool len at_start))
