-- ===== src/Contexts/Searching.antt =====
-- redis_get_socket and redis_release_socket neither leak a context nor free one twice.
use native.Mathlib.Decide.{ℕ_discrete}
use hiredispool.Base.{
  ℕ, inl, inr, refl, subst, zero, suc, get_elem?, length, All-get, some, Option-cases, false, arith,
}
use hiredispool.Platform.{Platform}
use hiredispool.Platform.Laws.{ContextLaws}
use hiredispool.Instance.{Socket, Instance}
use hiredispool.Invariant.{IsSocket, IsPool}
use hiredispool.Invariant.Frame.{At}
use hiredispool.Acquire.{
  Search, found, nothing, stuck, visit, following, scan, start_of, redis_get_socket,
  redis_release_socket,
}
use hiredispool.Acquire.Rounds.{Visited, visit-Visited}
use hiredispool.Acquire.Steps.{scan_taken, scan_end, scan_on, scan_lost, Visit-cases}
use hiredispool.Acquire.Effects.{Passed-IsPool}
use hiredispool.Acquire.Results.{get_null, get_scan}
use hiredispool.Acquire.Release.{release_some}
use hiredispool.Contexts.{held-set, Conserves}
use hiredispool.Contexts.Acquiring.{VisitConserves, visit_ledger}

module _ {W : Type 0} {p : Platform W} (laws : ContextLaws p) where
  open laws use {live}

  abbrev pub SearchConserves : Instance → W → Search W → Type 0
  SearchConserves s w (found i t v) = Conserves laws s w t v
  SearchConserves s w (nothing t v) = Conserves laws s w t v
  SearchConserves s w stuck = Unit

  SearchConserves-after :
      (s t : Instance) (w v : W) (o : Search W)
      → Conserves laws s w t v
      → SearchConserves t v o
      → SearchConserves s w o
  SearchConserves-after s t w v (found i u x) c d = λ a. omega (arith, c a, d a)
  SearchConserves-after s t w v (nothing u x) c d = λ a. omega (arith, c a, d a)
  SearchConserves-after s t w v stuck c d = tt

  scan_ledger :
      (n start cur : ℕ) (s : Instance) (w : W)
      → IsPool s
      → SearchConserves s w (scan p n start cur s w)
  unfolding scan
  scan_ledger zero start cur s w h = tt
  scan_ledger (suc n) start cur s w h = elim (Option-cases (get_elem? s.redis_pool cur)) [
    | inl e ↦ rw (scan_lost p n start cur s w e) tt
    | inr (x, a) ↦
        let f = All-get (IsSocket s.config) s.redis_pool cur h.sockets a in
        let l = visit_ledger laws s cur x w h.accepted.some_endpoint f a in
        let seen = visit-Visited p s cur x w a f in
        elim (Visit-cases (visit p s cur x w)) [
          | inl (t, v, q) ↦
              rw (scan_taken p n start cur s w a q) (subst (VisitConserves laws s w) q l)
          | inr (t, v, q) ↦
              let c = subst (VisitConserves laws s w) q l in
              elim (ℕ_discrete (following t cur) start) [
                | yes end ↦ rw (scan_end p n start cur s w a q end) c
                | no on ↦ rw (scan_on p n start cur s w a q on) (
                    SearchConserves-after s t w v _ c (
                      scan_ledger n start (following t cur) t v
                        (Passed-IsPool p s cur h a t (subst (Visited p s cur x) q seen))))
              ]
        ]
  ]

  -- The contexts that redis_get_socket makes and frees are those that the sockets of the pool gain
  -- and lose, whether it returns a socket or NULL.
  pub get_socket_contexts :
      (s : Instance) (w : W) → IsPool s → SearchConserves s w (redis_get_socket p s w)
  get_socket_contexts s w h = elim (Option-cases (start_of s)) [
    | inl e ↦ rw (get_null p s w e) (λ a. refl)
    | inr (start, e) ↦ rw (get_scan p s w e) (scan_ledger (length s.redis_pool) start start s w h)
  ]

  pub release_contexts :
      (s : Instance) (i : ℕ) (w : W) {x : Socket}
      → At s i x
      → let (t, v) = redis_release_socket p s (some i) w in Conserves laws s w t v
  release_contexts s i w {x} a = rw (release_some p s i w a) (λ b. omega (
    arith,
    held-set s.redis_pool i x (record x { inuse = false }) b a,
    laws.unlock_live x.id w b,
  ))
