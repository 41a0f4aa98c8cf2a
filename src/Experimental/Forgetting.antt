-- ===== src/Experimental/Forgetting.antt =====
-- The pool of experimental/redisclient/hiredispool.c against that of hiredispool.c: what is left of it
-- where the last errors are forgotten.
pub mod Searching
pub mod Commands
use hiredispool.Base.{
  ℕ, zero, suc, ◌≡◌, inl, inr, ◌∙◌, refl, sym, ap, subst, Bool, true, false, Bool-cases, Option,
  none, some, Option-cases, List, [], ◌∷◌, map, set, get_elem?, length, ltb, ◌==◌, if◌then◌else◌, ℤ,
  pos, ltb_ℤ, is_zero, arith,
}
use hiredispool.Config.{Config, count_of}
use hiredispool.Platform.{Platform}
use hiredispool.Instance
use hiredispool.Instance.{
  SockState, sockunconnected, sockconnected, SockState-cases, Socket, Instance,
}
use hiredispool.Connect
use hiredispool.Connect.{Connected, Outcome, established, exhausted, connect_loop}
use hiredispool.Acquire
use hiredispool.Acquire.{Visit, Search, taken, skipped, found, nothing, stuck}
use hiredispool.Experimental.{
  ErrSocket, ErrInstance, Hiredis, ErrConnected, next_of, store, with_sock, finish,
  connect_single_socket,
}
use hiredispool.Experimental.Acquire.{
  following, start_from, reconnect, grab, visit, scan, redis_get_socket, redis_release_socket,
}

abbrev pub forget_sock : ErrSocket → Socket
forget_sock y = y.sock

-- The pool without the last errors.
abbrev pub forget : ErrInstance → Instance
forget s = record {
  connect_after = s.connect_after;
  redis_pool = map forget_sock s.redis_pool;
  last_used = s.last_used;
  config = s.config;
}

abbrev pub forget_connected : {W : Type 0} → ErrConnected W → Connected W
forget_connected r = record {
  rc = r.rc;
  sock = r.sock.sock;
  connect_after = r.connect_after;
  world = r.world;
}

abbrev pub forget_visit : {W : Type 0} → Bool × ErrInstance × W → Visit W
forget_visit (true, s, w) = taken (forget s) w
forget_visit (false, s, w) = skipped (forget s) w

abbrev pub forget_search : {W : Type 0} → Option (Option ℕ × ErrInstance × W) → Search W
forget_search none = stuck
forget_search (some (none, s, w)) = nothing (forget s) w
forget_search (some (some i, s, w)) = found i (forget s) w

abbrev pub forget_two : {W : Type 0} → ErrInstance × ErrSocket × W → Instance × Socket × W
forget_two (s, y, w) = (forget s, y.sock, w)

pub length-forget : (ys : List ErrSocket) → length (map forget_sock ys) ≡ length ys
length-forget [] = refl
length-forget (y ∷ ys) = ap suc (length-forget ys)

set-forget :
    (ys : List ErrSocket) (i : ℕ) (y : ErrSocket)
    → map forget_sock (set ys i y) ≡ set (map forget_sock ys) i y.sock
set-forget [] i y = refl
set-forget (z ∷ ys) zero y = refl
set-forget (z ∷ ys) (suc i) y = ap (◌∷◌ z.sock) (set-forget ys i y)

pub get_elem?-forget_some :
    (ys : List ErrSocket) (i : ℕ) (y : ErrSocket)
    → get_elem? ys i ≡ some y
    → get_elem? (map forget_sock ys) i ≡ some y.sock
get_elem?-forget_some [] i y e = cc
get_elem?-forget_some (z ∷ ys) zero y e = ground arith
get_elem?-forget_some (z ∷ ys) (suc i) y e = get_elem?-forget_some ys i y e

pub get_elem?-forget_none :
    (ys : List ErrSocket) (i : ℕ) → get_elem? ys i ≡ none → get_elem? (map forget_sock ys) i ≡ none
get_elem?-forget_none [] i e = refl
get_elem?-forget_none (z ∷ ys) zero e = cc
get_elem?-forget_none (z ∷ ys) (suc i) e = get_elem?-forget_none ys i e

pub forget-store :
    (s : ErrInstance) (i : ℕ) (y : ErrSocket)
    → forget (store s i y) ≡ Instance.store (forget s) i y.sock
unfolding store
forget-store s i y = ap (λ xs. record (forget s) { redis_pool = xs }) (set-forget s.redis_pool i y)

pub next_of-forget : (s : ErrInstance) (i : ℕ) → Instance.next_of (forget s) i ≡ next_of s i
unfolding next_of
next_of-forget s i =
    ap (λ n. if ltb (suc i) n then some (suc i) else none) (length-forget s.redis_pool)

pub following-forget : (s : ErrInstance) (i : ℕ) → Acquire.following (forget s) i ≡ following s i
unfolding following Acquire.following
following-forget s i = ap (λ o. elim o as (λ _. ℕ) [ none ↦ 0 | some j ↦ j ]) (next_of-forget s i)

pub start_of-forget :
    (s : ErrInstance) → Acquire.start_of (forget s) ≡ start_from s.last_used s.redis_pool
unfolding Acquire.start_of start_from
start_of-forget s = starts s.last_used s.redis_pool
  where
    starts :
        (o : Option ℕ) (ys : List ErrSocket)
        → Acquire.start_from o (map forget_sock ys) ≡ start_from o ys
    starts none [] = refl
    starts none (y ∷ ys) = refl
    starts (some i) ys = refl

module _ {W : Type 0} (t : Hiredis W) where
  pub connect-forget :
      (k : Config) (after : ℤ) (y : ErrSocket) (w : W)
      → forget_connected (connect_single_socket t k after y w)
        ≡ Connect.connect_single_socket t.platform k after y.sock w
  unfolding connect_single_socket Connect.connect_single_socket finish Connect.finish
  connect-forget k after y w = finishes (connect_loop t.platform (count_of k) k y.sock w)
    where
      finishes :
          (o : Outcome W)
          → forget_connected (finish t k after y o) ≡ Connect.finish t.platform k after o
      finishes (established c x v) = refl
      finishes (exhausted c x v) = refl
