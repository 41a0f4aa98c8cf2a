-- ===== src/Acquire/Scan.antt =====
-- The search of redis_get_socket: it goes once round the list from where the last one ended, stops
-- at the first socket to be had, and gives up only after every socket was refused.
use native.Mathlib.Nat.{mod-lt, mod-eq_of_lt, mod_self}
use native.Mathlib.Decide.{dec_lt}
use hiredispool.Base.{
  ℕ, zero, suc, ◌+◌, ◌%◌, ◌<◌, ◌≤◌, ◌≡◌, ◌≢◌, inl, inr, ◌∙◌, ap, sym, subst, get_elem?, length,
  get_elem?-of_lt, All-get, none, some, arith, ltb, if◌then◌else◌,
}
use hiredispool.Platform.{Platform}
use hiredispool.Instance.{Socket, Instance}
use hiredispool.Connect.Ring.{ring_step, ring_stay, ring_other}
use hiredispool.Invariant.{IsSocket, IsPool}
use hiredispool.Invariant.Frame.{At, Kept, Same-trans, written_elsewhere}
use hiredispool.Acquire.Rounds.{Grace, Refused, Refused-later, Won, Visited, visit-Visited}
use hiredispool.Acquire.Effects.{Got, pool_written, Passed-Kept, Passed-IsPool, Won-Got, Won-IsPool}
use hiredispool.Acquire.Steps.{scan_taken, scan_end, scan_on, Visit-cases}
use hiredispool.Acquire.{taken, Search, found, nothing, stuck, following, visit, scan}

following_lem :
    (s : Instance) (cur : ℕ)
    → cur < length s.redis_pool
    → following s cur ≡ (cur + 1) % length s.redis_pool
unfolding following
following_lem s cur h = elim (dec_lt (suc cur) (length s.redis_pool)) [
  | yes more ↦
      ground (arith, mod-eq_of_lt (let f : cur + 1 < length s.redis_pool = omega arith in f))
  | no last ↦
      let e : cur + 1 ≡ length s.redis_pool = omega arith in
      ground (arith, mod_self (length s.redis_pool))
]

module _ {W : Type 0} (p : Platform W) where
  abbrev pub RefusedAt : Instance → ℕ → Type 0
  RefusedAt s j = (x : Socket) × At s j x × Refused p s x

  -- What `m + 1` rounds from position `cur` in a list of `n` come to.
  abbrev pub Searched : ℕ → ℕ → ℕ → Instance → Search W → Type 0
  Searched n m cur s (found i t v) =
      (d : ℕ) × (d ≤ m)
      × (i ≡ (cur + d) % n)
      × Got s i t
      × IsPool t
      × ((e : ℕ) → e < d → RefusedAt s ((cur + e) % n))
  Searched n m cur s (nothing t v) =
      Kept s t × IsPool t × ((e : ℕ) → e ≤ m → RefusedAt s ((cur + e) % n))
  Searched n m cur s stuck = ⊥

  -- A round at `cur` that went on, before the rounds that follow it.
  module _ (s t : Instance) (n cur : ℕ) (kept : Kept s t) (grace : Grace p s t.connect_after)
      (lt : cur < n)
      (elsewhere : (j : ℕ) → cur ≢ j → get_elem? t.redis_pool j ≡ get_elem? s.redis_pool j) where
    ahead_ne : (e : ℕ) → suc e < n → cur ≢ (cur + suc e) % n
    ahead_ne e h q = ring_other cur (suc e) n lt (omega arith) h (sym q)

    RefusedAt-back : (j : ℕ) → cur ≢ j → RefusedAt t j → RefusedAt s j
    RefusedAt-back j ne (x, a, r) =
        (x, sym (elsewhere j ne) ∙ a, Refused-later p s t kept.config grace x r)

    Got-back : (i : ℕ) (u : Instance) → cur ≢ i → Got t i u → Got s i u
    Got-back i u ne g = record {
      config = g.config ∙ kept.config;
      last_used = g.last_used ∙ ap (λ l. if ltb (suc i) l then some (suc i) else none) kept.size;
      size = g.size ∙ kept.size;
      before = (g.before.0, sym (elsewhere i ne) ∙ g.before.1, g.before.2);
      after = g.after;
      others = λ j nj. Same-trans s t u j (kept.each j) (g.others j nj);
    }

    refused_round :
        (m : ℕ)
        → m < n
        → RefusedAt s cur
        → ((e : ℕ) → e < m → RefusedAt t (((cur + 1) % n + e) % n))
        → (e : ℕ) → e < suc m
        → RefusedAt s ((cur + e) % n)
    refused_round m mn now later zero le = subst (RefusedAt s) (sym (ring_stay cur n lt)) now
    refused_round m mn now later (suc e) le =
        RefusedAt-back ((cur + suc e) % n) (ahead_ne e (omega arith))
          (subst (RefusedAt t) (ring_step cur e n) (later e (omega arith)))

    Searched-back :
        (m : ℕ) (o : Search W)
        → suc m < n
        → RefusedAt s cur
        → Searched n m ((cur + 1) % n) t o
        → Searched n (suc m) cur s o
    Searched-back m (found i u v) mn now (d, le, e, g, h, misses) = (
      suc d,
      omega arith,
      e ∙ ring_step cur d n,
      Got-back i u (subst (λ j. cur ≢ j) (sym (e ∙ ring_step cur d n)) (ahead_ne d (omega arith)))
          g,
      h,
      refused_round d (omega arith) now misses,
    )
    Searched-back m (nothing u v) mn now (k, h, misses) = (
      record {
        config = k.config ∙ kept.config;
        last_used = k.last_used ∙ kept.last_used;
        size = k.size ∙ kept.size;
        each = λ j. Same-trans s t u j (kept.each j) (k.each j);
      },
      h,
      λ e le. refused_round (suc m) mn now (λ i li. misses i (omega arith)) e (omega arith),
    )
    Searched-back m stuck mn now o = o

  -- The position after `cur`, seen from the pool that the round leaves.
  following_after :
      (s t : Instance) (cur n : ℕ)
      → n ≡ length s.redis_pool
      → cur < n
      → Kept s t
      → following t cur ≡ (cur + 1) % n
  following_after s t cur n len lt k =
      following_lem t cur (omega (arith, k.size)) ∙ ap (λ l. (cur + 1) % l) (k.size ∙ sym len)

  scan-Won :
      (m n start cur : ℕ) (s : Instance) (w : W) {x : Socket} {t : Instance} {v : W}
      → IsPool s
      → cur < n
      → At s cur x
      → visit p s cur x w ≡ taken t v
      → Won p s cur x t
      → Searched n m cur s (scan p (suc m) start cur s w)
  scan-Won m n start cur s w {t = t} h lt a e g = rw (scan_taken p m start cur s w a e) (
    0,
    omega arith,
    sym (ring_stay cur n lt),
    Won-Got p s cur h a t g,
    Won-IsPool p s cur h a t g,
    λ j l. absurd (omega arith),
  )

  pub scan-Searched :
      (m n start cur : ℕ) (s : Instance) (w : W)
      → IsPool s
      → n ≡ length s.redis_pool
      → cur < n
      → m < n
      → start ≡ (cur + suc m) % n
      → Searched n m cur s (scan p (suc m) start cur s w)
  scan-Searched zero n start cur s w h len lt mn e =
      let (x, a) = get_elem?-of_lt s.redis_pool cur (omega arith) in
      let seen =
        visit-Visited p s cur x w a (All-get (IsSocket s.config) s.redis_pool cur h.sockets a) in
      elim (Visit-cases (visit p s cur x w)) [
        | inl (t, v, q) ↦ scan-Won zero n start cur s w h lt a q (subst (Visited p s cur x) q seen)
        | inr (t, v, q) ↦
            let g = subst (Visited p s cur x) q seen in
            let k = Passed-Kept p s cur h a t g in
            rw (scan_end p zero start cur s w a q (following_after s t cur n len lt k ∙ sym e)) (
              k,
              Passed-IsPool p s cur h a t g,
              λ j l.
                  let z : j ≡ 0 = omega arith in
                  subst (λ i. RefusedAt s ((cur + i) % n)) (sym z)
                    (subst (RefusedAt s) (sym (ring_stay cur n lt)) (x, a, g.refused)),
            )
      ]
  scan-Searched (suc m) n start cur s w h len lt mn e =
      let (x, a) = get_elem?-of_lt s.redis_pool cur (omega arith) in
      let seen =
        visit-Visited p s cur x w a (All-get (IsSocket s.config) s.redis_pool cur h.sockets a) in
      elim (Visit-cases (visit p s cur x w)) [
        | inl (t, v, q) ↦
            scan-Won (suc m) n start cur s w h lt a q (subst (Visited p s cur x) q seen)
        | inr (t, v, q) ↦
            let g = subst (Visited p s cur x) q seen in
            let k = Passed-Kept p s cur h a t g in
            let f : following t cur ≡ (cur + 1) % n = following_after s t cur n len lt k in
            let below : (cur + 1) % n < n = mod-lt (cur + 1) (omega arith) in
            let e' : start ≡ ((cur + 1) % n + suc m) % n = e ∙ sym (ring_step cur (suc m) n) in
            rw
              (scan_on p (suc m) start cur s w a q (λ r.
                ring_other ((cur + 1) % n) (suc m) n below (omega arith) mn (sym e' ∙ sym r ∙ f)))
              (Searched-back s t n cur k g.grace lt
                (written_elsewhere s t cur g.sock a (pool_written p s cur h a t g)) m _ mn
                (x, a, g.refused)
                (subst (λ c. Searched n m ((cur + 1) % n) t (scan p (suc m) start c t v)) (sym f)
                  (scan-Searched m n start ((cur + 1) % n) t v (Passed-IsPool p s cur h a t g)
                    (len ∙ sym k.size) below (omega arith) e')))
      ]
