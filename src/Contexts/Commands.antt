-- ===== src/Contexts/Commands.antt =====
-- redis_vcommand neither leaks a context nor frees one that the pool does not hold.
use hiredispool.Base.{
  ℕ, ◌+◌, ◌<◌, ◌≤◌, ◌≡◌, inl, inr, ap, zero, suc, get_elem?, List, [], ◌∷◌, All-get, some, Option,
  none, arith, ℤ,
}
use hiredispool.Config.{Config, count_of}
use hiredispool.Platform.{Platform}
use hiredispool.Platform.Laws.{ContextLaws, at_address}
use hiredispool.Instance.{Socket, Instance, store}
use hiredispool.Connect.Contexts.{connect_contexts}
use hiredispool.Invariant.{IsSocket, IsPool}
use hiredispool.Invariant.Frame.{At}
use hiredispool.Command.{vcommand, redis_vcommand}
use hiredispool.Command.Results.{reconnection, vcommand_cases}
use hiredispool.Command.Effects.{redis_vcommand-At}
use hiredispool.Contexts.{held, held-set, Balanced, Balanced-step}

pub at_address-le-held :
    (xs : List Socket) (i : ℕ) (x : Socket) (a : ℕ)
    → get_elem? xs i ≡ some x
    → at_address x.conn a ≤ held xs a
unfolding held
at_address-le-held [] i x a e = cc
at_address-le-held (y ∷ xs) zero x a e = ground arith
at_address-le-held (y ∷ xs) (suc i) x a e = omega (arith, at_address-le-held xs i x a e)

module _ {W : Type 0} {p : Platform W} (laws : ContextLaws p) where
  open laws use {live}

  -- Freeing a context that is live, or NULL.
  pub free_ledger :
      (c : Option ℕ) (w : W)
      → ((a : ℕ) → at_address c a ≤ live w a)
      → (a : ℕ) → live (p.redis_free c w) a + at_address c a ≡ live w a
  free_ledger none w h a = omega (arith, laws.free_null w a)
  free_ledger (some c) w h a = laws.free_live c w a (ground (arith, h c))

  module _ (k : Config) (after : ℤ) (x : Socket) (cmd : List ℕ) (w : W) (many : 0 < count_of k)
      (owned : (a : ℕ) → at_address x.conn a ≤ live w a) where
    -- The old context has been freed and the socket holds what reconnecting has made.
    reconnection_ledger :
        (a : ℕ)
        → let r = reconnection p k after x cmd w in
          live r.world a + at_address x.conn a ≡ live w a + at_address r.sock.conn a
    reconnection_ledger a =
        let v = (p.redisv_command x.conn cmd w).1 in
        omega (
          arith,
          connect_contexts laws k after x (p.redis_free x.conn v) many a,
          free_ledger x.conn v (λ b. omega (arith, owned b, laws.command_live x.conn cmd w b)) a,
          laws.command_live x.conn cmd w a,
        )

    vcommand_ledger :
        (a : ℕ)
        → x.backup < count_of k
        → let r = vcommand p k after x cmd w in
          live r.world a + at_address x.conn a ≡ live w a + at_address r.sock.conn a
    vcommand_ledger a h = elim (vcommand_cases p k after x cmd w h) [
      | inl r ↦ omega (
        arith,
        ap (λ v. live v a) r.world,
        ap (λ y. at_address y.conn a) r.sock,
        laws.command_live x.conn cmd w a,
      )
      | inr (inl r) ↦ omega (
        arith,
        ap (λ v. live v a) r.world,
        ap (λ y. at_address y.conn a) r.sock,
        reconnection_ledger a,
      )
      | inr (inr r) ↦
          let c = reconnection p k after x cmd w in
          omega (
            arith,
            ap (λ v. live v a) r.world,
            ap (λ y. at_address y.conn a) r.sock,
            laws.command_live c.sock.conn cmd c.world a,
            reconnection_ledger a,
          )
    ]

  -- A command keeps the books balanced: where the first attempt fails, the context of the socket is
  -- freed, once, and the socket holds the one that is made in its place, if one is made.
  pub redis_vcommand_contexts :
      (f : ℕ → ℕ) (s : Instance) (i : ℕ) (cmd : List ℕ) (w : W) {x : Socket}
      → IsPool s
      → At s i x
      → Balanced laws f s w
      → let (_, t, v) = redis_vcommand p s i cmd w in Balanced laws f t v
  redis_vcommand_contexts f s i cmd w {x} h a b =
      let r = vcommand p s.config s.connect_after x cmd w in
      let t = record (store s i r.sock) { connect_after = r.connect_after } in
      let g = All-get (IsSocket s.config) s.redis_pool i h.sockets a in
      rw (redis_vcommand-At p s i cmd w a) (
        Balanced-step laws f s w t r.world
          (λ c. omega (
            arith,
            held-set s.redis_pool i x r.sock c a,
            vcommand_ledger s.config s.connect_after x cmd w h.accepted.some_endpoint
                (λ d. omega (arith, b d, at_address-le-held s.redis_pool i x d a)) c g.backup_lt,
          ))
          b)
