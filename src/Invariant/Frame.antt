-- ===== src/Invariant/Frame.antt =====
-- Writing one socket of the list: what stays as it was, and that the pool stays well formed.
use native.Mathlib.Decide.{ℕ_discrete}
use hiredispool.Base.{
  ℕ, ◌≡◌, ◌≢◌, ◌∙◌, refl, ap, sym, subst, get_elem?, set, length, length-set, get_elem?-set_self,
  get_elem?-set_ne, lt-length, All, All-set, some,
}
use hiredispool.Config.Bounds.{IsAccepted}
use hiredispool.Instance.{Socket, Instance}
use hiredispool.Invariant.{IsSocket, IsPool, PointsInto}

-- `x` is socket `j` of the list.
abbrev pub At : Instance → ℕ → Socket → Type 0
At s j x = get_elem? s.redis_pool j ≡ some x

-- Socket `j` has kept its id and its `inuse`.
abbrev pub Same : Instance → Instance → ℕ → Type 0
Same s t j = (x : Socket) → At s j x → (y : Socket) × At t j y × (y.id ≡ x.id) × (y.inuse ≡ x.inuse)

-- The list, the configuration and the start of the next search are as they were, and every socket
-- has kept its id and its `inuse`.
pub record Kept (s t : Instance) : Type 0 where
  pub config : t.config ≡ s.config
  pub last_used : t.last_used ≡ s.last_used
  pub size : length t.redis_pool ≡ length s.redis_pool
  pub each : (j : ℕ) → Same s t j

pub Same-trans : (s t u : Instance) (j : ℕ) → Same s t j → Same t u j → Same s u j
Same-trans s t u j f g x a =
    let (y, b, i, n) = f x a in let (z, c, i', n') = g y b in (z, c, i' ∙ i, n' ∙ n)

pub some_inj {ℓ} : {A : Type ℓ} {x y : A} → some x ≡ some y → x ≡ y
some_inj e = cc

module _ (s t : Instance) (cur : ℕ) {x : Socket} (y : Socket) (a : At s cur x)
    (written : t.redis_pool ≡ set s.redis_pool cur y) where
  pub written_size : length t.redis_pool ≡ length s.redis_pool
  written_size = ap length written ∙ length-set s.redis_pool cur y

  pub written_here : At t cur y
  written_here =
      ap (λ l. get_elem? l cur) written
      ∙ get_elem?-set_self s.redis_pool cur y (lt-length s.redis_pool cur a)

  pub written_elsewhere : (j : ℕ) → cur ≢ j → get_elem? t.redis_pool j ≡ get_elem? s.redis_pool j
  written_elsewhere j ne =
      ap (λ l. get_elem? l j) written ∙ get_elem?-set_ne s.redis_pool cur j y ne

  pub written_others : (j : ℕ) → cur ≢ j → Same s t j
  written_others j ne z b = (z, written_elsewhere j ne ∙ b, refl, refl)

  pub written_Same : y.id ≡ x.id → y.inuse ≡ x.inuse → (j : ℕ) → Same s t j
  written_Same i n j = elim (ℕ_discrete cur j) [
    | no ne ↦ written_others j ne
    | yes e ↦ λ z b.
        let same : x ≡ z = some_inj (sym a ∙ ap (get_elem? s.redis_pool) e ∙ b) in
        (
          y,
          subst (λ q. At t q y) e written_here,
          i ∙ ap (λ q. q.id) same,
          n ∙ ap (λ q. q.inuse) same,
        )
  ]

  pub written_IsPool :
      IsPool s
      → t.config ≡ s.config
      → IsSocket s.config y
      → PointsInto (length s.redis_pool) t.last_used
      → IsPool t
  written_IsPool h c f p = record {
    accepted = subst IsAccepted (sym c) h.accepted;
    sockets =
        subst (λ q. All (IsSocket q) t.redis_pool) (sym c)
          (subst (All (IsSocket s.config)) (sym written)
            (All-set (IsSocket s.config) s.redis_pool cur y h.sockets f));
    pointer = subst (λ n. PointsInto n t.last_used) (sym written_size) p;
  }
