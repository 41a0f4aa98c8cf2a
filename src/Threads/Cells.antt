-- ===== src/Threads/Cells.antt =====
-- The cells of Threads as an account of the pool of Acquire and of its mutexes.
use hiredispool.Base.{
  ℕ, suc, ◌≡◌, ◌≢◌, ◌∙◌, inl, inr, refl, sym, ap, subst, Bool, Option, none, some, eq_cases, length,
  get_elem?, set, if◌then◌else◌, ◌==◌, ltb,
}
use hiredispool.Platform.{Platform}
use hiredispool.Instance.{SockState, Socket, Instance, next_of}
use hiredispool.Invariant.Frame.{At, some_inj, written_here, written_elsewhere}
use hiredispool.Acquire.{following}
use hiredispool.Threads
use hiredispool.Threads.{Cell, Phase, idle, trying, holding, Shared, moved_on}
use hiredispool.Threads.Locks.{MutexLaws}

pub cell_eq :
    {o o' : Option ℕ} {i i' : Bool} {q q' : SockState}
    → o ≡ o'
    → i ≡ i'
    → q ≡ q'
    → ◌≡◌ {A = Cell}
        (record { owner = o; inuse = i; state = q })
        (record { owner = o'; inuse = i'; state = q' })
cell_eq e f g = cc (e, f, g)

pub next_same :
    (n : ℕ) (s : Instance) (cur : ℕ)
    → length s.redis_pool ≡ n
    → Threads.next_of n cur ≡ next_of s cur
unfolding Threads.next_of
next_same n s cur e = ap (λ l. if ltb (suc cur) l then some (suc cur) else none) (sym e)

following_same :
    (n : ℕ) (s : Instance) (cur : ℕ)
    → length s.redis_pool ≡ n
    → Threads.start_of (Threads.next_of n cur) ≡ following s cur
unfolding Threads.start_of following
following_same n s cur e = ap Threads.start_of (next_same n s cur e)

pub moved_on-following :
    (n start : ℕ) (s : Instance) (cur : ℕ)
    → length s.redis_pool ≡ n
    → moved_on n start cur
      ≡ (if following s cur == start then idle else trying start (following s cur))
unfolding moved_on
moved_on-following n start s cur e =
    ap (λ m. if m == start then idle else trying start m) (following_same n s cur e)

module _ {W : Type 0} {p : Platform W} {a : ℕ} (laws : MutexLaws p a) where
  open laws use {owner}

  -- The cell of a socket.
  abbrev pub cell_of : W → Socket → Cell
  cell_of w x = record { owner = owner w x.id; inuse = x.inuse; state = x.state }

  -- What the threads share is what the pool and its mutexes are.
  abbrev pub Shows : Instance → W → Shared → Type 0
  Shows s w t = (i : ℕ) (x : Socket) → At s i x → t.cells i ≡ cell_of w x

  abbrev pub IsDistinct : Instance → Type 0
  IsDistinct s = (i j : ℕ) (x y : Socket) → At s i x → At s j y → x.id ≡ y.id → i ≡ j

  -- Socket `cur` has been written, and no mutex but its own has changed hands.
  pub record Wrote (s : Instance) (w : W) (cur : ℕ) (x y : Socket) (u : Instance) (v : W)
      : Type 0 where
    pub stored : u.redis_pool ≡ set s.redis_pool cur y
    pub same_id : y.id ≡ x.id
    pub others : (j : ℕ) → j ≢ x.id → owner v j ≡ owner w j

  module _ (s : Instance) (w : W) (cur : ℕ) {x : Socket} (y : Socket) (u : Instance) (v : W)
      (here : At s cur x) (wrote : Wrote s w cur x y u v) (distinct : IsDistinct s) where
    pub Wrote-Shows :
        (t to : Shared)
        → Shows s w t
        → to.cells cur ≡ cell_of v y
        → ((i : ℕ) → i ≢ cur → to.cells i ≡ t.cells i)
        → Shows u v to
    Wrote-Shows t to h cell elsewhere i z at = elim (eq_cases i cur) [
      | inl same ↦
          let same_socket : y ≡ z = some_inj (
            sym (written_here s u cur y here wrote.stored)
            ∙ ap (get_elem? u.redis_pool) (sym same)
            ∙ at) in
          ap to.cells same ∙ cell ∙ ap (cell_of v) same_socket
      | inr ne ↦
          let at' = sym (written_elsewhere s u cur y here wrote.stored i (λ e. ne (sym e))) ∙ at in
          let apart : z.id ≢ x.id = λ e. ne (distinct i cur z x at' here e) in
          elsewhere i ne
          ∙ h i z at'
          ∙ ap (λ o. record { owner = o; inuse = z.inuse; state = z.state })
              (sym (wrote.others z.id apart))
    ]

    id_before : (i : ℕ) (z : Socket) → At u i z → (z' : Socket) × At s i z' × (z'.id ≡ z.id)
    id_before i z at = elim (eq_cases i cur) [
      | inl same ↦
          let same_socket : y ≡ z = some_inj (
            sym (written_here s u cur y here wrote.stored)
            ∙ ap (get_elem? u.redis_pool) (sym same)
            ∙ at) in
          (x, subst (λ j. At s j x) (sym same) here, sym wrote.same_id ∙ ap (λ q. q.id) same_socket)
      | inr ne ↦
          (z, sym (written_elsewhere s u cur y here wrote.stored i (λ e. ne (sym e))) ∙ at, refl)
    ]

    pub Wrote-IsDistinct : IsDistinct u
    Wrote-IsDistinct i j z z' at at' e =
        let (q, b, f) = id_before i z at in
        let (q', b', f') = id_before j z' at' in distinct i j q q' b b' (f ∙ e ∙ sym f')
