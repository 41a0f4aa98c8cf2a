-- ===== src/Ramcloud/Indices.antt =====
-- The loops of RedisClientYaf.cpp over the elements of a reply, by their index.
use hiredispool.Base.{
  ℕ, zero, suc, ◌+◌, ◌≤◌, ◌<◌, ◌≡◌, refl, none, some, List, get_elem?, get_elem?-of_lt, length,
  arith,
}
use hiredispool.Ramcloud.{Reply, Access, reads, null_pointer, past_end}

-- What goes on with what has been read.
unfoldable pub and_then {ℓ κ} : {A : Type ℓ} {B : Type κ} → Access A → (A → Access B) → Access B
and_then (reads a) f = f a
and_then null_pointer f = null_pointer
and_then past_end f = past_end

-- `reply->element[i]`
unfoldable pub element_at : List Reply → ℕ → Access Reply
element_at es i = elim (get_elem? es i) [ none ↦ past_end | some e ↦ reads e ]

-- `for (unsigned i = ...; ...; ++i)`, with `n` rounds to go, over what the loop writes.
unfoldable pub for_elements {ℓ} : {S : Type ℓ} → (ℕ → S → Access S) → ℕ → ℕ → S → Access S
for_elements body zero i s = reads s
for_elements body (suc n) i s = elim (body i s) [
  | reads t ↦ for_elements body n (i + 1) t
  | null_pointer ↦ null_pointer
  | past_end ↦ past_end
]

-- The reading ends in a value.
abbrev pub Reads {ℓ} : {A : Type ℓ} → Access A → Type ℓ
Reads {A} a = (v : A) × (a ≡ reads v)

pub and_then-Reads {ℓ κ} :
    {A : Type ℓ} {B : Type κ} (a : Access A) (f : A → Access B)
    → Reads a
    → ((x : A) → Reads (f x))
    → Reads (and_then a f)
unfolding and_then
and_then-Reads (reads x) f r h = h x
and_then-Reads null_pointer f (x, e) h = absurd (cc e)
and_then-Reads past_end f (x, e) h = absurd (cc e)

pub element_at-Reads : (es : List Reply) (i : ℕ) → i < length es → Reads (element_at es i)
unfolding element_at
element_at-Reads es i h = let (e, f) = get_elem?-of_lt es i h in (e, rw (element_at, f) refl)

-- A loop reads nothing amiss if no round below its end does.
pub for_elements-Reads {ℓ} :
    {S : Type ℓ} (body : ℕ → S → Access S) (m n i : ℕ) (s : S)
    → ((j : ℕ) (t : S) → j < m → Reads (body j t))
    → i + n ≤ m
    → Reads (for_elements body n i s)
unfolding for_elements
for_elements-Reads body m zero i s h k = (s, refl)
for_elements-Reads body m (suc n) i s h k =
    let (t, e) = h i s (omega arith) in
    rw (for_elements, e) (for_elements-Reads body m n (i + 1) t h (omega arith))
