-- ===== src/Ramcloud/Pointers.antt =====
-- RedisClientPtr and SharedCount of RedisClientYaf.h: pointers that share a client and count themselves.
-- The pointers in scope are a list, and a pointer is a position in it; `p` and `c` of a pointer are made
-- and move together, so that a client is known by its counter.
pub mod Counting
use hiredispool.Base.{
  ℕ, suc, ◌+◌, ◌-◌, Option, none, some, List, [], ◌∷◌, get_or, set, ◌==◌, if◌then◌else◌,
}

-- The counters by their number, which counts the clients that have been made; the pointers, without one
-- where the destructor has run; and the clients that have been deleted.
pub record Pointers : Type 0 where
  pub counts : ℕ → ℕ
  pub made : ℕ
  pub pointers : List (Option ℕ)
  pub deleted : List ℕ

unfoldable pub nothing_made : Pointers
nothing_made = record { counts = λ c. 0; made = 0; pointers = []; deleted = [] }

abbrev pub counter : Pointers → ℕ → Option ℕ
counter s i = get_or s.pointers i none

abbrev pub set_count : (ℕ → ℕ) → ℕ → ℕ → ℕ → ℕ
set_count f c n b = if b == c then n else f b

-- `c->addRef()`
unfoldable pub add_ref : ℕ → Pointers → Pointers
add_ref c s = record s { counts = set_count s.counts c (suc (s.counts c)) }

-- `if (c->release() == 0) { delete p; delete c; }`
unfoldable pub drop_ref : ℕ → Pointers → Pointers
drop_ref c s =
    let left = s.counts c - 1 in
    record s {
      counts = set_count s.counts c left;
      deleted = if left == 0 then c ∷ s.deleted else s.deleted;
    }

-- The constructor from a raw pointer, with a new counter.
unfoldable pub construct : Pointers → Pointers
construct s = record s {
  counts = set_count s.counts s.made 1;
  made = suc s.made;
  pointers = some s.made ∷ s.pointers;
}

-- The destructor of pointer `i`, where that is in scope.
unfoldable pub destroy : ℕ → Pointers → Pointers
destroy i s = elim (counter s i) [
  | none ↦ s
  | some c ↦ drop_ref c (record s { pointers = set s.pointers i none })
]

-- The copy constructor, from pointer `j`.
unfoldable pub copy : ℕ → Pointers → Pointers
copy j s = elim (counter s j) [
  | none ↦ s
  | some c ↦ add_ref c (record s { pointers = some c ∷ s.pointers })
]

-- The assignment to pointer `i` from pointer `j`: a copy of `j` is the parameter, is swapped with `i`, and
-- is destroyed with what `i` has had.
unfoldable pub assign : ℕ → ℕ → Pointers → Pointers
assign i j s = elim (counter s i) [
  | none ↦ s
  | some a ↦ elim (counter s j) [
    | none ↦ s
    | some b ↦
        let copied = add_ref b s in
        drop_ref a (record copied { pointers = set s.pointers i (some b) })
  ]
]

pub data Move : Type 0 where
  constructing : Move
  destroying copying : ℕ → Move
  assigning : ℕ → ℕ → Move

unfoldable pub perform : Move → Pointers → Pointers
perform constructing s = construct s
perform (destroying i) s = destroy i s
perform (copying j) s = copy j s
perform (assigning i j) s = assign i j s

unfoldable pub perform_all : List Move → Pointers → Pointers
perform_all [] s = s
perform_all (m ∷ ms) s = perform_all ms (perform m s)
