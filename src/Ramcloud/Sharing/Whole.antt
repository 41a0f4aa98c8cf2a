-- ===== src/Ramcloud/Sharing/Whole.antt =====
-- The counters of RedisClientPtr in every state that the threads of Sharing can bring about.
use hiredispool.Base.{ℕ, zero, suc, ◌≡◌, ◌∙◌, refl, ap, length, arith}
use hiredispool.Client.Replies.Ownership.{owners}
use hiredispool.Ramcloud.Pointers.{Pointers, nothing_made, construct, assign}
use hiredispool.Ramcloud.Pointers.Counting.{IsCounted, construct-IsCounted, nothing-IsCounted}
use hiredispool.Ramcloud.Sharing.{
  Doing, Usage, renew, Turn, deletes, finds, creates, fails, calls, gives_up, returns, objects,
  unused, Reached, starts, turn,
}
use hiredispool.Ramcloud.Sharing.Counters.{
  renew-IsCounted, renew-OnlyAt, destroy-OnlyAt, assign-OnlyAt, destroy-IsCounted, assign-IsCounted,
}

-- The counters are right, and all pointers are there.
pub record IsWhole (n : ℕ) (s : Usage) : Type 0 where
  pub counted : IsCounted s.refs
  pub long : length s.refs.pointers ≡ suc n

assigned-IsWhole :
    (n i : ℕ) (s : Usage) (refs : Pointers) (d : ℕ → Doing)
    → IsCounted refs
    → length refs.pointers ≡ suc n
    → IsWhole n (record s { refs = assign i 0 refs; doing = d })
assigned-IsWhole n i s refs d h e = record {
  counted = assign-IsCounted i 0 refs h;
  long = (assign-OnlyAt i 0 refs).long ∙ e;
}

Turn-IsWhole :
    (n : ℕ) (object : ℕ → ℕ) (s t : Usage) → Turn n object s t → IsWhole n s → IsWhole n t
Turn-IsWhole n object s t (deletes _) h = record {
  counted = destroy-IsCounted 0 s.refs h.counted;
  long = (destroy-OnlyAt 0 s.refs).long ∙ h.long;
}
Turn-IsWhole n object s t (finds _ a c e i f) h =
    assigned-IsWhole n (suc (object a)) s s.refs t.doing h.counted h.long
Turn-IsWhole n object s t (creates _ a e i f) h =
    assigned-IsWhole n (suc (object a)) s (renew 0 s.refs) t.doing
      (renew-IsCounted s.refs 0 h.counted (omega (arith, h.long)))
      ((renew-OnlyAt 0 s.refs).long ∙ h.long)
Turn-IsWhole n object s t (fails _ a e i f) h = record {
  counted = renew-IsCounted s.refs (suc (object a)) h.counted (omega (arith, h.long));
  long = (renew-OnlyAt (suc (object a)) s.refs).long ∙ h.long;
}
Turn-IsWhole n object s t (calls _ a c e f g) h = record { counted = h.counted; long = h.long }
Turn-IsWhole n object s t (gives_up _ a c e f g) h = record { counted = h.counted; long = h.long }
Turn-IsWhole n object s t (returns _ a c e) h = record { counted = h.counted; long = h.long }

objects-IsCounted : (n : ℕ) → IsCounted (objects n)
unfolding objects
objects-IsCounted zero = nothing-IsCounted
objects-IsCounted (suc n) = construct-IsCounted (objects n) (objects-IsCounted n)

length-objects : (n : ℕ) → length (objects n).pointers ≡ n
unfolding objects construct nothing_made
length-objects zero = refl
length-objects (suc n) = ap suc (length-objects n)

unused-IsWhole : (n : ℕ) → IsWhole n (unused n)
unfolding unused owners
unused-IsWhole n =
    let h = objects-IsCounted n in
    record {
      counted = record { counted = λ c. omega (arith, h.counted c); once = h.once };
      long = ap suc (length-objects n);
    }

pub Reached-IsWhole : (n : ℕ) (object : ℕ → ℕ) (s : Usage) → Reached n object s → IsWhole n s
Reached-IsWhole n object _ starts = unused-IsWhole n
Reached-IsWhole n object t (turn s _ r step) =
    Turn-IsWhole n object s t step (Reached-IsWhole n object s r)
