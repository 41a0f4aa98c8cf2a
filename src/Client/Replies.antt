-- ===== src/Client/Replies.antt =====
-- RedisReplyPtr of RedisClient.h: a pointer that owns a reply. The pointers in scope are a list, and a
-- pointer is a position in it; the replies that freeReplyObject has been given are a list too.
-- freeReplyObject(NULL) does nothing, as hiredis says.
pub mod Ownership
use hiredispool.Base.{
  ℕ, Option, none, some, List, [], ◌∷◌, ◌++◌, get_or, set, ◌==◌, if◌then◌else◌, Bool, true, false,
}

pub record Replies : Type 0 where
  pub pointers : List (Option ℕ)
  pub freed : List ℕ

-- The member `p`. A pointer that is not in scope counts as NULL.
unfoldable pub member : Replies → ℕ → Option ℕ
member s i = get_or s.pointers i none

unfoldable pub free_reply_object : Option ℕ → List ℕ → List ℕ
free_reply_object none fs = fs
free_reply_object (some a) fs = a ∷ fs

-- The constructor from a raw pointer. A new pointer goes to the front.
unfoldable pub construct : Option ℕ → Replies → Replies
construct q s = record s { pointers = q ∷ s.pointers }

-- `other.release()`: what the pointer has owned, and the pointers without it.
unfoldable pub release : ℕ → Replies → Option ℕ × Replies
release i s = (member s i, record s { pointers = set s.pointers i none })

-- The destructor of the pointer; it stays in the list, as NULL.
unfoldable pub destroy : ℕ → Replies → Replies
destroy i s = record s {
  pointers = set s.pointers i none;
  freed = free_reply_object (member s i) s.freed;
}

-- The copy constructor, which takes what `other` owns. So does the constructor from a RedisReplyRef
-- that `other` has been converted to.
unfoldable pub copy : ℕ → Replies → Replies
copy other s = let (q, t) = release other s in construct q t

-- `operator=(RedisReplyPtr&)`: `temp` takes what the pointer owns, and frees it at the end.
unfoldable pub assign : ℕ → ℕ → Replies → Replies
assign i other s =
    let (q, t) = release i s in
    let (r, u) = release other t in
    let done : Replies = record {
      pointers = set u.pointers i r;
      freed = free_reply_object q u.freed;
    } in
    if i == other then s else done

unfoldable pub same_reply : Option ℕ → Option ℕ → Bool
same_reply none none = true
same_reply none (some b) = false
same_reply (some a) none = false
same_reply (some a) (some b) = a == b

-- `operator=(RedisReplyRef)` on the reference that `other` is converted to.
unfoldable pub assign_ref : ℕ → ℕ → Replies → Replies
assign_ref i other s =
    let (r, t) = release other s in
    let (q, u) = release i t in
    let done : Replies = record {
      pointers = set u.pointers i r;
      freed = free_reply_object q u.freed;
    } in
    if same_reply (member t i) r then t else done

-- The operations that hand replies from pointer to pointer, or free them.
pub data Move : Type 0 where
  copying destroying : ℕ → Move
  assigning assigning_ref : ℕ → ℕ → Move

unfoldable pub perform : Move → Replies → Replies
perform (copying i) s = copy i s
perform (destroying i) s = destroy i s
perform (assigning i other) s = assign i other s
perform (assigning_ref i other) s = assign_ref i other s

unfoldable pub perform_all : List Move → Replies → Replies
perform_all [] s = s
perform_all (m ∷ ms) s = perform_all ms (perform m s)
