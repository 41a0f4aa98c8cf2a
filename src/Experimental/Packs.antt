-- ===== src/Experimental/Packs.antt =====
-- RedisReplyPack and RedisReplyPtr of experimental/redisclient/RedisClient.h: a pointer owns a pack, and the
-- pack owns a reply. A pack is known by its address. The pointers in scope are a list, and a pointer is a
-- position in it; the packs that have been deleted, and the replies that freeReplyObject has been given, are
-- lists too.
pub mod Owned
use hiredispool.Base.{
  ℕ, Option, none, some, List, [], ◌∷◌, get_or, set, ◌==◌, if◌then◌else◌, Bool, true, false,
}
use hiredispool.Client.Replies.{
  free_reply_object, same_reply, Move, copying, destroying, assigning, assigning_ref,
}

-- `reply` is that of the packs.
pub record Packs : Type 0 where
  pub reply : ℕ → Option ℕ
  pub pointers : List (Option ℕ)
  pub deleted : List ℕ
  pub freed : List ℕ

-- `delete p`, which frees the reply.
unfoldable pub delete_pack : Option ℕ → Packs → Packs
delete_pack none s = s
delete_pack (some b) s = record s {
  deleted = b ∷ s.deleted;
  freed = free_reply_object (s.reply b) s.freed;
}

-- The member `p`. A pointer that is not in scope counts as NULL.
unfoldable pub pack_at : Packs → ℕ → Option ℕ
pack_at s i = get_or s.pointers i none

-- `new RedisReplyPack` with its reply, at an address that is free, or NULL, and the constructor from it. A
-- new pointer goes to the front.
unfoldable pub construct : Option ℕ → Packs → Packs
construct q s = record s { pointers = q ∷ s.pointers }

-- `other.release()`: what the pointer has owned, and the pointers without it.
unfoldable pub release : ℕ → Packs → Option ℕ × Packs
release i s = (pack_at s i, record s { pointers = set s.pointers i none })

-- The destructor of the pointer; it stays in the list, as NULL.
unfoldable pub destroy : ℕ → Packs → Packs
destroy i s = delete_pack (pack_at s i) (record s { pointers = set s.pointers i none })

-- The copy constructor, and the constructor from the RedisReplyRef that `other` is converted to.
unfoldable pub copy : ℕ → Packs → Packs
copy other s = let (q, t) = release other s in construct q t

-- `operator=(RedisReplyPtr&)`: `temp` deletes what the pointer has owned.
unfoldable pub assign : ℕ → ℕ → Packs → Packs
assign i other s =
    let (q, t) = release i s in
    let (r, u) = release other t in
    let done = delete_pack q (record u { pointers = set u.pointers i r }) in
    if i == other then s else done

-- `operator=(RedisReplyRef)` on the reference that `other` is converted to; it compares the packs.
unfoldable pub assign_ref : ℕ → ℕ → Packs → Packs
assign_ref i other s =
    let (r, t) = release other s in
    let (q, u) = release i t in
    let done = delete_pack q (record u { pointers = set u.pointers i r }) in
    if same_reply (pack_at t i) r then t else done

-- notNull, and the conversions to redisReply*: the reply of the pack, or NULL.
unfoldable pub reply_at : Packs → ℕ → Option ℕ
reply_at s i = elim (pack_at s i) [ none ↦ none | some b ↦ s.reply b ]

unfoldable pub not_null : Packs → ℕ → Bool
not_null s i = elim (reply_at s i) [ none ↦ false | some r ↦ true ]

unfoldable pub perform : Move → Packs → Packs
perform (copying i) s = copy i s
perform (destroying i) s = destroy i s
perform (assigning i other) s = assign i other s
perform (assigning_ref i other) s = assign_ref i other s

unfoldable pub perform_all : List Move → Packs → Packs
perform_all [] s = s
perform_all (m ∷ ms) s = perform_all ms (perform m s)
