-- ===== src/Ramcloud/Sets.antt =====
-- The commands on sets of RedisClientYaf.cpp. `old` is what a reference refers to before the call.
use hiredispool.Base.{
  ℕ, Option, none, some, List, [], ◌∷◌, ℤ, pos, negsuc, codes, if◌then◌else◌, ◌==◌, Bool, false,
  length,
}
use hiredispool.Ramcloud.{
  word, str, bin, formatted, argv, Reply, Status, ok, Server, reply_of, to_int, store, Access,
  reads, null_pointer, elements_of, text_of, insert_member,
}
use hiredispool.Ramcloud.Indices.{and_then, element_at, for_elements}
use hiredispool.Ramcloud.Replies.{reply2status, reply2integer, append_args}

abbrev pub is_one : ℤ → Bool
is_one (pos n) = n == 1
is_one (negsuc n) = false

-- The loop over the elements.
unfoldable pub insert_all : List Reply → List (List ℕ) → Access (List (List ℕ))
insert_all es members =
    for_elements
      (λ i inserted. and_then (element_at es i) (λ e. reads (insert_member (text_of e) inserted)))
      (length es) 0 members

-- The `if`, which reads `reply->elements` whatever the type of the reply is.
unfoldable pub members_from : Status → Option Reply → List (List ℕ) → Access (List (List ℕ))
members_from s none members = if ok s then null_pointer else reads members
members_from s (some r) members = if ok s then insert_all (elements_of r) members else reads members

module _ {W D : Type 0} (t : Server W D) where
  unfoldable pub scard : List ℕ → ℤ → W → Status × ℤ × W
  scard key old w =
      let (reply, w1) = t.command (formatted (word (codes "SCARD") ∷ str key ∷ [])) w in
      let s = reply2status reply in
      (s, (if ok s then to_int (reply2integer (reply_of reply)) else old), w1)

  unfoldable pub sadd : List ℕ → List ℕ → W → Status × W
  sadd key member w =
      let (reply, w1) = t.command (formatted (word (codes "SADD") ∷ str key ∷ bin member ∷ [])) w in
      (reply2status reply, w1)

  -- The overload for a set of members.
  unfoldable pub sadd_all : List ℕ → List (List ℕ) → W → Status × W
  sadd_all key members w =
      let (reply, w1) = t.command (argv (append_args members (codes "SADD" ∷ key ∷ []))) w in
      (reply2status reply, w1)

  unfoldable pub srem : List ℕ → List ℕ → Option ℤ → W → Status × Option ℤ × W
  srem key member delcount w =
      let (reply, w1) = t.command (formatted (word (codes "SREM") ∷ str key ∷ bin member ∷ [])) w in
      (reply2status reply, store delcount (to_int (reply2integer (reply_of reply))), w1)

  -- The overload for a set of members.
  unfoldable pub srem_all : List ℕ → List (List ℕ) → Option ℤ → W → Status × Option ℤ × W
  srem_all key members delcount w =
      let (reply, w1) = t.command (argv (append_args members (codes "SREM" ∷ key ∷ []))) w in
      (reply2status reply, store delcount (to_int (reply2integer (reply_of reply))), w1)

  unfoldable pub smembers : List ℕ → List (List ℕ) → W → Status × Access (List (List ℕ)) × W
  smembers key members w =
      let (reply, w1) = t.command (formatted (word (codes "SMEMBERS") ∷ str key ∷ [])) w in
      let s = reply2status reply in (s, members_from s (reply_of reply) members, w1)

  unfoldable pub sismember : List ℕ → List ℕ → Bool → W → Status × Bool × W
  sismember key member old w =
      let (reply, w1) =
        t.command (formatted (word (codes "SISMEMBER") ∷ str key ∷ bin member ∷ [])) w in
      let s = reply2status reply in
      (s, (if ok s then is_one (reply2integer (reply_of reply)) else old), w1)
