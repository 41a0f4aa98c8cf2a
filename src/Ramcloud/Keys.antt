-- ===== src/Ramcloud/Keys.antt =====
-- The commands on keys of RedisClientYaf.cpp. A pointer that may be NULL is an `Option` of what it
-- points to, and a result that is written through a reference comes back with the status.
use hiredispool.Base.{
  ℕ, Option, List, [], ◌∷◌, ℤ, pos, negsuc, codes, if◌then◌else◌, ◌==◌, Bool, false,
}
use hiredispool.Ramcloud.{
  word, str, unsigned, formatted, argv, Status, ok, Server, reply_of, to_int, store,
}
use hiredispool.Ramcloud.Replies.{reply2status, reply2string, reply2integer, append_args}

abbrev pub is_minus_two : ℤ → Bool
is_minus_two (pos n) = false
is_minus_two (negsuc n) = n == 1

module _ {W D : Type 0} (t : Server W D) where
  unfoldable pub type : List ℕ → W → Status × List ℕ × W
  type key w =
      let (reply, w1) = t.command (formatted (word (codes "TYPE") ∷ str key ∷ [])) w in
      (reply2status reply, reply2string (reply_of reply), w1)

  unfoldable pub del_string_key : List ℕ → Option ℤ → W → Status × Option ℤ × W
  del_string_key key affected w =
      let (reply, w1) = t.command (formatted (word (codes "DEL") ∷ str key ∷ [])) w in
      (reply2status reply, store affected (to_int (reply2integer (reply_of reply))), w1)

  -- The overload for a set of keys.
  unfoldable pub del_string_keys : List (List ℕ) → Option ℤ → W → Status × Option ℤ × W
  del_string_keys keys affected w =
      let (reply, w1) = t.command (argv (append_args keys (codes "DEL" ∷ []))) w in
      (reply2status reply, store affected (to_int (reply2integer (reply_of reply))), w1)

  unfoldable pub expire : List ℕ → ℕ → Option ℤ → W → Status × Option ℤ × W
  expire key ttl affected w =
      let (reply, w1) =
        t.command (formatted (word (codes "EXPIRE") ∷ str key ∷ unsigned ttl ∷ [])) w in
      (reply2status reply, store affected (to_int (reply2integer (reply_of reply))), w1)

  unfoldable pub del_other_key_unsafe : List ℕ → Option ℤ → W → Status × Option ℤ × W
  del_other_key_unsafe key affected w = expire key 1 affected w

  -- `old` is what `ttl` refers to before the call.
  unfoldable pub ttl : List ℕ → ℤ → W → Status × ℤ × W
  ttl key old w =
      let (reply, w1) = t.command (formatted (word (codes "TTL") ∷ str key ∷ [])) w in
      let s = reply2status reply in
      let n = to_int (reply2integer (reply_of reply)) in
      if ok s
      then ((if is_minus_two n then record { code = codes "not_found" } else s), n, w1)
      else (s, old, w1)

  unfoldable pub persist : List ℕ → Option ℤ → W → Status × Option ℤ × W
  persist key affected w =
      let (reply, w1) = t.command (formatted (word (codes "PERSIST") ∷ str key ∷ [])) w in
      (reply2status reply, store affected (to_int (reply2integer (reply_of reply))), w1)
