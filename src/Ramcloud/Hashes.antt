-- ===== src/Ramcloud/Hashes.antt =====
-- The commands on hashes of RedisClientYaf.cpp.
use hiredispool.Base.{ℕ, ◌+◌, ◌*◌, ◌/◌, length, Option, none, some, List, [], ◌∷◌, ℤ, codes}
use hiredispool.Ramcloud.{
  word, str, bin, num, formatted, argv, Reply, Status, Server, reply_of, to_int, store, Access,
  reads, null_pointer, past_end, insert,
}
use hiredispool.Ramcloud.Indices.{and_then, element_at, for_elements}
use hiredispool.Ramcloud.Replies.{reply2status, reply2string, reply2integer, array_of, append_args}
use hiredispool.Ramcloud.Strings.{append_pairs, fill_from}

-- The loop over the pairs of elements.
unfoldable pub insert_pairs : List Reply → List (List ℕ × List ℕ) → Access (List (List ℕ × List ℕ))
insert_pairs es d =
    for_elements
      (λ i allfield. and_then (element_at es (i * 2)) (λ f.
        and_then (element_at es (i * 2 + 1))
          (λ v. reads (insert (reply2string (some f)) (reply2string (some v)) allfield))))
      (length es / 2) 0 d

unfoldable pub pairs_from :
    Access (Option (List Reply)) → List (List ℕ × List ℕ) → Access (List (List ℕ × List ℕ))
pairs_from (reads (some es)) d = insert_pairs es d
pairs_from (reads none) d = reads d
pairs_from null_pointer d = null_pointer
pairs_from past_end d = past_end

module _ {W D : Type 0} (t : Server W D) where
  unfoldable pub hdel : List ℕ → List ℕ → Option ℤ → W → Status × Option ℤ × W
  hdel key field delcount w =
      let (reply, w1) = t.command (formatted (word (codes "HDEL") ∷ str key ∷ str field ∷ [])) w in
      (reply2status reply, store delcount (to_int (reply2integer (reply_of reply))), w1)

  -- The overload for a set of fields.
  unfoldable pub hdel_all : List ℕ → List (List ℕ) → Option ℤ → W → Status × Option ℤ × W
  hdel_all key field delcount w =
      let (reply, w1) = t.command (argv (append_args field (codes "HDEL" ∷ key ∷ []))) w in
      (reply2status reply, store delcount (to_int (reply2integer (reply_of reply))), w1)

  unfoldable pub hset : List ℕ → List ℕ → List ℕ → W → Status × W
  hset key field val w =
      let (reply, w1) =
        t.command (formatted (word (codes "HSET") ∷ str key ∷ str field ∷ bin val ∷ [])) w in
      (reply2status reply, w1)

  unfoldable pub hmset : List ℕ → List (List ℕ × List ℕ) → W → Status × W
  hmset key field2val w =
      let (reply, w1) = t.command (argv (append_pairs field2val (codes "HMSET" ∷ key ∷ []))) w in
      (reply2status reply, w1)

  unfoldable pub hget : List ℕ → List ℕ → W → Status × List ℕ × W
  hget key field w =
      let (reply, w1) = t.command (formatted (word (codes "HGET") ∷ str key ∷ str field ∷ [])) w in
      (reply2status reply, reply2string (reply_of reply), w1)

  unfoldable pub hmget :
      List ℕ
      → List (List ℕ)
      → List (List ℕ × List ℕ)
      → W
      → Status × Access (List (List ℕ × List ℕ)) × W
  hmget key fields field2val w =
      let (reply, w1) = t.command (argv (append_args fields (codes "HMGET" ∷ key ∷ []))) w in
      let s = reply2status reply in
      (s, fill_from fields (array_of s (reply_of reply)) field2val, w1)

  unfoldable pub hgetall :
      List ℕ → List (List ℕ × List ℕ) → W → Status × Access (List (List ℕ × List ℕ)) × W
  hgetall key allfield w =
      let (reply, w1) = t.command (formatted (word (codes "HGETALL") ∷ str key ∷ [])) w in
      let s = reply2status reply in (s, pairs_from (array_of s (reply_of reply)) allfield, w1)

  unfoldable pub hlen : List ℕ → W → Status × ℤ × W
  hlen key w =
      let (reply, w1) = t.command (formatted (word (codes "HLEN") ∷ str key ∷ [])) w in
      (reply2status reply, to_int (reply2integer (reply_of reply)), w1)

  unfoldable pub hincrby : List ℕ → List ℕ → ℤ → Option ℤ → W → Status × Option ℤ × W
  hincrby key field increment newval w =
      let (reply, w1) =
        t.command (formatted (word (codes "HINCRBY") ∷ str key ∷ str field ∷ num increment ∷ []))
          w in
      (reply2status reply, store newval (reply2integer (reply_of reply)), w1)
