-- ===== src/Ramcloud/SortedSets.antt =====
-- The commands on sorted sets of RedisClientYaf.cpp, but for those that read ranges.
use hiredispool.Base.{ℕ, Option, List, [], ◌∷◌, ◌++◌, ℤ, codes, c_str, if◌then◌else◌}
use hiredispool.Ramcloud.{
  word, str, bin, num, unsigned, float, formatted, argv, Status, ok, Server, reply_of, to_int,
  store, low_bits,
}
use hiredispool.Ramcloud.Replies.{reply2status, reply2string, reply2integer, append_args}

module _ {W D : Type 0} (t : Server W D) where
  unfoldable pub zcard : List ℕ → ℤ → W → Status × ℤ × W
  zcard key old w =
      let (reply, w1) = t.command (formatted (word (codes "ZCARD") ∷ str key ∷ [])) w in
      let s = reply2status reply in
      (s, (if ok s then to_int (reply2integer (reply_of reply)) else old), w1)

  unfoldable pub zadd : List ℕ → D → List ℕ → W → Status × W
  zadd key score member w =
      let (reply, w1) =
        t.command (formatted (word (codes "ZADD") ∷ str key ∷ float score ∷ str member ∷ [])) w in
      (reply2status reply, w1)

  -- The loop over the map: the text of the score, then the member.
  unfoldable pub append_scores : List (List ℕ × D) → List (List ℕ) → List (List ℕ)
  append_scores [] args = args
  append_scores ((member, score) ∷ rest) args =
      append_scores rest (args ++ t.print_double score ∷ member ∷ [])

  -- The overload for a map from members to scores.
  unfoldable pub zadd_all : List ℕ → List (List ℕ × D) → W → Status × W
  zadd_all key member2score w =
      let (reply, w1) = t.command (argv (append_scores member2score (codes "ZADD" ∷ key ∷ []))) w in
      (reply2status reply, w1)

  unfoldable pub zrem : List ℕ → List ℕ → Option ℤ → W → Status × Option ℤ × W
  zrem key member delcount w =
      let (reply, w1) = t.command (formatted (word (codes "ZREM") ∷ str key ∷ bin member ∷ [])) w in
      (reply2status reply, store delcount (to_int (reply2integer (reply_of reply))), w1)

  -- The overload for a set of members.
  unfoldable pub zrem_all : List ℕ → List (List ℕ) → Option ℤ → W → Status × Option ℤ × W
  zrem_all key members delcount w =
      let (reply, w1) = t.command (argv (append_args members (codes "ZREM" ∷ key ∷ []))) w in
      (reply2status reply, store delcount (to_int (reply2integer (reply_of reply))), w1)

  -- `%u` reads each `int` as unsigned.
  unfoldable pub zrembyscore : List ℕ → ℤ → ℤ → W → Status × W
  zrembyscore key min max w =
      let (reply, w1) =
        t.command
          (formatted (
            word (codes "ZREMRANGEBYSCORE")
            ∷ str key
            ∷ unsigned (low_bits min)
            ∷ unsigned (low_bits max)
            ∷ []))
          w in
      (reply2status reply, w1)

  unfoldable pub zscore : List ℕ → List ℕ → W → Status × D × W
  zscore key member w =
      let (reply, w1) =
        t.command (formatted (word (codes "ZSCORE") ∷ str key ∷ str member ∷ [])) w in
      (reply2status reply, t.atof (c_str (reply2string (reply_of reply))), w1)

  unfoldable pub zcount : List ℕ → D → D → W → Status × ℤ × W
  zcount key min_score max_score w =
      let (reply, w1) =
        t.command
          (formatted (word (codes "ZCOUNT") ∷ str key ∷ float min_score ∷ float max_score ∷ []))
          w in
      (reply2status reply, to_int (reply2integer (reply_of reply)), w1)

  unfoldable pub zrevrank : List ℕ → List ℕ → Option ℤ → W → Status × Option ℤ × W
  zrevrank key member rank w =
      let (reply, w1) =
        t.command (formatted (word (codes "ZREVRANK") ∷ str key ∷ str member ∷ [])) w in
      (reply2status reply, store rank (to_int (reply2integer (reply_of reply))), w1)

  unfoldable pub zrank : List ℕ → List ℕ → W → Status × ℤ × W
  zrank key member w =
      let (reply, w1) =
        t.command (formatted (word (codes "ZRANK") ∷ str key ∷ str member ∷ [])) w in
      (reply2status reply, to_int (reply2integer (reply_of reply)), w1)

  unfoldable pub zincrby : List ℕ → List ℕ → ℤ → W → Status × ℤ × W
  zincrby key field increment w =
      let (reply, w1) =
        t.command (formatted (word (codes "ZINCRBY") ∷ str key ∷ num increment ∷ str field ∷ []))
          w in
      (reply2status reply, t.atol (c_str (reply2string (reply_of reply))), w1)
