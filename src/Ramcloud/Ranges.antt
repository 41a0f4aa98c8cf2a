-- ===== src/Ramcloud/Ranges.antt =====
-- The commands that read ranges of sorted sets of RedisClientYaf.cpp. `members` is a std::vector, and
-- the elements of the reply are pushed behind what it has.
use hiredispool.Base.{
  ℕ, ◌+◌, ◌*◌, ◌/◌, length, Option, none, some, List, [], ◌∷◌, ◌++◌, ℤ, codes, c_str,
}
use hiredispool.Ramcloud.{
  word, str, num, formatted, Reply, Status, Server, reply_of, Access, reads, null_pointer, past_end,
}
use hiredispool.Ramcloud.Indices.{and_then, element_at, for_elements}
use hiredispool.Ramcloud.Replies.{reply2status, reply2string, array_of}

unfoldable pub push_all : List Reply → List (List ℕ) → Access (List (List ℕ))
push_all es members =
    for_elements
      (λ i behind. and_then (element_at es i) (λ e. reads (behind ++ reply2string (some e) ∷ [])))
      (length es) 0 members

unfoldable pub pushed : Access (Option (List Reply)) → List (List ℕ) → Access (List (List ℕ))
pushed (reads (some es)) members = push_all es members
pushed (reads none) members = reads members
pushed null_pointer members = null_pointer
pushed past_end members = past_end

module _ {W D : Type 0} (t : Server W D) where
  -- A member and its score at a time.
  unfoldable pub push_scores : List Reply → List (List ℕ × D) → Access (List (List ℕ × D))
  push_scores es members =
      for_elements
        (λ i behind. and_then (element_at es (i * 2)) (λ m.
          and_then (element_at es (i * 2 + 1)) (λ e.
            reads
              (behind ++ (reply2string (some m), t.atof (c_str (reply2string (some e)))) ∷ []))))
        (length es / 2) 0 members

  unfoldable pub pushed_scores :
      Access (Option (List Reply)) → List (List ℕ × D) → Access (List (List ℕ × D))
  pushed_scores (reads (some es)) members = push_scores es members
  pushed_scores (reads none) members = reads members
  pushed_scores null_pointer members = null_pointer
  pushed_scores past_end members = past_end

  unfoldable pub zrange_impl :
      List ℕ → List ℕ → ℤ → ℤ → List (List ℕ) → W → Status × Access (List (List ℕ)) × W
  zrange_impl cmd key start_index stop_index members w =
      let (reply, w1) =
        t.command (formatted (str cmd ∷ str key ∷ num start_index ∷ num stop_index ∷ [])) w in
      let s = reply2status reply in (s, pushed (array_of s (reply_of reply)) members, w1)

  unfoldable pub zrange_with_scores_impl :
      List ℕ → List ℕ → ℤ → ℤ → List (List ℕ × D) → W → Status × Access (List (List ℕ × D)) × W
  zrange_with_scores_impl cmd key start_index stop_index members w =
      let (reply, w1) =
        t.command
          (formatted
            (str cmd ∷ str key ∷ num start_index ∷ num stop_index ∷ word (codes "WITHSCORES") ∷ []))
          w in
      let s = reply2status reply in (s, pushed_scores (array_of s (reply_of reply)) members, w1)

  unfoldable pub zrangbyscore_impl :
      List ℕ → List ℕ → List ℕ → List ℕ → List (List ℕ) → W → Status × Access (List (List ℕ)) × W
  zrangbyscore_impl cmd key score1 score2 members w =
      let (reply, w1) =
        t.command (formatted (str cmd ∷ str key ∷ str score1 ∷ str score2 ∷ [])) w in
      let s = reply2status reply in (s, pushed (array_of s (reply_of reply)) members, w1)

  unfoldable pub zrangbyscore_with_scores_impl :
      List ℕ
      → List ℕ
      → List ℕ
      → List ℕ
      → List (List ℕ × D)
      → W
      → Status × Access (List (List ℕ × D)) × W
  zrangbyscore_with_scores_impl cmd key score1 score2 members w =
      let (reply, w1) =
        t.command
          (formatted (str cmd ∷ str key ∷ str score1 ∷ str score2 ∷ word (codes "WITHSCORES") ∷ []))
          w in
      let s = reply2status reply in (s, pushed_scores (array_of s (reply_of reply)) members, w1)

  unfoldable pub zrange : List ℕ → ℤ → ℤ → List (List ℕ) → W → Status × Access (List (List ℕ)) × W
  zrange key start_index stop_index members w =
      zrange_impl (codes "ZRANGE") key start_index stop_index members w

  unfoldable pub zrange_with_scores :
      List ℕ → ℤ → ℤ → List (List ℕ × D) → W → Status × Access (List (List ℕ × D)) × W
  zrange_with_scores key start_index stop_index members w =
      zrange_with_scores_impl (codes "ZRANGE") key start_index stop_index members w

  unfoldable pub zrevrange :
      List ℕ → ℤ → ℤ → List (List ℕ) → W → Status × Access (List (List ℕ)) × W
  zrevrange key start_index stop_index members w =
      zrange_impl (codes "ZREVRANGE") key start_index stop_index members w

  unfoldable pub zrevrange_with_scores :
      List ℕ → ℤ → ℤ → List (List ℕ × D) → W → Status × Access (List (List ℕ × D)) × W
  zrevrange_with_scores key start_index stop_index members w =
      zrange_with_scores_impl (codes "ZREVRANGE") key start_index stop_index members w

  unfoldable pub zrangebyscore :
      List ℕ → List ℕ → List ℕ → List (List ℕ) → W → Status × Access (List (List ℕ)) × W
  zrangebyscore key score1 score2 members w =
      zrangbyscore_impl (codes "ZRANGEBYSCORE") key score1 score2 members w

  unfoldable pub zrevrangebyscore :
      List ℕ → List ℕ → List ℕ → List (List ℕ) → W → Status × Access (List (List ℕ)) × W
  zrevrangebyscore key score1 score2 members w =
      zrangbyscore_impl (codes "ZREVRANGEBYSCORE") key score1 score2 members w

  unfoldable pub zrangebyscore_with_scores :
      List ℕ → List ℕ → List ℕ → List (List ℕ × D) → W → Status × Access (List (List ℕ × D)) × W
  zrangebyscore_with_scores key score1 score2 members w =
      zrangbyscore_with_scores_impl (codes "ZRANGEBYSCORE") key score1 score2 members w

  unfoldable pub zrevrangebyscore_with_scores :
      List ℕ → List ℕ → List ℕ → List (List ℕ × D) → W → Status × Access (List (List ℕ × D)) × W
  zrevrangebyscore_with_scores key score1 score2 members w =
      zrangbyscore_with_scores_impl (codes "ZREVRANGEBYSCORE") key score1 score2 members w
