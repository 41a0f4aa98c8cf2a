-- ===== src/Ramcloud/Commands/Overloads.antt =====
-- The overloads of a command for one element and for a set of them.
use hiredispool.Base.{
  ℕ, ◌≡◌, ◌∙◌, ap, Option, List, [], ◌∷◌, map, ℤ, codes, c_str, NulFree, c_str-NulFree,
}
use hiredispool.Ramcloud.{
  Pack, Piece, word, str, bin, num, unsigned, float, Request, formatted, argv, Server, Status,
  reply_of, store, to_int,
}
use hiredispool.Ramcloud.Replies.{append_args, reply2status, reply2integer}
use hiredispool.Ramcloud.Keys.{del_string_key, del_string_keys}
use hiredispool.Ramcloud.Sets.{sadd, sadd_all, srem, srem_all}
use hiredispool.Ramcloud.Hashes.{hdel, hdel_all}
use hiredispool.Ramcloud.SortedSets.{zadd, zadd_all, zrem, zrem_all, append_scores}

-- redisFormatCommand of hiredis: `%s` takes a C string and `%b` a text with its length; the other
-- directives are printed. One space stands between two directives, so each is an argument.
module _ {W D : Type 0} (t : Server W D) (print_num : ℤ → List ℕ)
    (print_unsigned : ℕ → List ℕ) where
  abbrev pub argument : Piece D → List ℕ
  argument (word s) = s
  argument (str s) = c_str s
  argument (bin s) = s
  argument (num z) = print_num z
  argument (unsigned n) = print_unsigned n
  argument (float x) = t.print_double x

  abbrev pub arguments : Request D → List (List ℕ)
  arguments (formatted ps) = map argument ps
  arguments (argv args) = args

  -- The answer depends on the arguments alone.
  abbrev pub ByArguments : Type 0
  ByArguments =
      (r q : Request D) → arguments r ≡ arguments q → (w : W) → t.command r w ≡ t.command q w

  -- For a key and a member without a NUL, and where the answer depends on the arguments alone: DEL, SADD,
  -- SREM, HDEL, ZADD and ZREM of one element do what the overloads for sets do with that element.
  pub overloads_agree :
      ByArguments
      → (key member : List ℕ) → NulFree key
      → NulFree member
      → (count : Option ℤ) (score : D) (w : W)
      → (del_string_key t key count w ≡ del_string_keys t (key ∷ []) count w)
        × (sadd t key member w ≡ sadd_all t key (member ∷ []) w)
        × (srem t key member count w ≡ srem_all t key (member ∷ []) count w)
        × (hdel t key member count w ≡ hdel_all t key (member ∷ []) count w)
        × (zadd t key score member w ≡ zadd_all t key ((member, score) ∷ []) w)
        × (zrem t key member count w ≡ zrem_all t key (member ∷ []) count w)
  unfolding append_args del_string_key del_string_keys sadd sadd_all srem srem_all hdel hdel_all
      zadd zadd_all zrem zrem_all append_scores
  overloads_agree h key member k m count score w =
      let key' = c_str-NulFree key k in
      let member' = c_str-NulFree member m in
      let counted : Option Pack × W → Status × Option ℤ × W =
        λ (p, v). (reply2status p, store count (to_int (reply2integer (reply_of p))), v) in
      let plain : Option Pack × W → Status × W = λ (p, v). (reply2status p, v) in
      (
        ap counted (h _ _ (ap (λ x. codes "DEL" ∷ x ∷ []) key') w),
        ap plain (h _ _ (ap (λ x. codes "SADD" ∷ x ∷ member ∷ []) key') w),
        ap counted (h _ _ (ap (λ x. codes "SREM" ∷ x ∷ member ∷ []) key') w),
        ap counted (
            h _ _
              (ap (λ x. codes "HDEL" ∷ x ∷ c_str member ∷ []) key'
                ∙ ap (λ x. codes "HDEL" ∷ key ∷ x ∷ []) member')
              w),
        ap plain (
            h _ _
              (ap (λ x. codes "ZADD" ∷ x ∷ t.print_double score ∷ c_str member ∷ []) key'
                ∙ ap (λ x. codes "ZADD" ∷ key ∷ t.print_double score ∷ x ∷ []) member')
              w),
        ap counted (h _ _ (ap (λ x. codes "ZREM" ∷ x ∷ member ∷ []) key') w),
      )
