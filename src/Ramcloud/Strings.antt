-- ===== src/Ramcloud/Strings.antt =====
-- The commands on strings of RedisClientYaf.cpp. A std::set or std::map that is read is the list of
-- its elements in the order of iteration.
use hiredispool.Base.{
  ℕ, Option, none, some, List, [], ◌∷◌, ◌++◌, ℤ, pos, negsuc, codes, Bool, true, false, not,
}
use hiredispool.Ramcloud.{
  word, str, bin, num, formatted, argv, Reply, string, Status, not_found, Server, reply_of, store,
  Access, reads, null_pointer, past_end, insert, unpacked, unpack_error, exception,
}
use hiredispool.Ramcloud.Replies.{reply2status, reply2string, reply2integer, array_of, append_args}

-- The loop over the map in mset and hmset.
abbrev pub append_pairs : List (List ℕ × List ℕ) → List (List ℕ) → List (List ℕ)
append_pairs [] args = args
append_pairs ((k, v) ∷ kvs) args = append_pairs kvs (args ++ k ∷ v ∷ [])

-- The loop over the keys, beside the elements of the reply.
unfoldable pub fill :
    List (List ℕ) → List Reply → List (List ℕ × List ℕ) → Access (List (List ℕ × List ℕ))
fill [] es vals = reads vals
fill (k ∷ ks) [] vals = past_end
fill (k ∷ ks) (string s ∷ es) vals = fill ks es (insert k s vals)
fill (k ∷ ks) (e ∷ es) vals = fill ks es vals

unfoldable pub fill_from :
    List (List ℕ)
    → Access (Option (List Reply))
    → List (List ℕ × List ℕ)
    → Access (List (List ℕ × List ℕ))
fill_from keys (reads (some es)) vals = fill keys es vals
fill_from keys (reads none) vals = reads vals
fill_from keys null_pointer vals = null_pointer
fill_from keys past_end vals = past_end

module _ {W D : Type 0} (t : Server W D) where
  unfoldable pub set : List ℕ → List ℕ → W → Status × W
  set key val w =
      let (reply, w1) = t.command (formatted (word (codes "SET") ∷ str key ∷ bin val ∷ [])) w in
      (reply2status reply, w1)

  unfoldable pub setex : List ℕ → List ℕ → ℤ → W → Status × W
  setex key val ttl w =
      let (reply, w1) =
        t.command (formatted (word (codes "SETEX") ∷ str key ∷ num ttl ∷ bin val ∷ [])) w in
      (reply2status reply, w1)

  unfoldable pub mset : List (List ℕ × List ℕ) → W → Status × W
  mset kvs w =
      let (reply, w1) = t.command (argv (append_pairs kvs (codes "MSET" ∷ []))) w in
      (reply2status reply, w1)

  unfoldable pub get : List ℕ → W → Status × List ℕ × W
  get key w =
      let (reply, w1) = t.command (formatted (word (codes "GET") ∷ str key ∷ [])) w in
      (reply2status reply, reply2string (reply_of reply), w1)

  unfoldable pub mget :
      List (List ℕ) → List (List ℕ × List ℕ) → W → Status × Access (List (List ℕ × List ℕ)) × W
  mget keys vals w =
      let (reply, w1) = t.command (argv (append_args keys (codes "MGET" ∷ []))) w in
      let s = reply2status reply in (s, fill_from keys (array_of s (reply_of reply)) vals, w1)

  unfoldable pub incrby : List ℕ → ℤ → Option ℤ → W → Status × Option ℤ × W
  incrby key increment newval w =
      let (reply, w1) =
        t.command (formatted (word (codes "INCRBY") ∷ str key ∷ num increment ∷ [])) w in
      (reply2status reply, store newval (reply2integer (reply_of reply)), w1)

  -- `ttl` below 0 stands for no expiry. A failure to marshal is caught.
  unfoldable pub set_map_value : List ℕ → List (ℕ × List ℕ) → ℤ → W → Status × W
  set_map_value key val ttl w = elim (t.marshal val) [
    | none ↦ (record { code = t.marshal_error }, w)
    | some packed ↦ elim ttl [
      | negsuc n ↦
          let (reply, w1) =
            t.command (formatted (word (codes "SET") ∷ str key ∷ bin packed ∷ [])) w in
          (reply2status reply, w1)
      | pos n ↦
          let (reply, w1) =
            t.command (formatted (word (codes "SETEX") ∷ str key ∷ num (pos n) ∷ bin packed ∷ []))
              w in
          (reply2status reply, w1)
    ]
  ]

  -- The status, the map and `keyExist` after the reply has been unpacked. An UnpackError counts as a key
  -- that does not exist; any other exception ends in its text, after `keyExist` has been set.
  unfoldable pub unpack :
      Status → Option Reply → List (ℕ × List ℕ) → Status × List (ℕ × List ℕ) × Bool
  unpack s (some (string packed)) value = elim (t.unmarshal packed value) [
    | unpacked m ↦ (s, m, true)
    | unpack_error m ↦ (s, m, false)
    | exception m what ↦ (record { code = what }, m, not (not_found s))
  ]
  unpack s _ value = (s, value, not (not_found s))

  unfoldable pub get_map_value :
      List ℕ → List (ℕ × List ℕ) → W → Status × List (ℕ × List ℕ) × Bool × W
  get_map_value key value w =
      let (reply, w1) = t.command (formatted (word (codes "GET") ∷ str key ∷ [])) w in
      let (s, m, key_exist) = unpack (reply2status reply) (reply_of reply) value in
      (s, m, key_exist, w1)
