-- ===== src/Ramcloud/Commands/Fetching.antt =====
-- MGET and HMGET: which element of the reply goes to which key.
use hiredispool.Base.{
  ℕ, ◌≤◌, ◌<◌, ◌≡◌, ◌∙◌, refl, ap, Option, none, some, List, [], ◌∷◌, length, if◌then◌else◌,
  text_eq, codes, arith,
}
use hiredispool.Ramcloud.{
  Reply, string, status, error, array, integer, nil, Elements, Pack, argv, Server, Access, reads,
  past_end, insert, lookup, to_list, elements_of, reply_of, ok,
}
use hiredispool.Ramcloud.Replies.{reply2status, array_of, append_args}
use hiredispool.Ramcloud.Dicts.{lookup-insert}
use hiredispool.Ramcloud.Strings.{fill, fill_from, mget}
use hiredispool.Ramcloud.Hashes.{hmget}

-- The value of key `k` after the elements have been paired with the keys: that of the last string beside
-- it, or the old one.
unfoldable pub paired : List ℕ → List (List ℕ) → List Reply → Option (List ℕ) → Option (List ℕ)
paired k [] es old = old
paired k (j ∷ ks) [] old = old
paired k (j ∷ ks) (string s ∷ es) old = paired k ks es (if text_eq j k then some s else old)
paired k (j ∷ ks) (e ∷ es) old = paired k ks es old

-- The map after all: each key has what is paired with it.
abbrev pub Filled :
    List (List ℕ) → List Reply → List (List ℕ × List ℕ) → Access (List (List ℕ × List ℕ)) → Type 0
Filled ks es d a =
    (v : List (List ℕ × List ℕ)) × (a ≡ reads v)
    × ((k : List ℕ) → lookup k v ≡ paired k ks es (lookup k d))

fill-Filled :
    (ks : List (List ℕ)) (es : List Reply) (d : List (List ℕ × List ℕ))
    → length ks ≤ length es
    → Filled ks es d (fill ks es d)
unfolding fill paired
fill-Filled [] es d h = (d, refl, λ k. refl)
fill-Filled (j ∷ ks) [] d h = absurd (omega arith)
fill-Filled (j ∷ ks) (string s ∷ es) d h =
    let (v, e, f) = fill-Filled ks es (insert j s d) (omega arith) in
    (v, e, λ k. f k ∙ ap (paired k ks es) (lookup-insert j k s d))
fill-Filled (j ∷ ks) (status s ∷ es) d h = fill-Filled ks es d (omega arith)
fill-Filled (j ∷ ks) (error s ∷ es) d h = fill-Filled ks es d (omega arith)
fill-Filled (j ∷ ks) (array xs ∷ es) d h = fill-Filled ks es d (omega arith)
fill-Filled (j ∷ ks) (integer z ∷ es) d h = fill-Filled ks es d (omega arith)
fill-Filled (j ∷ ks) (nil ∷ es) d h = fill-Filled ks es d (omega arith)

fill_short :
    (ks : List (List ℕ)) (es : List Reply) (d : List (List ℕ × List ℕ))
    → length es < length ks
    → fill ks es d ≡ past_end
unfolding fill
fill_short [] es d h = absurd (omega arith)
fill_short (j ∷ ks) [] d h = refl
fill_short (j ∷ ks) (string s ∷ es) d h = fill_short ks es (insert j s d) (omega arith)
fill_short (j ∷ ks) (status s ∷ es) d h = fill_short ks es d (omega arith)
fill_short (j ∷ ks) (error s ∷ es) d h = fill_short ks es d (omega arith)
fill_short (j ∷ ks) (array xs ∷ es) d h = fill_short ks es d (omega arith)
fill_short (j ∷ ks) (integer z ∷ es) d h = fill_short ks es d (omega arith)
fill_short (j ∷ ks) (nil ∷ es) d h = fill_short ks es d (omega arith)

array_of-array :
    (p : Option Pack) (es : Elements)
    → reply_of p ≡ some (array es)
    → array_of (reply2status p) (reply_of p) ≡ reads (some (to_list es))
unfolding array_of reply2status reply_of ok elements_of
array_of-array none es e = cc
array_of-array (some p) es e = ground arith

fill_from-Filled :
    (p : Option Pack) (ks : List (List ℕ)) (es : Elements) (d : List (List ℕ × List ℕ))
    → reply_of p ≡ some (array es)
    → fill_from ks (array_of (reply2status p) (reply_of p)) d ≡ fill ks (to_list es) d
unfolding fill_from
fill_from-Filled p ks es d e = ap (λ a. fill_from ks a d) (array_of-array p es e)

module _ {W D : Type 0} (t : Server W D) where
  -- With an array in reply. If it has an element for each key, every key gets the string beside it, and
  -- keeps its value where the element is no string; the other keys keep theirs. If it is shorter, MGET
  -- reads behind the elements.
  pub mget_lem :
      (keys : List (List ℕ)) (d : List (List ℕ × List ℕ)) (w : W) (es : Elements)
      → reply_of (t.command (argv (append_args keys (codes "MGET" ∷ []))) w).0 ≡ some (array es)
      → (length keys ≤ length (to_list es) → Filled keys (to_list es) d (mget t keys d w).1)
        × (length (to_list es) < length keys → (mget t keys d w).1 ≡ past_end)
  unfolding mget
  mget_lem keys d w es e =
      let q = fill_from-Filled _ keys es d e in
      (λ h. rw q (fill-Filled keys (to_list es) d h), λ h. q ∙ fill_short keys (to_list es) d h)

  -- The same for HMGET and the fields of a hash.
  pub hmget_lem :
      (key : List ℕ) (fields : List (List ℕ)) (d : List (List ℕ × List ℕ)) (w : W) (es : Elements)
      → reply_of (t.command (argv (append_args fields (codes "HMGET" ∷ key ∷ []))) w).0
        ≡ some (array es)
      → (length fields ≤ length (to_list es)
          → Filled fields (to_list es) d (hmget t key fields d w).1)
        × (length (to_list es) < length fields → (hmget t key fields d w).1 ≡ past_end)
  unfolding hmget
  hmget_lem key fields d w es e =
      let q = fill_from-Filled _ fields es d e in
      (λ h. rw q (fill-Filled fields (to_list es) d h), λ h. q ∙ fill_short fields (to_list es) d h)
