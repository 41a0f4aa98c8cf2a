-- ===== src/Ramcloud/Replies.antt =====
-- reply2status, reply2string, reply2integer and appendArgs of RedisClientYaf.cpp.
pub mod Laws
use hiredispool.Base.{
  ℕ, Option, none, some, List, [], ◌∷◌, ◌++◌, ℤ, pos, negsuc, codes, c_str, ◌==◌, if◌then◌else◌,
}
use hiredispool.Ramcloud.{
  Reply, string, array, integer, nil, status, error, Info, Pack, Status, Access, reads,
  null_pointer, elements_of, ok,
}

-- The `switch` on the error code: REDIS_ERR_IO is 1, _OTHER 2, _EOF 3, _PROTOCOL 4 and _OOM 5.
unfoldable pub error_text : ℤ → List ℕ → List ℕ
error_text (negsuc n) s = codes "ERR " ++ s
error_text (pos n) s =
    if n == 1
    then codes "REDIS_ERR_IO " ++ s
    else if n == 3
    then codes "REDIS_ERR_EOF " ++ s
    else if n == 4
    then codes "REDIS_ERR_PROTOCOL " ++ s
    else if n == 5
    then codes "REDIS_ERR_OOM " ++ s
    else if n == 2
    then codes "REDIS_ERR_OTHER " ++ s
    else if n == 0
    then codes "NO_ERR but reply is null?!"
    else codes "ERR " ++ s

unfoldable pub reply2status : Option Pack → Status
reply2status none = record { code = codes "CONFIG_ERR" }
reply2status (some p) = elim p.reply [
  | none ↦ record { code = error_text p.info.err p.info.errstr }
  | some (error s) ↦ record { code = c_str s }
  | some nil ↦ record { code = codes "not_found" }
  | some _ ↦ record { code = codes "ok" }
]

unfoldable pub reply2string : Option Reply → List ℕ
reply2string (some (string s)) = s
reply2string (some (status s)) = s
reply2string _ = []

unfoldable pub reply2integer : Option Reply → ℤ
reply2integer (some (integer z)) = z
reply2integer _ = pos 0

-- `status.ok() && reply->type == REDIS_REPLY_ARRAY`: the elements, if the test holds.
unfoldable pub array_of : Status → Option Reply → Access (Option (List Reply))
array_of s reply =
    if ok s
    then (elim reply [
      | none ↦ null_pointer
      | some (array es) ↦ reads (some (elements_of (array es)))
      | some _ ↦ reads none
    ])
    else reads none

-- The two vectors of appendArgs, as one list of texts.
unfoldable pub append_args : List (List ℕ) → List (List ℕ) → List (List ℕ)
append_args [] args = args
append_args (x ∷ coll) args = append_args coll (args ++ x ∷ [])
