-- ===== src/Ramcloud.antt =====
-- anka::ramcloud::Client of experimental/redisclient/RedisClientYaf.h and RedisClientYaf.cpp: redis
-- commands as methods. What this module has is shared by the commands: the replies of hiredis, the
-- requests, and what the client asks of its surroundings. A std::string is the list of its bytes.
pub mod Replies
pub mod Keys
pub mod Indices
pub mod Strings
pub mod Sets
pub mod Hashes
pub mod SortedSets
pub mod Ranges
pub mod Dicts
pub mod Commands
pub mod Meta
pub mod Watcher
pub mod Pointers
pub mod Sharing
pub mod Registration
pub mod Service
pub mod Timing
pub mod Injection
use hiredispool.Base.{
  ℕ, ◌+◌, ◌-◌, ◌%◌, Bool, true, false, ◌||◌, Option, none, some, List, [], ◌∷◌, ◌++◌, ℤ, pos,
  negsuc, neg, ltb, if◌then◌else◌, codes, text_eq,
}

-- redisReply of hiredis, by its type: REDIS_REPLY_STRING, _ARRAY, _INTEGER, _NIL, _STATUS and _ERROR.
mutual
  pub data Reply : Type 0 where
    string status error : List ℕ → Reply
    array : Elements → Reply
    integer : ℤ → Reply
    nil : Reply

  pub data Elements : Type 0 where
    end : Elements
    element : Reply → Elements → Elements

unfoldable pub to_list : Elements → List Reply
to_list end = []
to_list (element r es) = r ∷ to_list es

-- `reply->elements` and `reply->element`: hiredis clears the fields that a type does not use.
unfoldable pub elements_of : Reply → List Reply
elements_of (array es) = to_list es
elements_of _ = []

-- `std::string(reply->str, reply->len)`
unfoldable pub text_of : Reply → List ℕ
text_of (string s) = s
text_of (status s) = s
text_of (error s) = s
text_of _ = []

-- RedisCommandInfo and RedisReplyPack of RedisClient.h.
pub record Info : Type 0 where
  pub err : ℤ
  pub errstr : List ℕ
  pub host : List ℕ
  pub port : ℤ

pub record Pack : Type 0 where
  pub reply : Option Reply
  pub info : Info

-- The conversion of RedisReplyPtr to redisReply*.
unfoldable pub reply_of : Option Pack → Option Reply
reply_of none = none
reply_of (some p) = p.reply

-- One directive of a format: literal text, `%s` on `x.c_str()`, `%b`, `%d` or `%lld`, `%u`, and `%f`.
pub data Piece (D : Type 0) : Type 0 where
  word str bin : List ℕ → Piece D
  num : ℤ → Piece D
  unsigned : ℕ → Piece D
  float : D → Piece D

-- A call of myRedisCommand, by the directives of its format, which stand with one space between
-- them, or of myRedisCommandArgv, by its arguments with their lengths.
pub data Request (D : Type 0) : Type 0 where
  formatted : List (Piece D) → Request D
  argv : List (List ℕ) → Request D

-- How sox::unmarshal_container ends, with what it has put into the map: it returns, or it throws
-- UnpackError, or another exception with a text.
pub data Unpacked (M : Type 0) : Type 0 where
  unpacked unpack_error : M → Unpacked M
  exception : M → List ℕ → Unpacked M

-- What the methods call: the command, through _init and the client; sprintf with "%f", atof and atol of
-- libc, over its type of doubles; marshal_container, which may throw, and unmarshal_container.
pub record Server (W D : Type 0) : Type 0 where
  pub command : Request D → W → Option Pack × W
  pub print_double : D → List ℕ
  pub atof : List ℕ → D
  pub atol : List ℕ → ℤ
  pub marshal : List (ℕ × List ℕ) → Option (List ℕ)
  pub marshal_error : List ℕ
  pub unmarshal : List ℕ → List (ℕ × List ℕ) → Unpacked (List (ℕ × List ℕ))

-- The class Status.
pub record Status : Type 0 where
  pub code : List ℕ

unfoldable pub ok : Status → Bool
ok s = text_eq s.code (codes "ok") || text_eq s.code (codes "not_found")

unfoldable pub not_found : Status → Bool
not_found s = text_eq s.code (codes "not_found")

-- The conversion of a 64-bit integer to `int`: the low 32 bits, signed.
unfoldable pub low_bits : ℤ → ℕ
low_bits (pos n) = n % 4294967296
low_bits (negsuc n) = 4294967295 - n % 4294967296

unfoldable pub to_int : ℤ → ℤ
to_int z = let b = low_bits z in if ltb b 2147483648 then pos b else neg (4294967296 - b)

-- `if (p) *p = v;` through a pointer that may be NULL.
unfoldable pub store : Option ℤ → ℤ → Option ℤ
store none v = none
store (some old) v = some v

-- A std::map from strings, as a list of pairs: `d[k] = v`, `d.find(k)` and `d.erase(k)`.
module _ {ℓ} {V : Type ℓ} where
  unfoldable pub insert : List ℕ → V → List (List ℕ × V) → List (List ℕ × V)
  insert k v [] = (k, v) ∷ []
  insert k v ((j, u) ∷ d) = if text_eq j k then (k, v) ∷ d else (j, u) ∷ insert k v d

  unfoldable pub lookup : List ℕ → List (List ℕ × V) → Option V
  lookup k [] = none
  lookup k ((j, u) ∷ d) = if text_eq j k then some u else lookup k d

  unfoldable pub erase : List ℕ → List (List ℕ × V) → List (List ℕ × V)
  erase k [] = []
  erase k ((j, u) ∷ d) = let rest = erase k d in if text_eq j k then rest else (j, u) ∷ rest

-- `members.insert(x)` on a std::set
unfoldable pub insert_member : List ℕ → List (List ℕ) → List (List ℕ)
insert_member x [] = x ∷ []
insert_member x (y ∷ ys) = if text_eq y x then y ∷ ys else y ∷ insert_member x ys

-- What reading a reply ends in: a value, a NULL that is dereferenced, or an access past the end of
-- `element`.
pub data Access {ℓ} (A : Type ℓ) : Type ℓ where
  reads : A → Access A
  null_pointer past_end : Access A
