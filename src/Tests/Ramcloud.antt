-- ===== src/Tests/Ramcloud.antt =====
-- The theorems on the commands of anka::ramcloud, each at an input that exercises it: a server that keeps
-- strings.
use hiredispool.Base.{
  ℕ, ◌≡◌, ◌≢◌, ◌≤◌, ◌<◌, ◌↔◌, refl, sym, ap, ◌∙◌, true, Option, none, some, List, [], ◌∷◌, map, ℤ,
  pos, negsuc, codes, text_eq, c_str, length, if◌then◌else◌, All, arith,
}
use hiredispool.Ramcloud.{
  Reply, string, status, error, array, nil, Elements, end, element, Pack, Piece, word, str, bin,
  num, unsigned, float, Request, formatted, argv, Unpacked, unpacked, Server, ok, insert, lookup,
  null_pointer, past_end, to_list, reply_of,
}
use hiredispool.Ramcloud.Dicts.{lookup-insert_self}
use hiredispool.Ramcloud.Replies.{reply2status, append_args}
use hiredispool.Ramcloud.Replies.Laws.{Succeeds, ok_iff}
use hiredispool.Ramcloud.Keys.{del_string_key, del_string_keys}
use hiredispool.Ramcloud.Strings.{mget, set_map_value, get_map_value}
use hiredispool.Ramcloud.Sets.{sadd, sadd_all, srem, srem_all, smembers}
use hiredispool.Ramcloud.Hashes.{hdel, hdel_all, hmget, hgetall}
use hiredispool.Ramcloud.SortedSets.{zadd, zadd_all, zrem, zrem_all}
use hiredispool.Ramcloud.Ranges.{
  zrange_impl, zrange_with_scores_impl, zrangbyscore_impl, zrangbyscore_with_scores_impl,
}
use hiredispool.Ramcloud.Commands.Safety.{commands_safe}
use hiredispool.Ramcloud.Indices.{Reads}
use hiredispool.Ramcloud.Commands.Overloads.{argument, arguments, ByArguments, overloads_agree}
use hiredispool.Ramcloud.Commands.Fetching.{Filled, mget_lem}
use hiredispool.Ramcloud.Commands.Storing.{KeepsStrings, Unmarshals, get_map_value-set_map_value}

abbrev Dict : Type 0
Dict = List (List ℕ × List ℕ)

abbrev answer : Reply → Pack
answer r = record {
  reply = some r;
  info = record { err = pos 0; errstr = []; host = []; port = pos 0 };
}

abbrev found : Option (List ℕ) → Reply
found none = nil
found (some v) = string v

abbrev found_all : List (List ℕ) → Dict → Elements
found_all [] d = end
found_all (k ∷ ks) d = element (found (lookup k d)) (found_all ks d)

-- GET, SET, SETEX and MGET; the other commands are errors.
abbrev run : List (List ℕ) → Dict → Option Pack × Dict
run (cmd ∷ key ∷ []) d =
    if text_eq cmd (codes "GET")
    then (some (answer (found (lookup key d))), d)
    else (some (answer (array (found_all (key ∷ []) d))), d)
run (cmd ∷ key ∷ val ∷ []) d =
    if text_eq cmd (codes "SET")
    then (some (answer (status (codes "OK"))), insert key val d)
    else (some (answer (array (found_all (key ∷ val ∷ []) d))), d)
run (cmd ∷ key ∷ t ∷ val ∷ []) d = (some (answer (status (codes "OK"))), insert key val d)
run _ d = (some (answer (error (codes "ERR"))), d)

abbrev marshal_one : List (ℕ × List ℕ) → Option (List ℕ)
marshal_one [] = some []
marshal_one ((k, v) ∷ []) = some (k ∷ v)
marshal_one (x ∷ y ∷ m) = none

abbrev unmarshal_one : List ℕ → List (ℕ × List ℕ) → Unpacked (List (ℕ × List ℕ))
unmarshal_one [] m = unpacked m
unmarshal_one (k ∷ v) m = unpacked ((k, v) ∷ m)

abbrev libc : Server Dict ℕ
libc = record {
  command = λ r d. (none, d);
  print_double = λ x. b'1' ∷ [];
  atof = λ s. 1;
  atol = λ s. pos 1;
  marshal = marshal_one;
  marshal_error = codes "too long";
  unmarshal = unmarshal_one;
}

abbrev print_num : ℤ → List ℕ
print_num z = b'1' ∷ []

abbrev print_unsigned : ℕ → List ℕ
print_unsigned n = b'1' ∷ []

abbrev server : Server Dict ℕ
server = record libc { command = λ r d. run (arguments libc print_num print_unsigned r) d }

argument_same :
    (p : Piece ℕ)
    → argument server print_num print_unsigned p ≡ argument libc print_num print_unsigned p
argument_same (word s) = refl
argument_same (str s) = refl
argument_same (bin s) = refl
argument_same (num z) = refl
argument_same (unsigned n) = refl
argument_same (float x) = refl

arguments_same :
    (ps : List (Piece ℕ))
    → map (argument server print_num print_unsigned) ps
      ≡ map (argument libc print_num print_unsigned) ps
arguments_same [] = refl
arguments_same (p ∷ ps) = cc (argument_same p, arguments_same ps)

request_same :
    (r : Request ℕ)
    → arguments server print_num print_unsigned r ≡ arguments libc print_num print_unsigned r
request_same (formatted ps) = arguments_same ps
request_same (argv args) = refl

server-ByArguments : ByArguments server print_num print_unsigned
server-ByArguments r q h w = ap (λ args. run args w) (sym (request_same r) ∙ h ∙ request_same q)

server-KeepsStrings : KeepsStrings server
unfolding reply_of
server-KeepsStrings = record {
  stored = λ d key. lookup (c_str key) d;
  set_stores = λ key val d h. lookup-insert_self (c_str key) val d;
  setex_stores = λ key val t d h. lookup-insert_self (c_str key) val d;
  get_answers = λ key val d h. ap (λ o. some (found o)) h;
}

server-Unmarshals : Unmarshals server
server-Unmarshals [] b e = ground arith
server-Unmarshals ((k, v) ∷ []) b e = ground arith
server-Unmarshals (x ∷ y ∷ m) b e = cc

abbrev key : List ℕ
key = codes "k"

abbrev other : List ℕ
other = codes "m"

abbrev refused : Pack
refused = answer (error (codes "ERR wrong number of arguments"))

ok_iff_example :
    (ok (reply2status (some refused)) ≡ true)
    ↔ ((r : Reply) × (reply_of (some refused) ≡ some r) × Succeeds r)
ok_iff_example = ok_iff (some refused)

-- The server after one value has been stored.
abbrev stored : Dict
stored = (key, codes "value") ∷ []

commands_safe_example :
    ((mget server (key ∷ other ∷ []) [] stored).1 ≢ null_pointer)
    × ((hmget server key (key ∷ other ∷ []) [] stored).1 ≢ null_pointer)
    × Reads (smembers server key [] stored).1
    × Reads (hgetall server key [] stored).1
    × Reads (zrange_impl server (codes "ZRANGE") key (pos 0) (negsuc 0) [] stored).1
    × Reads (zrange_with_scores_impl server (codes "ZRANGE") key (pos 0) (negsuc 0) [] stored).1
    × Reads (zrangbyscore_impl server (codes "ZRANGE") key (codes "0") (codes "9") [] stored).1
    × Reads
        (zrangbyscore_with_scores_impl server
          (codes "ZRANGE")
          key
          (codes "0")
          (codes "9")
          []
          stored).1
commands_safe_example =
    commands_safe server key (codes "ZRANGE") (codes "0") (codes "9") (key ∷ other ∷ []) [] (pos 0)
      (negsuc 0) [] [] stored

key-NulFree : All (λ x. x ≢ 0) key
key-NulFree = ground arith

other-NulFree : All (λ x. x ≢ 0) other
other-NulFree = ground arith

overloads_agree_example :
    (del_string_key server key none stored ≡ del_string_keys server (key ∷ []) none stored)
    × (sadd server key other stored ≡ sadd_all server key (other ∷ []) stored)
    × (srem server key other none stored ≡ srem_all server key (other ∷ []) none stored)
    × (hdel server key other none stored ≡ hdel_all server key (other ∷ []) none stored)
    × (zadd server key 2 other stored ≡ zadd_all server key ((other, 2) ∷ []) stored)
    × (zrem server key other none stored ≡ zrem_all server key (other ∷ []) none stored)
overloads_agree_example =
    overloads_agree server print_num print_unsigned server-ByArguments key other key-NulFree
      other-NulFree none 2 stored

abbrev fetched : Elements
fetched = element (string (codes "value")) (element nil end)

fetch :
    reply_of (server.command (argv (append_args (key ∷ other ∷ []) (codes "MGET" ∷ []))) stored).0
    ≡ some (array fetched)
unfolding reply_of append_args lookup
fetch = refl

mget_lem_example :
    (2 ≤ length (to_list fetched)
      → Filled (key ∷ other ∷ []) (to_list fetched) [] (mget server (key ∷ other ∷ []) [] stored).1)
    × (length (to_list fetched) < 2 → (mget server (key ∷ other ∷ []) [] stored).1 ≡ past_end)
mget_lem_example = mget_lem server (key ∷ other ∷ []) [] stored fetched fetch

abbrev values : List (ℕ × List ℕ)
values = (7, codes "seven") ∷ []

set_values : ok (set_map_value server key values (negsuc 0) stored).0 ≡ true
unfolding set_map_value ok reply2status
set_values = refl

get_map_value-set_map_value_example :
    let (s, value, key_exist, _) =
      get_map_value server key [] (set_map_value server key values (negsuc 0) stored).1 in
    (s ≡ record { code = codes "ok" }) × (value ≡ values) × (key_exist ≡ true)
get_map_value-set_map_value_example =
    get_map_value-set_map_value server server-KeepsStrings server-Unmarshals key (7 ∷ codes "seven")
      values (negsuc 0) stored refl set_values

-- A server that does not answer.
lost : reply_of (libc.command (formatted (word (codes "GET") ∷ str key ∷ [])) stored).0 ≡ none
unfolding reply_of
lost = refl
