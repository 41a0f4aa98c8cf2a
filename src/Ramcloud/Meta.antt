-- ===== src/Ramcloud/Meta.antt =====
-- Config::Meta of RedisClientYaf.cpp, ip_ntoa, and Config::convert, which reads the attributes of a
-- database.
pub mod Laws
use hiredispool.Base.{
  ℕ, ◌+◌, ◌/◌, ◌%◌, Bool, true, false, ◌&&◌, ◌||◌, Option, none, some, List, [], ◌∷◌, ◌++◌, ℤ, pos,
  negsuc, ltb, ◌==◌, if◌then◌else◌, codes, text_eq, c_str, length,
}
use hiredispool.Config.{Endpoint, Config}
use hiredispool.Ramcloud.{lookup, low_bits}

pub record Meta : Type 0 where
  pub key : List ℕ
  pub dbname : List ℕ
  pub conf : Config
  pub endpoints : List Endpoint
  pub s2sname : List ℕ
  pub group_id : ℕ

-- `memset(&conf, 0, sizeof(REDIS_CONFIG))`
abbrev pub cleared : Config
cleared = record {
  endpoints = none;
  num_endpoints = pos 0;
  connect_timeout = pos 0;
  net_readwrite_timeout = pos 0;
  num_redis_socks = pos 0;
  connect_failure_retry_delay = pos 0;
}

unfoldable pub meta_of : List ℕ → List ℕ → Meta
meta_of key dbname = record {
  key = key;
  dbname = dbname;
  conf = cleared;
  endpoints = [];
  s2sname = [];
  group_id = 0;
}

unfoldable pub to_conf : Meta → Config
to_conf m = elim m.endpoints [
  | [] ↦ record m.conf { num_endpoints = pos 0; endpoints = none }
  | e ∷ es ↦ record m.conf { num_endpoints = pos (length (e ∷ es)); endpoints = some (e ∷ es) }
]

abbrev pub int_eq : ℤ → ℤ → Bool
int_eq (pos a) (pos b) = a == b
int_eq (pos a) (negsuc b) = false
int_eq (negsuc a) (pos b) = false
int_eq (negsuc a) (negsuc b) = a == b

-- `strcmp(eq.host, ep.host) == 0 && eq.port == ep.port`
unfoldable pub same_endpoint : Endpoint → Endpoint → Bool
same_endpoint eq ep = text_eq eq.host ep.host && int_eq eq.port ep.port

unfoldable pub has_endpoint : List Endpoint → Endpoint → Bool
has_endpoint [] ep = false
has_endpoint (eq ∷ eqs) ep = same_endpoint eq ep || has_endpoint eqs ep

unfoldable pub add_endpoint : Endpoint → Meta → Meta
add_endpoint ep m =
    if has_endpoint m.endpoints ep then m else record m { endpoints = m.endpoints ++ ep ∷ [] }

-- The loop that erases.
unfoldable pub without : Endpoint → List Endpoint → List Endpoint
without ep [] = []
without ep (eq ∷ eqs) = let rest = without ep eqs in if same_endpoint eq ep then rest else eq ∷ rest

unfoldable pub remove_endpoint : Endpoint → Meta → Meta
remove_endpoint ep m = record m { endpoints = without ep m.endpoints }

unfoldable pub set_conf : Config → Meta → Meta
set_conf cf m = record m { conf = cf }

-- "%d" of a byte.
unfoldable pub decimal : ℕ → List ℕ
decimal n =
    if ltb n 10
    then (b'0' + n) ∷ []
    else if ltb n 100
    then (b'0' + n / 10) ∷ (b'0' + n % 10) ∷ []
    else (b'0' + n / 100) ∷ (b'0' + n / 10 % 10) ∷ (b'0' + n % 10) ∷ []

-- ip_ntoa, on the address in the byte order of the host, which ntohl gives.
unfoldable pub ip_ntoa : ℕ → List ℕ
ip_ntoa a =
    let rest = decimal (a / 256 % 256) ++ (b'.' ∷ decimal (a % 256)) in
    decimal (a / 16777216 % 256) ++ (b'.' ∷ (decimal (a / 65536 % 256) ++ (b'.' ∷ rest)))

module _ (atoi : List ℕ → ℤ) where
  -- `attrs.find(name) == attrs.end() ? old : atoi(...)`
  unfoldable pub attribute : List ℕ → ℤ → List (List ℕ × List ℕ) → ℤ
  attribute name old attrs = elim (lookup name attrs) [ none ↦ old | some v ↦ atoi (c_str v) ]

  -- The endpoint of two attributes, if both are there.
  unfoldable pub endpoint_from : List ℕ → List ℕ → List (List ℕ × List ℕ) → Meta → Meta
  endpoint_from host port attrs m = elim (lookup host attrs) [
    | none ↦ m
    | some h ↦ elim (lookup port attrs) [
      | none ↦ m
      | some p ↦ add_endpoint (record { host = c_str h; port = atoi (c_str p) }) m
    ]
  ]

  -- The timeouts and sizes, with their defaults.
  unfoldable pub conf_from : List (List ℕ × List ℕ) → Config
  conf_from attrs = record {
    endpoints = none;
    num_endpoints = pos 0;
    connect_timeout = attribute (codes "connect_timeout") (pos 500) attrs;
    net_readwrite_timeout = attribute (codes "net_readwrite_timeout") (pos 500) attrs;
    num_redis_socks = attribute (codes "num_redis_socks") (pos 100) attrs;
    connect_failure_retry_delay = attribute (codes "connect_failure_retry_delay") (pos 1) attrs;
  }

  unfoldable pub s2sname_from : List (List ℕ × List ℕ) → List ℕ
  s2sname_from attrs = elim (lookup (codes "s2sname") attrs) [ none ↦ [] | some v ↦ v ]

  unfoldable pub convert : List (List ℕ × List ℕ) → Meta → Meta
  convert attrs m =
      let first = endpoint_from (codes "host") (codes "port") attrs m in
      let both = endpoint_from (codes "backup_host") (codes "backup_port") attrs first in
      record (set_conf (conf_from attrs) both) {
        s2sname = s2sname_from attrs;
        group_id = low_bits (attribute (codes "groupId") (pos 0) attrs);
      }
