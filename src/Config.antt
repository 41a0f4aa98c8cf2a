-- ===== src/Config.antt =====
-- The configuration of a pool: REDIS_ENDPOINT and REDIS_CONFIG of hiredispool.h, the part of
-- redis_pool_create (hiredispool.c) that copies, checks and normalises it, and the conversion of
-- its timeouts at the head of connect_single_socket.
pub mod Bounds
use hiredispool.Base.{
  ℕ, zero, suc, ◌*◌, Bool, true, false, not, ◌&&◌, ◌||◌, Option, none, some, List, [], ◌∷◌, take,
  get_or, if◌then◌else◌, ℤ, pos, negsuc, pos_part, ltb_ℤ, leb_ℤ, quot, rem, mul_ℕ,
}

-- `host` holds the characters of the array before its NUL.
pub record Endpoint : Type 0 where
  pub host : List ℕ
  pub port : ℤ

-- `endpoints` is NULL or points to an array.
pub record Config : Type 0 where
  pub endpoints : Option (List Endpoint)
  pub num_endpoints : ℤ
  pub connect_timeout : ℤ
  pub net_readwrite_timeout : ℤ
  pub num_redis_socks : ℤ
  pub connect_failure_retry_delay : ℤ

pub record Timeval : Type 0 where
  pub tv_sec : ℤ
  pub tv_usec : ℤ

abbrev pub max_redis_socks : ℤ
max_redis_socks = pos 1000

-- The array of a configuration, and the number of its elements as a count.
abbrev pub endpoint_array : Option (List Endpoint) → List Endpoint
endpoint_array none = []
endpoint_array (some es) = es

abbrev pub endpoints_of : Config → List Endpoint
endpoints_of c = endpoint_array c.endpoints

abbrev pub count_of : Config → ℕ
count_of c = pos_part c.num_endpoints

-- What a read behind the end of the array stands for; no read goes there in a pool that was created.
abbrev pub no_endpoint : Endpoint
no_endpoint = record { host = []; port = pos 0 }

abbrev pub endpoint_at : Config → ℕ → Endpoint
endpoint_at c i = get_or (endpoints_of c) i no_endpoint

-- `config->endpoints == NULL || config->num_endpoints < 1`
unfoldable pub lacks_endpoint : Config → Bool
lacks_endpoint c = elim c.endpoints [ none ↦ true | some es ↦ ltb_ℤ c.num_endpoints (pos 1) ]

-- malloc and memcpy of the array, and the assignments of the other fields.
unfoldable pub assign_config : Config → Config
assign_config c = record c { endpoints = some (take (count_of c) (endpoints_of c)) }

-- `if (t <= 0) t = floor`
abbrev pub clamp : ℤ → ℤ → ℤ
clamp t floor = if leb_ℤ t (pos 0) then floor else t

unfoldable pub normalise : Config → Config
normalise c = record c {
  connect_timeout = clamp c.connect_timeout (pos 0);
  net_readwrite_timeout = clamp c.net_readwrite_timeout (pos 0);
  connect_failure_retry_delay = clamp c.connect_failure_retry_delay (negsuc 0);
}

abbrev pub is_empty : List ℕ → Bool
is_empty [] = true
is_empty (x ∷ xs) = false

-- The host is an array in the endpoint, so it is never NULL.
unfoldable pub endpoint_is_invalid : Endpoint → Bool
endpoint_is_invalid e = is_empty e.host || leb_ℤ e.port (pos 0) || ltb_ℤ (pos 65535) e.port

-- The loop over the endpoints, which stops at the first invalid one.
unfoldable pub endpoints_are_valid : List Endpoint → Bool
endpoints_are_valid [] = true
endpoints_are_valid (e ∷ es) = not (endpoint_is_invalid e) && endpoints_are_valid es

-- redis_pool_create up to the call of redis_init_socketpool: the configuration that the instance
-- keeps, or `none` where the function returns -1.
unfoldable pub accept_config : Config → Option Config
unfolding lacks_endpoint assign_config normalise endpoints_are_valid endpoint_is_invalid
accept_config c =
    let kept = assign_config c in
    if lacks_endpoint c
    then none
    else if ltb_ℤ max_redis_socks kept.num_redis_socks
    then none
    else if endpoints_are_valid (endpoints_of (normalise kept))
    then some (normalise kept)
    else none

-- The conversion of a timeout in milliseconds.
unfoldable pub to_timeval : ℤ → Timeval
to_timeval t = record { tv_sec = quot t 1000; tv_usec = mul_ℕ 1000 (rem t 1000) }
