-- ===== src/Config/Bounds.antt =====
-- What redis_pool_create makes of a configuration: which ones it accepts, and in which range the
-- values are that the rest of the pool relies on.
use hiredispool.Base.{
  ◌+◌, ◌*◌, ◌≤◌, ◌<◌, ◌≡◌, refl, ◌↔◌, ◌⊎◌, inl, inr, true, false, some, List, [], ◌∷◌, All, take,
  length, length-take, arith, ℤ, pos, negsuc, pos_part, ◌≤ℤ◌, Option-cases,
}
use hiredispool.Config.{
  Endpoint, Config, endpoints_of, count_of, endpoint_is_invalid, endpoints_are_valid, assign_config,
  normalise, accept_config, to_timeval,
}

-- An endpoint with a host name and a port that TCP has.
pub record IsEndpoint (e : Endpoint) : Type 0 where
  pub named : 0 < length e.host
  pub above : pos 1 ≤ℤ e.port
  pub below : e.port ≤ℤ pos 65535

-- What the pool relies on in the configuration that it keeps.
pub record IsAccepted (c : Config) : Type 0 where
  pub some_endpoint : 0 < count_of c
  pub counted : length (endpoints_of c) ≡ count_of c
  pub connect_nonneg : pos 0 ≤ℤ c.connect_timeout
  pub net_nonneg : pos 0 ≤ℤ c.net_readwrite_timeout
  pub few_socks : c.num_redis_socks ≤ℤ pos 1000
  pub delay : negsuc 0 ≤ℤ c.connect_failure_retry_delay
  pub delay_nonzero :
      (c.connect_failure_retry_delay ≡ negsuc 0) ⊎ (pos 1 ≤ℤ c.connect_failure_retry_delay)
  pub endpoints_ok : All IsEndpoint (endpoints_of c)

valid→IsEndpoint : (e : Endpoint) → endpoint_is_invalid e ≡ false → IsEndpoint e
unfolding endpoint_is_invalid
valid→IsEndpoint e h = ground arith

IsEndpoint→valid : (e : Endpoint) → IsEndpoint e → endpoint_is_invalid e ≡ false
unfolding endpoint_is_invalid
IsEndpoint→valid e h = ground arith

pub valid→All : (es : List Endpoint) → endpoints_are_valid es ≡ true → All IsEndpoint es
unfolding endpoints_are_valid
valid→All [] h = tt
valid→All (e ∷ es) h = (valid→IsEndpoint e (ground arith), valid→All es (ground arith))

pub All→valid : (es : List Endpoint) → All IsEndpoint es → endpoints_are_valid es ≡ true
unfolding endpoints_are_valid
All→valid [] h = refl
All→valid (e ∷ es) h = ground (arith, IsEndpoint→valid e h.0, All→valid es h.1)

-- The millisecond timeouts reach hiredis unchanged, in a normal form: for a timeout that is not
-- negative, `tv_usec` lies in [0, 1000000) and the two parts add up to it.
pub to_timeval_exact :
    (t : ℤ)
    → pos 0 ≤ℤ t
    → let v = to_timeval t in
      (1000 * pos_part v.tv_sec * 1000 + pos_part v.tv_usec ≡ 1000 * pos_part t)
      × (pos_part v.tv_usec < 1000000)
      × (pos 0 ≤ℤ v.tv_sec)
      × (pos 0 ≤ℤ v.tv_usec)
unfolding to_timeval
to_timeval_exact (pos n) h = omega arith
to_timeval_exact (negsuc n) h = absurd (omega arith)

-- What a caller has to pass: an array that holds the announced number of endpoints.
abbrev pub IsCounted : Config → Type 0
IsCounted c = count_of c ≤ length (endpoints_of c)

-- The configuration that is kept meets every range that the pool relies on: at least one endpoint,
-- an array as long as announced, timeouts that are not negative, at most 1000 sockets, a retry
-- delay of -1 or at least 1, and valid endpoints.
pub accept_config-IsAccepted :
    (c : Config) {k : Config} → IsCounted c → accept_config c ≡ some k → IsAccepted k
unfolding accept_config
accept_config-IsAccepted c h e = ground (
  arith,
  length-take (count_of c) (endpoints_of c),
  valid→All (take (count_of c) (endpoints_of c)),
)

-- The conditions under which redis_pool_create goes on to build the sockets.
pub record IsUsable (c : Config) : Type 0 where
  pub given : (es : List Endpoint) × (c.endpoints ≡ some es)
  pub positive : pos 1 ≤ℤ c.num_endpoints
  pub few : c.num_redis_socks ≤ℤ pos 1000
  pub valid : All IsEndpoint (take (count_of c) (endpoints_of c))

accepted→IsUsable : (c : Config) {k : Config} → accept_config c ≡ some k → IsUsable c
unfolding accept_config
accepted→IsUsable c e = elim (Option-cases c.endpoints) [
  | inl missing ↦ ground arith
  | inr (es, given) ↦ record {
    given = (es, given);
    positive = ground arith;
    few = ground arith;
    valid = ground (arith, valid→All (take (count_of c) (endpoints_of c)));
  }
]

-- A configuration is accepted exactly when it is usable: an array is given, at least one endpoint
-- is announced, at most 1000 sockets are asked for, and every announced endpoint has a host name
-- and a port from 1 to 65535.
pub accept_config_iff : (c : Config) → IsUsable c ↔ ((k : Config) × (accept_config c ≡ some k))
unfolding accept_config
accept_config_iff c = (
  λ u. (
    normalise (assign_config c),
    ground (arith, u.given.1, u.positive, u.few, All→valid _ u.valid),
  ),
  λ (k, e). accepted→IsUsable c e,
)
