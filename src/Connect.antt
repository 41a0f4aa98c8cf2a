-- ===== src/Connect.antt =====
-- connect_single_socket of hiredispool.c. The code writes the socket, and `connect_after` of the
-- instance if it fails; both come back in a `Connected`, with the platform's world.
pub mod Ring
pub mod Attempts
pub mod Results
pub mod Contexts
use hiredispool.Base.{
  ℕ, zero, suc, ◌+◌, ◌-◌, ◌%◌, Option, none, some, ltb, ◌==◌, if◌then◌else◌, ℤ, pos, negsuc, ◌+ℤ◌,
}
use hiredispool.Config.{Config, count_of, endpoint_at, to_timeval}
use hiredispool.Platform.{Platform}
use hiredispool.Instance.{sockunconnected, sockconnected, Socket}

pub record Connected (W : Type 0) : Type 0 where
  pub rc : ℤ
  pub sock : Socket
  pub connect_after : ℤ
  pub world : W

-- How the loop over the endpoints ends: with a usable context, or after the last endpoint with what
-- the last attempt returned.
pub data Outcome (W : Type 0) : Type 0 where
  established : ℕ → Socket → W → Outcome W
  exhausted : Option ℕ → Socket → W → Outcome W

-- `(redisocket->backup + 1) % inst->config->num_endpoints`
unfoldable pub advance : Config → Socket → Socket
advance k s = record s { backup = (s.backup + 1) % count_of k }

module _ {W : Type 0} (p : Platform W) where
  -- `c && c->err == 0`: the context, if it can be used.
  unfoldable pub usable : Option ℕ → W → Option ℕ
  usable none w = none
  usable (some c) w = elim (p.err c w) [ pos n ↦ if n == 0 then some c else none | negsuc n ↦ none ]

  -- redisConnectWithTimeout to the endpoint of the backup index.
  unfoldable pub try_endpoint : Config → Socket → W → Option ℕ × W
  try_endpoint k s w =
      let e = endpoint_at k s.backup in
      p.redis_connect_with_timeout e.host e.port (to_timeval k.connect_timeout) w

  -- `if (c) redisFree(c);`
  unfoldable pub discard : Option ℕ → W → W
  discard none w = w
  discard (some c) w = p.redis_free (some c) w

  -- The `for` loop, by the number of rounds left. With no round at all `c` is not set.
  unfoldable pub connect_loop : ℕ → Config → Socket → W → Outcome W
  connect_loop zero k s w = exhausted none s w
  connect_loop (suc n) k s w =
      let (c, w1) = try_endpoint k s w in
      let rest = connect_loop n k (advance k s) (discard c w1) in
      elim (usable c w1) [
        | some h ↦ established h s w1
        | none ↦ if n == 0 then exhausted c s w1 else rest
      ]

  -- The next backup after a success: another endpoint at random, if there is another.
  unfoldable pub choose_backup : Config → Socket → W → Socket × W
  choose_backup k s w =
      if ltb 1 (count_of k)
      then (let (r, v) = p.rand w in
          (record s { backup = (s.backup + (1 + r % (count_of k - 1))) % count_of k }, v))
      else (s, w)

  -- The body of the success branch. A failure of the two setters is logged and nothing else.
  unfoldable pub on_success : Config → ℤ → ℕ → Socket → W → Connected W
  on_success k after c s w =
      let (s1, w1) = choose_backup k (record s { conn = some c; state = sockconnected }) w in
      let (_, w2) = p.redis_set_timeout c (to_timeval k.net_readwrite_timeout) w1 in
      let (_, w3) = p.redis_enable_keep_alive c w2 in
      record { rc = pos 0; sock = s1; connect_after = after; world = w3 }

  -- What follows the loop when no endpoint was usable.
  unfoldable pub on_failure : Config → Option ℕ → Socket → W → Connected W
  unfolding discard advance
  on_failure k c s w =
      let (now, w1) = p.time (discard c w) in
      record {
        rc = negsuc 0;
        sock = advance k (record s { conn = none; state = sockunconnected });
        connect_after = now +ℤ k.connect_failure_retry_delay;
        world = w1;
      }

  unfoldable pub finish : Config → ℤ → Outcome W → Connected W
  finish k after (established c s w) = on_success k after c s w
  finish k after (exhausted c s w) = on_failure k c s w

  -- `after` is the instance's `connect_after`, which a success leaves as it is.
  unfoldable pub connect_single_socket : Config → ℤ → Socket → W → Connected W
  connect_single_socket k after s w = finish k after (connect_loop (count_of k) k s w)
