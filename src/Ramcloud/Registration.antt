-- ===== src/Ramcloud/Registration.antt =====
-- init of the namespaces ramcloud and redis of RedisClientYaf.cpp: what their objects CONFIG ask the
-- framework for, and what it can tell them.
pub mod Fixed
use hiredispool.Base.{
  ℕ, Bool, true, false, Option, none, some, List, [], ◌∷◌, pos, if◌then◌else◌, codes,
}
use hiredispool.Ramcloud.Watcher.{
  Peer, ConfigWatcher, fresh, on_add_server, on_remove_server, Notice, configured, added, removed,
  asked,
}

-- The calls of `ob->RegisterWatcher(CONFIG.key, &CONFIG)` and of `watchS2S(&CONFIG)`.
pub data Registration : Type 0 where
  register_watcher : List ℕ → Registration
  watch_s2s : Registration

-- The objects CONFIG of the two namespaces.
module _ {C : Type 0} where
  unfoldable pub ramcloud_config : ConfigWatcher C
  ramcloud_config = fresh (codes "ramcloudsources")

  unfoldable pub redis_config : ConfigWatcher C
  redis_config = fresh (codes "redisources")

-- `init`, with and without a framework.
unfoldable pub ramcloud_init : List ℕ → Bool → List Registration
ramcloud_init key fwk = register_watcher key ∷ (if fwk then watch_s2s ∷ [] else [])

-- The call of watchS2S is commented out.
unfoldable pub redis_init : List ℕ → Bool → List Registration
redis_init key fwk = register_watcher key ∷ (if fwk then [] else [])

unfoldable pub watches_config : List Registration → Bool
watches_config [] = false
watches_config (register_watcher key ∷ rs) = true
watches_config (watch_s2s ∷ rs) = watches_config rs

unfoldable pub watches_servers : List Registration → Bool
watches_servers [] = false
watches_servers (register_watcher key ∷ rs) = watches_servers rs
watches_servers (watch_s2s ∷ rs) = true

-- Whether a notice can come, after these calls: the framework tells a watcher only what it watches.
unfoldable pub can_come : List Registration → Notice → Bool
can_come rs (configured values) = watches_config rs
can_come rs (added peer) = watches_servers rs
can_come rs (removed peer) = watches_servers rs
can_come rs (asked dbname) = true
