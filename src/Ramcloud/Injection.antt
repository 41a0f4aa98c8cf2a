-- ===== src/Ramcloud/Injection.antt =====
-- ip_addr, _injectAddServer and _injectRemoveServer of RedisClientYaf.cpp: two servers that are made up, for
-- trying out the class Config without a framework.
pub mod Remains
use hiredispool.Base.{ℕ, Option, none, some, List, pos, codes}
use hiredispool.Ramcloud.Watcher.{Peer, ConfigWatcher, on_add_server, on_remove_server}

-- `server`, with the address that its `isp2Ip[anka::CTL]` is set to.
unfoldable pub mock_server : ℕ → Peer
mock_server ip = record { name = codes "mock"; group_id = 100; ip = ip; listen_port = pos 9403 }

-- The result of inet_aton, in the byte order of the host, or INADDR_NONE.
unfoldable pub address_or_none : Option ℕ → ℕ
address_or_none none = 4294967295
address_or_none (some a) = a

module _ (inet_aton : List ℕ → Option ℕ) where
  unfoldable pub ip_addr : List ℕ → ℕ
  ip_addr ip_str = address_or_none (inet_aton ip_str)

  module _ {C : Type 0} where
    unfoldable pub inject_add_server : ConfigWatcher C → ConfigWatcher C
    inject_add_server s =
        let first = on_add_server (mock_server (ip_addr (codes "106.38.198.210"))) s in
        on_add_server (mock_server (ip_addr (codes "106.120.184.86"))) first

    -- The second server is not removed: those lines are commented out.
    unfoldable pub inject_remove_server : ConfigWatcher C → ConfigWatcher C
    inject_remove_server s = on_remove_server (mock_server (ip_addr (codes "106.38.198.210"))) s
