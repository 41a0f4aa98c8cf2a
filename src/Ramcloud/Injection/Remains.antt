-- ===== src/Ramcloud/Injection/Remains.antt =====
-- What the two made-up servers of RedisClientYaf.cpp leave behind.
use hiredispool.Base.{
  ℕ, ◌<◌, ◌≡◌, ◌∙◌, refl, ap, true, false, Option, none, some, List, [], ◌∷◌, ◌++◌, pos, codes,
  arith,
}
use hiredispool.Config.{Endpoint}
use hiredispool.Ramcloud.Meta.{
  Meta, ip_ntoa, decimal, same_endpoint, has_endpoint, add_endpoint, without, remove_endpoint,
}
use hiredispool.Ramcloud.Watcher.{
  Peer, ConfigWatcher, find_inst, find_meta, matches, endpoint_of, on_add_server, on_remove_server,
}
use hiredispool.Ramcloud.Watcher.Races.{update_all-hit}
use hiredispool.Ramcloud.Watcher.Servers.{update_all-gone, without-append, matches-add_endpoint}
use hiredispool.Ramcloud.Injection.{
  mock_server, address_or_none, ip_addr, inject_add_server, inject_remove_server,
}

abbrev pub first : Endpoint
first = record { host = codes "106.38.198.210"; port = pos 9403 }

abbrev pub second : Endpoint
second = record { host = codes "106.120.184.86"; port = pos 9403 }

-- Another endpoint at the end stays where one is taken out.
without-other :
    (ep other : Endpoint) (es : List Endpoint)
    → same_endpoint other ep ≡ false
    → without ep (es ++ other ∷ []) ≡ without ep es ++ other ∷ []
unfolding without
without-other ep other [] ne = ground arith
without-other ep other (e ∷ es) ne = ground (arith, without-other ep other es ne)

has_endpoint-other :
    (ep other : Endpoint) (es : List Endpoint)
    → same_endpoint other ep ≡ false
    → has_endpoint es ep ≡ false
    → has_endpoint (es ++ other ∷ []) ep ≡ false
unfolding has_endpoint
has_endpoint-other ep other [] ne h = ground arith
has_endpoint-other ep other (e ∷ es) ne h = ground (arith, has_endpoint-other ep other es ne)

add_endpoint-new :
    (ep : Endpoint) (m : Meta)
    → has_endpoint m.endpoints ep ≡ false
    → add_endpoint ep m ≡ record m { endpoints = m.endpoints ++ ep ∷ [] }
unfolding add_endpoint
add_endpoint-new ep m h = rw h refl

-- Of two endpoints that are added, the first is taken out.
remove_endpoint-first :
    (m : Meta) (a b : Endpoint)
    → same_endpoint a b ≡ false
    → same_endpoint b a ≡ false
    → has_endpoint m.endpoints a ≡ false
    → has_endpoint m.endpoints b ≡ false
    → remove_endpoint a (add_endpoint b (add_endpoint a m))
      ≡ record m { endpoints = m.endpoints ++ b ∷ [] }
unfolding remove_endpoint
remove_endpoint-first m a b ab ba h k =
    let one = record m { endpoints = m.endpoints ++ a ∷ [] } in
    let both =
      ap (add_endpoint b) (add_endpoint-new a m h)
      ∙ add_endpoint-new b one (has_endpoint-other b a m.endpoints ab k) in
    ap (remove_endpoint a) both
    ∙ ap (λ es. record m { endpoints = es })
        (without-other a b (m.endpoints ++ a ∷ []) ba
          ∙ ap (λ es. es ++ b ∷ []) (without-append a m.endpoints h))

apart : same_endpoint first second ≡ false
unfolding same_endpoint
apart = refl

apart_too : same_endpoint second first ≡ false
unfolding same_endpoint
apart_too = refl

matches-mock_server :
    (m : Meta) (ip : ℕ)
    → m.s2sname ≡ codes "mock"
    → m.group_id ≡ 100
    → matches m (mock_server ip) ≡ true
unfolding matches mock_server
matches-mock_server m ip e f = rw (e, f) refl

-- Two servers of a database come, and the first goes.
module _ {C : Type 0} (db : List ℕ) (m : Meta) (a b : Peer) (s : ConfigWatcher C) where
  first_goes :
      find_meta db s ≡ some m
      → matches m a ≡ true
      → matches m b ≡ true
      → same_endpoint (endpoint_of a) (endpoint_of b) ≡ false
      → same_endpoint (endpoint_of b) (endpoint_of a) ≡ false
      → has_endpoint m.endpoints (endpoint_of a) ≡ false
      → has_endpoint m.endpoints (endpoint_of b) ≡ false
      → let t = on_remove_server a (on_add_server b (on_add_server a s)) in
        (find_meta db t ≡ some (record m { endpoints = m.endpoints ++ endpoint_of b ∷ [] }))
        × (find_inst db t ≡ none)
  unfolding find_meta find_inst on_add_server on_remove_server
  first_goes e ma mb ab ba na nb =
      let of_a = endpoint_of a in
      let of_b = endpoint_of b in
      let t = on_add_server a s in
      let u = on_add_server b t in
      let one = add_endpoint of_a m in
      let two = add_endpoint of_b one in
      let there = update_all-hit (add_endpoint of_a) a s.meta_map s.inst_map db m e ma in
      let mb1 : matches one b ≡ true = matches-add_endpoint of_a m b ∙ mb in
      let both = update_all-hit (add_endpoint of_b) b t.meta_map t.inst_map db one there mb1 in
      let ma2 : matches two a ≡ true =
        matches-add_endpoint of_b one a ∙ matches-add_endpoint of_a m a ∙ ma in
      (
        update_all-hit (remove_endpoint of_a) a u.meta_map u.inst_map db two both ma2
            ∙ ap some (remove_endpoint-first m of_a of_b ab ba na nb),
        update_all-gone (remove_endpoint of_a) a u.meta_map u.inst_map db two both ma2,
      )

module _ (inet_aton : List ℕ → Option ℕ)
    (reads_back : (a : ℕ) → a < 4294967296 → inet_aton (ip_ntoa a) ≡ some a) where
  endpoint_of-mock_server :
      (a : ℕ)
      → a < 4294967296
      → endpoint_of (mock_server (ip_addr inet_aton (ip_ntoa a)))
        ≡ record { host = ip_ntoa a; port = pos 9403 }
  unfolding endpoint_of mock_server ip_addr address_or_none
  endpoint_of-mock_server a h =
      ap (λ o. record { host = ip_ntoa (address_or_none o); port = pos 9403 }) (reads_back a h)

  first_host : endpoint_of (mock_server (ip_addr inet_aton (codes "106.38.198.210"))) ≡ first
  unfolding ip_ntoa decimal
  first_host = endpoint_of-mock_server 1780926162 (omega arith)

  second_host : endpoint_of (mock_server (ip_addr inet_aton (codes "106.120.184.86"))) ≡ second
  unfolding ip_ntoa decimal
  second_host = endpoint_of-mock_server 1786296406 (omega arith)

  -- Where inet_aton reads what ip_ntoa prints, and a database is served by "mock", in group 100, with neither of
  -- the two endpoints in its configuration: _injectAddServer and then _injectRemoveServer leave it the second
  -- endpoint, behind those that it had, and no client.
  pub second_remains :
      {C : Type 0} (db : List ℕ) (m : Meta) (s : ConfigWatcher C)
      → find_meta db s ≡ some m
      → m.s2sname ≡ codes "mock"
      → m.group_id ≡ 100
      → has_endpoint m.endpoints first ≡ false
      → has_endpoint m.endpoints second ≡ false
      → let t = inject_remove_server inet_aton (inject_add_server inet_aton s) in
        (find_meta db t ≡ some (record m { endpoints = m.endpoints ++ second ∷ [] }))
        × (find_inst db t ≡ none)
  unfolding inject_add_server inject_remove_server
  second_remains db m s e name group new_first new_second =
      let a = mock_server (ip_addr inet_aton (codes "106.38.198.210")) in
      let b = mock_server (ip_addr inet_aton (codes "106.120.184.86")) in
      let (meta, gone) =
        first_goes db m a b s e
          (matches-mock_server m (ip_addr inet_aton (codes "106.38.198.210")) name group)
          (matches-mock_server m (ip_addr inet_aton (codes "106.120.184.86")) name group)
          (rw (first_host, second_host) apart) (rw (first_host, second_host) apart_too)
          (ap (has_endpoint m.endpoints) first_host ∙ new_first)
          (ap (has_endpoint m.endpoints) second_host ∙ new_second) in
      (meta ∙ ap (λ x. some (record m { endpoints = m.endpoints ++ x ∷ [] })) second_host, gone)
