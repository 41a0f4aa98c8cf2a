-- ===== src/Ramcloud/Watcher/Servers.antt =====
-- A server that comes and goes, in the class Config of RedisClientYaf.cpp.
use hiredispool.Base.{
  ℕ, ◌≡◌, inl, inr, ◌∙◌, refl, ap, true, false, Bool-cases, none, some, List, [], ◌∷◌, ◌++◌, ℤ, pos,
  negsuc, if◌then◌else◌, text_eq, text_eq_self, arith,
}
use hiredispool.Config.{Endpoint}
use hiredispool.Ramcloud.{lookup, erase}
use hiredispool.Ramcloud.Dicts.{lookup-erase}
use hiredispool.Ramcloud.Meta.{
  Meta, int_eq, same_endpoint, has_endpoint, add_endpoint, without, remove_endpoint,
}
use hiredispool.Ramcloud.Watcher.{
  Peer, ConfigWatcher, find_inst, find_meta, matches, endpoint_of, update_all, on_add_server,
  on_remove_server,
}
use hiredispool.Ramcloud.Watcher.Races.{update_all-hit, update_all-absent}

int_eq_self : (z : ℤ) → int_eq z z ≡ true
int_eq_self (pos n) = ground arith
int_eq_self (negsuc n) = ground arith

same_endpoint_self : (e : Endpoint) → same_endpoint e e ≡ true
unfolding same_endpoint
same_endpoint_self e = rw (text_eq_self e.host) (int_eq_self e.port)

-- An endpoint that has been put at the end of a list without it is taken out again.
pub without-append :
    (ep : Endpoint) (es : List Endpoint)
    → has_endpoint es ep ≡ false
    → without ep (es ++ ep ∷ []) ≡ es
unfolding without has_endpoint
without-append ep [] h = ground (arith, same_endpoint_self ep)
without-append ep (e ∷ es) h = ground (arith, without-append ep es)

pub matches-add_endpoint :
    (ep : Endpoint) (m : Meta) (peer : Peer) → matches (add_endpoint ep m) peer ≡ matches m peer
unfolding matches add_endpoint
matches-add_endpoint ep m peer = elim (Bool-cases (has_endpoint m.endpoints ep)) [
  | inl e ↦ rw e refl
  | inr e ↦ rw e refl
]

remove_endpoint-add_endpoint :
    (ep : Endpoint) (m : Meta)
    → has_endpoint m.endpoints ep ≡ false
    → remove_endpoint ep (add_endpoint ep m) ≡ m
unfolding remove_endpoint add_endpoint
remove_endpoint-add_endpoint ep m h =
    rw h (ap (λ es. record m { endpoints = es }) (without-append ep m.endpoints h))

module _ {C : Type 0} where
  -- The client of a database that is updated is taken out of the map.
  pub update_all-gone :
      (f : Meta → Meta) (peer : Peer) (metas : List (List ℕ × Meta)) (insts : List (List ℕ × C))
      (db : List ℕ) (m : Meta)
      → lookup db metas ≡ some m
      → matches m peer ≡ true
      → lookup db (update_all f peer metas insts).1 ≡ none
  unfolding update_all lookup
  update_all-gone f peer [] insts db m e h = cc
  update_all-gone f peer ((k, n) ∷ rest) insts db m e h = elim (Bool-cases (text_eq k db)) [
    | inl q ↦
        let hit : matches n peer ≡ true = ground arith in
        rw hit (
          update_all-absent f peer rest (erase k insts) db
            (ground (arith, lookup-erase k db insts)))
    | inr q ↦
        let left = if matches n peer then erase k insts else insts in
        let e' : lookup db rest ≡ some m = ground arith in
        update_all-gone f peer rest left db m e' h
  ]

  -- A server that is new to a database comes and goes: the database has its old configuration back, and no
  -- client, so that the next command makes one for that configuration.
  pub server_comes_and_goes :
      (db : List ℕ) (m : Meta) (peer : Peer) (s : ConfigWatcher C)
      → find_meta db s ≡ some m
      → matches m peer ≡ true
      → has_endpoint m.endpoints (endpoint_of peer) ≡ false
      → let t = on_remove_server peer (on_add_server peer s) in
        (find_meta db t ≡ some m) × (find_inst db t ≡ none)
  unfolding find_meta find_inst on_add_server on_remove_server
  server_comes_and_goes db m peer s e h g =
      let ep = endpoint_of peer in
      let there = on_add_server peer s in
      let added = update_all-hit (add_endpoint ep) peer s.meta_map s.inst_map db m e h in
      let again = matches-add_endpoint ep m peer ∙ h in
      (
        update_all-hit (remove_endpoint ep) peer there.meta_map there.inst_map db
              (add_endpoint ep m) added again
            ∙ ap some (remove_endpoint-add_endpoint ep m g),
        update_all-gone (remove_endpoint ep) peer there.meta_map there.inst_map db
            (add_endpoint ep m) added again,
      )
