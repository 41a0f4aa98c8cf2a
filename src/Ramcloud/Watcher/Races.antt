-- ===== src/Ramcloud/Watcher/Races.antt =====
-- Threads in the class Config of RedisClientYaf.cpp. getRedisClient takes its locks one after the other,
-- so that onAddServer can run in between.
use hiredispool.Base.{
  ℕ, suc, ◌≡◌, ◌≢◌, inl, inr, ◌∙◌, sym, ap, Bool, true, false, Bool-cases, none, some, List, [],
  ◌∷◌, ◌++◌, if◌then◌else◌, pos, text_eq, length, length-append, List-cases, arith,
}
use hiredispool.Config.{Endpoint}
use hiredispool.Ramcloud.{lookup, erase}
use hiredispool.Ramcloud.Dicts.{lookup-erase, lookup-insert_self}
use hiredispool.Ramcloud.Meta.{Meta, to_conf, has_endpoint, add_endpoint}
use hiredispool.Ramcloud.Watcher.{
  Peer, Clients, ConfigWatcher, find_inst, find_meta, matches, endpoint_of, update_all,
  on_add_server, keep_inst, create_inst, get_redis_client,
}
use hiredispool.Ramcloud.Watcher.Coherence.{create_inst-new, get_known}

to_conf_count : (m : Meta) → (to_conf m).num_endpoints ≡ pos (length m.endpoints)
unfolding to_conf
to_conf_count m = ground (arith, List-cases m.endpoints)

pub endpoints_grown :
    (ep : Endpoint) (m : Meta)
    → has_endpoint m.endpoints ep ≡ false
    → (add_endpoint ep m).endpoints ≡ m.endpoints ++ ep ∷ []
unfolding add_endpoint
endpoints_grown ep m e = ground arith

add_endpoint_count :
    (ep : Endpoint) (m : Meta)
    → has_endpoint m.endpoints ep ≡ false
    → length (add_endpoint ep m).endpoints ≡ suc (length m.endpoints)
add_endpoint_count ep m e =
    omega (arith, ap length (endpoints_grown ep m e), length-append m.endpoints (ep ∷ []))

module _ {C : Type 0} where
  pub update_all-hit :
      (f : Meta → Meta) (peer : Peer) (metas : List (List ℕ × Meta)) (insts : List (List ℕ × C))
      (db : List ℕ) (m : Meta)
      → lookup db metas ≡ some m
      → matches m peer ≡ true
      → lookup db (update_all f peer metas insts).0 ≡ some (f m)
  unfolding update_all lookup
  update_all-hit f peer [] insts db m e h = cc
  update_all-hit f peer ((k, n) ∷ rest) insts db m e h = elim (Bool-cases (text_eq k db)) [
    | inl q ↦ ground arith
    | inr q ↦
        let left = if matches n peer then erase k insts else insts in
        let e' : lookup db rest ≡ some m = ground arith in
        ground (arith, update_all-hit f peer rest left db m e' h)
  ]

  -- A client that is not there does not appear.
  pub update_all-absent :
      (f : Meta → Meta) (peer : Peer) (metas : List (List ℕ × Meta)) (insts : List (List ℕ × C))
      (db : List ℕ)
      → lookup db insts ≡ none
      → lookup db (update_all f peer metas insts).1 ≡ none
  unfolding update_all
  update_all-absent f peer [] insts db e = e
  update_all-absent f peer ((k, n) ∷ rest) insts db e =
      update_all-absent f peer rest (if matches n peer then erase k insts else insts) db
        (erased (matches n peer) k insts db e)
    where
      erased :
          (b : Bool) (k : List ℕ) (insts : List (List ℕ × C)) (db : List ℕ)
          → lookup db insts ≡ none
          → lookup db (if b then erase k insts else insts) ≡ none
      erased true k insts db e = ground (arith, lookup-erase k db insts)
      erased false k insts db e = e

module _ {W C D : Type 0} (l : Clients W C D) where
  -- A thread asks for a client that is not there, and reads the configuration of the database; then a
  -- server of the database is added; then the thread makes the client and keeps it. That client is made with
  -- the old configuration, without the new server, while the database has the new one; and whoever asks next,
  -- before anything else is told of the database, gets that client.
  pub stale_client :
      (db : List ℕ) (m : Meta) (peer : Peer) (s : ConfigWatcher C) (w v : W) (c : C)
      → find_inst db s ≡ none
      → find_meta db s ≡ some m
      → matches m peer ≡ true
      → has_endpoint m.endpoints (endpoint_of peer) ≡ false
      → l.create (to_conf m) w ≡ (some c, v)
      → let u = (create_inst l db m (on_add_server peer s) w).1 in
        (find_inst db u ≡ some c)
        × (l.conf_of c ≡ to_conf m)
        × (find_meta db u ≡ some (add_endpoint (endpoint_of peer) m))
        × (to_conf m ≢ to_conf (add_endpoint (endpoint_of peer) m))
        × ((x : W) → get_redis_client l db u x ≡ (some c, u, x))
  unfolding find_inst find_meta on_add_server keep_inst
  stale_client db m peer s w v c e f h g made =
      let ep = endpoint_of peer in
      let t = on_add_server peer s in
      let gone = update_all-absent (add_endpoint ep) peer s.meta_map s.inst_map db e in
      let hit = update_all-hit (add_endpoint ep) peer s.meta_map s.inst_map db m f h in
      let q = create_inst-new l db m t w gone ∙ ap (keep_inst l db t) made in
      let n = add_endpoint ep m in
      let kept = ap (λ r. lookup db r.1.inst_map) q ∙ lookup-insert_self db c t.inst_map in
      (
        kept,
        l.create_conf (to_conf m) w v c made,
        ap (λ r. lookup db r.1.meta_map) q ∙ hit,
        λ same.
            let counts = sym (to_conf_count m) ∙ ap (λ k. k.num_endpoints) same ∙ to_conf_count n in
            ground (arith, counts, add_endpoint_count ep m g),
        λ x. get_known l db (create_inst l db m t w).1 x c kept,
      )
