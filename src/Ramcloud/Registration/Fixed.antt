-- ===== src/Ramcloud/Registration/Fixed.antt =====
-- The clients of the namespace redis, which is not told of servers.
use hiredispool.Base.{
  ℕ, ◌≡◌, inl, inr, ap, Bool, true, Bool-cases, Option, none, some, Option-cases, List, [], ◌∷◌,
  All, ℤ, arith,
}
use hiredispool.Ramcloud.{lookup}
use hiredispool.Ramcloud.Dicts.{texts_cases, lookup-insert}
use hiredispool.Ramcloud.Meta.{Meta, meta_of, to_conf, convert}
use hiredispool.Ramcloud.Watcher.{
  Clients, ConfigWatcher, find_inst, find_meta, add_meta, map_values_config_update, keep_inst,
  get_redis_client, Notice, configured, added, removed, asked, notice, notices,
}
use hiredispool.Ramcloud.Watcher.Coherence.{
  get_known, get_unknown, get_created, add_meta-old, add_meta-new, create_inst-new,
}
use hiredispool.Ramcloud.Registration.{redis_init, can_come, watches_servers}

module _ {W C D : Type 0} (l : Clients W C D) where
  -- The database has a configuration and a client.
  record Has (db : List ℕ) (m : Meta) (c : C) (s : ConfigWatcher C) : Type 0 where
    meta : lookup db s.meta_map ≡ some m
    inst : lookup db s.inst_map ≡ some c

  add_meta-Has :
      (db k : List ℕ) (m n : Meta) (c : C) (s : ConfigWatcher C)
      → Has db m c s
      → Has db m c (add_meta k n s)
  add_meta-Has db k m n c s h = elim (Option-cases (lookup k s.meta_map)) [
    | inr (old, e) ↦ rw (add_meta-old l k n old s e) h
    | inl e ↦ rw (add_meta-new l k n s e) (record {
      meta = elim (texts_cases k db) [
        | inl same ↦ absurd (cc (ap (λ x. lookup x s.meta_map) same, e, h.meta))
        | inr another ↦ ground (arith, lookup-insert k db n s.meta_map, h.meta)
      ];
      inst = h.inst;
    })
  ]

  configured-Has :
      (atoi : List ℕ → ℤ) (values : List (List ℕ × List (List ℕ × List ℕ))) (db : List ℕ) (m : Meta)
      (c : C) (s : ConfigWatcher C)
      → Has db m c s
      → Has db m c (map_values_config_update atoi values s)
  unfolding map_values_config_update
  configured-Has atoi [] db m c s h = h
  configured-Has atoi ((k, attrs) ∷ rest) db m c s h =
      let n = convert atoi attrs (meta_of s.key k) in
      configured-Has atoi rest db m c (add_meta k n s) (add_meta-Has db k m n c s h)

  keep_inst-Has :
      (db k : List ℕ) (m : Meta) (c : C) (s : ConfigWatcher C) (r : Option C × W)
      → lookup k s.inst_map ≡ none
      → Has db m c s
      → Has db m c (keep_inst l k s r).1
  unfolding keep_inst
  keep_inst-Has db k m c s (none, v) e h = h
  keep_inst-Has db k m c s (some d, v) e h = record {
    meta = h.meta;
    inst = elim (texts_cases k db) [
      | inl same ↦ absurd (cc (ap (λ x. lookup x s.inst_map) same, e, h.inst))
      | inr another ↦ ground (arith, lookup-insert k db d s.inst_map, h.inst)
    ];
  }

  asked-Has :
      (db k : List ℕ) (m : Meta) (c : C) (s : ConfigWatcher C) (w : W)
      → Has db m c s
      → Has db m c (get_redis_client l k s w).1
  asked-Has db k m c s w h = elim (Option-cases (lookup k s.inst_map)) [
    | inr (d, e) ↦ rw (get_known l k s w d e) h
    | inl e ↦ elim (Option-cases (lookup k s.meta_map)) [
      | inl f ↦ rw (get_unknown l k s w e f) h
      | inr (n, f) ↦
          rw (get_created l k s w n e f, create_inst-new l k n s w e)
            (keep_inst-Has db k m c s (l.create (to_conf n) w) e h)
    ]
  ]

  -- The notices that reach the namespace redis.
  notice-Has :
      (atoi : List ℕ → ℤ) (fwk : Bool) (key db : List ℕ) (m : Meta) (c : C) (n : Notice)
      (s : ConfigWatcher C) (w : W)
      → can_come (redis_init key fwk) n ≡ true
      → Has db m c s
      → Has db m c (notice l atoi n (s, w)).0
  unfolding notice can_come redis_init watches_servers
  notice-Has atoi fwk key db m c (configured values) s w e h = configured-Has atoi values db m c s h
  notice-Has atoi fwk key db m c (added peer) s w e h = ground (arith, Bool-cases fwk)
  notice-Has atoi fwk key db m c (removed peer) s w e h = ground (arith, Bool-cases fwk)
  notice-Has atoi fwk key db m c (asked k) s w e h = asked-Has db k m c s w h

  notices-Has :
      (atoi : List ℕ → ℤ) (fwk : Bool) (key db : List ℕ) (m : Meta) (c : C) (ns : List Notice)
      (s : ConfigWatcher C) (w : W)
      → All (λ n. can_come (redis_init key fwk) n ≡ true) ns
      → Has db m c s
      → Has db m c (notices l atoi ns (s, w)).0
  unfolding notices
  notices-Has atoi fwk key db m c [] s w e h = h
  notices-Has atoi fwk key db m c (n ∷ ns) s w (e, es) h =
      let (t, v) = notice l atoi n (s, w) in
      notices-Has atoi fwk key db m c ns t v es (notice-Has atoi fwk key db m c n s w e h)

  -- In the namespace redis, with or without a framework, and where the framework tells CONFIG only what
  -- init has asked for: once a database has a client, every later command on it gets that client, and its
  -- configuration stays, whatever configurations and servers come and go.
  pub redis_client_fixed :
      (atoi : List ℕ → ℤ) (fwk : Bool) (key db : List ℕ) (m : Meta) (c : C) (ns : List Notice)
      (s : ConfigWatcher C) (w : W)
      → All (λ n. can_come (redis_init key fwk) n ≡ true) ns
      → find_meta db s ≡ some m
      → find_inst db s ≡ some c
      → let (t, v) = notices l atoi ns (s, w) in
        (get_redis_client l db t v ≡ (some c, t, v)) × (find_meta db t ≡ some m)
  unfolding find_meta find_inst
  redis_client_fixed atoi fwk key db m c ns s w es e f =
      let (t, v) = notices l atoi ns (s, w) in
      let h = notices-Has atoi fwk key db m c ns s w es (record { meta = e; inst = f }) in
      (get_known l db t v c h.inst, h.meta)
