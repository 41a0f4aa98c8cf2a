-- ===== src/Ramcloud/Watcher/Coherence.antt =====
-- The clients of the class Config against what it knows of the databases.
use hiredispool.Base.{
  ℕ, ◌≡◌, inl, inr, ◌∙◌, refl, sym, ap, Option, none, some, Option-cases, List, [], ◌∷◌,
  if◌then◌else◌, ℤ, text_eq, text_eq_self, arith,
}
use hiredispool.Ramcloud.{insert, lookup, erase}
use hiredispool.Ramcloud.Dicts.{texts_cases, lookup-insert, lookup-erase, lookup-insert_self}
use hiredispool.Ramcloud.Meta.{Meta, meta_of, to_conf, convert}
use hiredispool.Ramcloud.Watcher.{
  Peer, Clients, ConfigWatcher, find_inst, find_meta, add_meta, map_values_config_update, matches,
  update_all, on_add_server, on_remove_server, keep_inst, create_inst, get_redis_client, Notice,
  configured, added, removed, asked, notice, notices, fresh,
}

module _ {W C D : Type 0} (l : Clients W C D) where
  -- Every client that is kept was made with the present configuration of its database.
  abbrev pub IsCoherent : ConfigWatcher C → Type 0
  IsCoherent s =
      (db : List ℕ) (c : C)
      → lookup db s.inst_map ≡ some c
      → (m : Meta) × (lookup db s.meta_map ≡ some m) × (l.conf_of c ≡ to_conf m)

  -- What the loop over the databases leaves of one database: its client is gone if it is updated.
  pub update_all-Kept :
      (f : Meta → Meta) (peer : Peer) (metas : List (List ℕ × Meta)) (insts : List (List ℕ × C))
      (db : List ℕ) (c : C)
      → lookup db (update_all f peer metas insts).1 ≡ some c
      → (lookup db insts ≡ some c) × (lookup db (update_all f peer metas insts).0 ≡ lookup db metas)
  unfolding update_all lookup
  update_all-Kept f peer [] insts db c e = (e, refl)
  update_all-Kept f peer ((k, m) ∷ rest) insts db c e =
      let (a, b) =
        update_all-Kept f peer rest (if matches m peer then erase k insts else insts) db c e in
      ground (arith, a, b, lookup-erase k db insts)

  update_all-IsCoherent :
      (f : Meta → Meta) (peer : Peer) (s : ConfigWatcher C)
      → IsCoherent s
      → let (metas, insts) = update_all f peer s.meta_map s.inst_map in
        IsCoherent (record s { meta_map = metas; inst_map = insts })
  update_all-IsCoherent f peer s h db c e =
      let (a, b) = update_all-Kept f peer s.meta_map s.inst_map db c e in
      let (m, found, made) = h db c a in (m, b ∙ found, made)

  pub add_meta-old :
      (db : List ℕ) (m old : Meta) (s : ConfigWatcher C)
      → lookup db s.meta_map ≡ some old
      → add_meta db m s ≡ s
  unfolding add_meta
  add_meta-old db m old s e = ground arith

  pub add_meta-new :
      (db : List ℕ) (m : Meta) (s : ConfigWatcher C)
      → lookup db s.meta_map ≡ none
      → add_meta db m s ≡ record s { meta_map = insert db m s.meta_map }
  unfolding add_meta
  add_meta-new db m s e = ground arith

  add_meta-IsCoherent :
      (db : List ℕ) (m : Meta) (s : ConfigWatcher C) → IsCoherent s → IsCoherent (add_meta db m s)
  add_meta-IsCoherent db m s h = elim (Option-cases (lookup db s.meta_map)) [
    | inr (old, e) ↦ rw (add_meta-old db m old s e) h
    | inl e ↦ rw (add_meta-new db m s e) λ d c kept.
        let (n, found, made) = h d c kept in
        elim (texts_cases db d) [
          | inl same ↦ absurd (cc (ap (λ k. lookup k s.meta_map) same, e, found))
          | inr other ↦ (n, ground (arith, lookup-insert db d m s.meta_map), made)
        ]
  ]

  keep_inst-IsCoherent :
      (db : List ℕ) (m : Meta) (s : ConfigWatcher C) (r : Option C × W)
      → ((c : C) → r.0 ≡ some c → l.conf_of c ≡ to_conf m)
      → IsCoherent s
      → lookup db s.meta_map ≡ some m
      → IsCoherent (keep_inst l db s r).1
  unfolding keep_inst
  keep_inst-IsCoherent db m s (none, v) made h e = h
  keep_inst-IsCoherent db m s (some c, v) made h e = λ d c' kept. elim (texts_cases db d) [
    | inl same ↦
        let a : some c ≡ some c' =
          ground (arith, lookup-insert db d c s.inst_map, text_eq_self db, ap (text_eq db) same) in
        (m, ap (λ k. lookup k s.meta_map) (sym same) ∙ e, made c' a)
    | inr other ↦ h d c' (ground (arith, lookup-insert db d c s.inst_map))
  ]

  pub create_inst-known :
      (db : List ℕ) (m : Meta) (s : ConfigWatcher C) (w : W) (c : C)
      → lookup db s.inst_map ≡ some c
      → create_inst l db m s w ≡ (some c, s, w)
  unfolding create_inst
  create_inst-known db m s w c e = ground arith

  pub create_inst-new :
      (db : List ℕ) (m : Meta) (s : ConfigWatcher C) (w : W)
      → lookup db s.inst_map ≡ none
      → create_inst l db m s w ≡ keep_inst l db s (l.create (to_conf m) w)
  unfolding create_inst
  create_inst-new db m s w e = ground arith

  create_inst-IsCoherent :
      (db : List ℕ) (m : Meta) (s : ConfigWatcher C) (w : W)
      → IsCoherent s
      → lookup db s.meta_map ≡ some m
      → IsCoherent (create_inst l db m s w).1
  create_inst-IsCoherent db m s w h e = elim (Option-cases (lookup db s.inst_map)) [
    | inr (c, k) ↦ rw (create_inst-known db m s w c k) h
    | inl k ↦
        let r = l.create (to_conf m) w in
        rw (create_inst-new db m s w k) (
          keep_inst-IsCoherent db m s r
            (λ c q. l.create_conf (to_conf m) w r.1 c (ap (λ o. (o, r.1)) q)) h e)
  ]

  pub get_known :
      (db : List ℕ) (s : ConfigWatcher C) (w : W) (c : C)
      → lookup db s.inst_map ≡ some c
      → get_redis_client l db s w ≡ (some c, s, w)
  unfolding get_redis_client find_inst
  get_known db s w c e = ground arith

  pub get_unknown :
      (db : List ℕ) (s : ConfigWatcher C) (w : W)
      → lookup db s.inst_map ≡ none
      → lookup db s.meta_map ≡ none
      → get_redis_client l db s w ≡ (none, s, w)
  unfolding get_redis_client find_inst find_meta
  get_unknown db s w e n = ground arith

  pub get_created :
      (db : List ℕ) (s : ConfigWatcher C) (w : W) (m : Meta)
      → lookup db s.inst_map ≡ none
      → lookup db s.meta_map ≡ some m
      → get_redis_client l db s w ≡ create_inst l db m s w
  unfolding get_redis_client find_inst find_meta
  get_created db s w m e n = ground arith

  get_redis_client-IsCoherent :
      (db : List ℕ) (s : ConfigWatcher C) (w : W)
      → IsCoherent s
      → IsCoherent (get_redis_client l db s w).1
  get_redis_client-IsCoherent db s w h = elim (Option-cases (lookup db s.inst_map)) [
    | inr (c, e) ↦ rw (get_known db s w c e) h
    | inl e ↦ elim (Option-cases (lookup db s.meta_map)) [
      | inl n ↦ rw (get_unknown db s w e n) h
      | inr (m, n) ↦ rw (get_created db s w m e n) (create_inst-IsCoherent db m s w h n)
    ]
  ]

  map_values-IsCoherent :
      (atoi : List ℕ → ℤ) (values : List (List ℕ × List (List ℕ × List ℕ))) (s : ConfigWatcher C)
      → IsCoherent s
      → IsCoherent (map_values_config_update atoi values s)
  unfolding map_values_config_update
  map_values-IsCoherent atoi [] s h = h
  map_values-IsCoherent atoi ((db, attrs) ∷ rest) s h =
      let m = convert atoi attrs (meta_of s.key db) in
      map_values-IsCoherent atoi rest (add_meta db m s) (add_meta-IsCoherent db m s h)

  step-IsCoherent :
      (atoi : List ℕ → ℤ) (a : Notice) (s : ConfigWatcher C) (w : W)
      → IsCoherent s
      → IsCoherent (notice l atoi a (s, w)).0
  unfolding notice on_add_server on_remove_server
  step-IsCoherent atoi (configured values) s w h = map_values-IsCoherent atoi values s h
  step-IsCoherent atoi (added peer) s w h = update_all-IsCoherent _ peer s h
  step-IsCoherent atoi (removed peer) s w h = update_all-IsCoherent _ peer s h
  step-IsCoherent atoi (asked db) s w h = get_redis_client-IsCoherent db s w h

  notices-IsCoherent :
      (atoi : List ℕ → ℤ) (ns : List Notice) (s : ConfigWatcher C) (w : W)
      → IsCoherent s
      → IsCoherent (notices l atoi ns (s, w)).0
  unfolding notices
  notices-IsCoherent atoi [] s w h = h
  notices-IsCoherent atoi (n ∷ ns) s w h =
      let (t, v) = notice l atoi n (s, w) in
      notices-IsCoherent atoi ns t v (step-IsCoherent atoi n s w h)

  fresh-IsCoherent : (key : List ℕ) → IsCoherent (fresh key)
  unfolding lookup fresh
  fresh-IsCoherent key db c e = absurd (cc e)

  keep_inst-Present :
      (db : List ℕ) (s : ConfigWatcher C) (r : Option C × W) (c : C)
      → (keep_inst l db s r).0 ≡ some c
      → lookup db (keep_inst l db s r).1.inst_map ≡ some c
  unfolding keep_inst
  keep_inst-Present db s (none, v) c e = cc
  keep_inst-Present db s (some d, v) c e = lookup-insert_self db d s.inst_map ∙ e

  -- A client that is handed out is kept.
  get_redis_client-Present :
      (db : List ℕ) (s : ConfigWatcher C) (w : W) (c : C)
      → (get_redis_client l db s w).0 ≡ some c
      → lookup db (get_redis_client l db s w).1.inst_map ≡ some c
  get_redis_client-Present db s w c e = elim (Option-cases (lookup db s.inst_map)) [
    | inr (d, k) ↦
        let g = get_known db s w d k in
        ap (λ r. lookup db r.1.inst_map) g ∙ k ∙ sym (ap (λ r. r.0) g) ∙ e
    | inl k ↦ elim (Option-cases (lookup db s.meta_map)) [
      | inl n ↦ absurd (cc (ap (λ r. r.0) (get_unknown db s w k n), e))
      | inr (m, n) ↦
          let g = get_created db s w m k n ∙ create_inst-new db m s w k in
          let r = l.create (to_conf m) w in
          ap (λ q. lookup db q.1.inst_map) g
          ∙ keep_inst-Present db s r c (sym (ap (λ q. q.0) g) ∙ e)
    ]
  ]

  -- After any history of notices, one after the other, a client that getRedisClient hands out was made
  -- with the configuration that its database has at the end.
  pub get_redis_client_current :
      (atoi : List ℕ → ℤ) (key : List ℕ) (ns : List Notice) (db : List ℕ) (w : W) (c : C)
      → (let (s, v) = notices l atoi ns (fresh key, w) in (get_redis_client l db s v).0) ≡ some c
      → let (s, v) = notices l atoi ns (fresh key, w) in
        let t = (get_redis_client l db s v).1 in
        (m : Meta) × (lookup db t.meta_map ≡ some m) × (l.conf_of c ≡ to_conf m)
  get_redis_client_current atoi key ns db w c e =
      let (s, v) = notices l atoi ns (fresh key, w) in
      let h = notices-IsCoherent atoi ns (fresh key) w (fresh-IsCoherent key) in
      get_redis_client-IsCoherent db s v h db c (get_redis_client-Present db s v c e)
