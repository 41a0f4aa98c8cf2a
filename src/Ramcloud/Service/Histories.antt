-- ===== src/Ramcloud/Service/Histories.antt =====
-- Commands on the clients that the class Config keeps, one after the other: each stays with the pool of its
-- database.
use hiredispool.Base.{
  ℕ, ◌≡◌, ◌≢◌, inl, inr, ◌∙◌, refl, sym, ap, subst, Option, none, some, Option-cases, List, [], ◌∷◌,
  get_elem?, length, length-set, get_elem?-set_ne, ℤ, arith,
}
use hiredispool.Ramcloud.{Reply, Piece, Request, formatted, argv, Pack, lookup}
use hiredispool.Ramcloud.Meta.{Meta, meta_of, convert}
use hiredispool.Ramcloud.Watcher.{
  Clients, ConfigWatcher, fresh, find_inst, add_meta, map_values_config_update, get_redis_client,
  my_redis_command, configured, added, removed, asked, notice, on_add_server, on_remove_server,
}
use hiredispool.Ramcloud.Watcher.Coherence.{update_all-Kept}
use hiredispool.Ramcloud.Service.{Happening, noticed, commanded, happen, happen_all}
use hiredispool.Experimental.{ErrInstance, Hiredis}
use hiredispool.Experimental.Client.{Heap, RedisClient, pooled, run_on, client_command, clients}
use hiredispool.Ramcloud.Service.Apart.{IsApart, fewer_kept, Keeps, get_redis_client-Keeps}

module _ {W D : Type 0} (t : Hiredis W) (reply_at : ℕ → W → Reply)
    (print : List (Piece D) → List ℕ) where
  run_on-pools :
      (c : RedisClient) (send : Option ℕ → W → Option ℕ × W) (h : Heap W)
      → let g = (run_on t reply_at c send h).1 in
        (length g.pools ≡ length h.pools)
        × ((i : ℕ) → c.inst ≢ i → get_elem? g.pools i ≡ get_elem? h.pools i)
  unfolding run_on
  run_on-pools c send h = elim (Option-cases (get_elem? h.pools c.inst)) [
    | inl e ↦ rw (run_on, e) (refl, λ i ne. refl)
    | inr (s, e) ↦
        let u = (pooled t reply_at send s h.world).1 in
        rw (run_on, e) (length-set h.pools c.inst u, λ i ne. get_elem?-set_ne h.pools c.inst i u ne)
  ]

  client_command-pools :
      (c : RedisClient) (request : Request D) (h : Heap W)
      → let g = (client_command t reply_at print c request h).1 in
        (length g.pools ≡ length h.pools)
        × ((i : ℕ) → c.inst ≢ i → get_elem? g.pools i ≡ get_elem? h.pools i)
  unfolding client_command
  client_command-pools c (formatted ps) h =
      run_on-pools c (λ o v. t.platform.redisv_command o (print ps) v) h
  client_command-pools c (argv args) h = run_on-pools c (λ o v. t.redis_command_argv o args v) h

  -- A command on the client that _init has found.
  abbrev answers :
      Request D
      → Option RedisClient × ConfigWatcher RedisClient × Heap W
      → Option Pack × ConfigWatcher RedisClient × Heap W
  answers request (none, s, v) = (none, s, v)
  answers request (some c, s, v) =
      let (reply, u) = client_command t reply_at print c request v in (reply, s, u)

  answers-Keeps :
      (request : Request D) (db : List ℕ) (s : ConfigWatcher RedisClient) (ps : List ErrInstance)
      (r : Option RedisClient × ConfigWatcher RedisClient × Heap W)
      → Keeps db s ps r.0 r.1 r.2.pools
      → let o = answers request r in Keeps db s ps r.0 o.1 o.2.pools
  answers-Keeps request db s ps (none, u, v) k = k
  answers-Keeps request db s ps (some c, u, v) k =
      let g = (client_command t reply_at print c request v).1 in
      let (size, elsewhere) = client_command-pools c request v in
      record {
        pools = record {
          inside = λ d e f. omega (arith, size, k.pools.inside d e f);
          apart = k.pools.apart;
        };
        client = k.client;
        others = λ d e ne f.
            let (there, pool) = k.others d e ne f in
            let mine = k.client c refl in
            (there, elsewhere e.inst (λ one. ne (k.pools.apart db d c e mine there one)) ∙ pool);
      }

  my_redis_command-answers :
      (request : Request D) (db : List ℕ) (s : ConfigWatcher RedisClient) (h : Heap W)
      → let l = clients t reply_at print in
        my_redis_command l db request (s, h) ≡ answers request (get_redis_client l db s h)
  unfolding my_redis_command clients
  my_redis_command-answers request db s h =
      both (get_redis_client (clients t reply_at print) db s h)
    where
      both :
          (r : Option RedisClient × ConfigWatcher RedisClient × Heap W)
          → (let (client, u, v) = r in
              elim client [
                | none ↦ (none, u, v)
                | some c ↦
                    let (reply, g) = client_command t reply_at print c request v in (reply, u, g)
              ])
            ≡ answers request r
      both (none, u, v) = refl
      both (some c, u, v) = refl

  my_redis_command-Keeps :
      (request : Request D) (db : List ℕ) (s : ConfigWatcher RedisClient) (h : Heap W)
      → IsApart s h.pools
      → let l = clients t reply_at print in
        let o = my_redis_command l db request (s, h) in
        Keeps db s h.pools (get_redis_client l db s h).0 o.1 o.2.pools
  my_redis_command-Keeps request db s h a = rw (my_redis_command-answers request db s h) (
      answers-Keeps request db s h.pools (get_redis_client (clients t reply_at print) db s h)
        (get_redis_client-Keeps t reply_at print db s h a))

add_meta-inst_map :
    (db : List ℕ) (m : Meta) (s : ConfigWatcher RedisClient)
    → (add_meta db m s).inst_map ≡ s.inst_map
unfolding add_meta
add_meta-inst_map db m s = elim (Option-cases (lookup db s.meta_map)) [
  | inr (old, e) ↦ rw (add_meta, e) refl
  | inl e ↦ rw (add_meta, e) refl
]

map_values_config_update-inst_map :
    (atoi : List ℕ → ℤ) (values : List (List ℕ × List (List ℕ × List ℕ)))
    (s : ConfigWatcher RedisClient)
    → (map_values_config_update atoi values s).inst_map ≡ s.inst_map
unfolding map_values_config_update
map_values_config_update-inst_map atoi [] s = refl
map_values_config_update-inst_map atoi ((db, attrs) ∷ rest) s =
    let m = convert atoi attrs (meta_of s.key db) in
    map_values_config_update-inst_map atoi rest (add_meta db m s) ∙ add_meta-inst_map db m s

module _ {W D : Type 0} (t : Hiredis W) (reply_at : ℕ → W → Reply) (print : List (Piece D) → List ℕ)
    (atoi : List ℕ → ℤ) where
  abbrev made : Clients (Heap W) RedisClient D
  made = clients t reply_at print

  happen-IsApart :
      (e : Happening D) (s : ConfigWatcher RedisClient) (h : Heap W)
      → IsApart s h.pools
      → let (u, g) = happen made atoi e (s, h) in IsApart u g.pools
  unfolding happen notice on_add_server on_remove_server
  happen-IsApart (noticed (configured values)) s h a =
      fewer_kept s (map_values_config_update atoi values s) h.pools
        (λ db c e. ap (lookup db) (sym (map_values_config_update-inst_map atoi values s)) ∙ e) a
  happen-IsApart (noticed (added peer)) s h a =
      fewer_kept s (on_add_server peer s) h.pools
        (λ db c e. (update_all-Kept made _ peer s.meta_map s.inst_map db c e).0) a
  happen-IsApart (noticed (removed peer)) s h a =
      fewer_kept s (on_remove_server peer s) h.pools
        (λ db c e. (update_all-Kept made _ peer s.meta_map s.inst_map db c e).0) a
  happen-IsApart (noticed (asked db)) s h a =
      (get_redis_client-Keeps t reply_at print db s h a).pools
  happen-IsApart (commanded db request) s h a =
      (my_redis_command-Keeps t reply_at print request db s h a).pools

  happen_all-IsApart :
      (es : List (Happening D)) (s : ConfigWatcher RedisClient) (h : Heap W)
      → IsApart s h.pools
      → let (u, g) = happen_all made atoi es (s, h) in IsApart u g.pools
  unfolding happen_all
  happen_all-IsApart [] s h a = a
  happen_all-IsApart (e ∷ es) s h a =
      let (u, g) = happen made atoi e (s, h) in happen_all-IsApart es u g (happen-IsApart e s h a)

  fresh-IsApart : (key : List ℕ) → IsApart (fresh key) []
  unfolding fresh lookup
  fresh-IsApart key = record {
    inside = λ db c e. absurd (cc e);
    apart = λ db d c k e f g. absurd (cc e);
  }

  -- After any history of notices and of commands, on any databases: a command on one database leaves every other
  -- database its client, and the pool of that client as it is, even if the command makes a client of its own.
  pub own_pool :
      (key : List ℕ) (w : W) (es : List (Happening D)) (s : ConfigWatcher RedisClient) (h : Heap W)
      (db other : List ℕ) (c : RedisClient) (request : Request D)
      → happen_all made atoi es (fresh key, record { world = w; pools = [] }) ≡ (s, h)
      → db ≢ other
      → find_inst other s ≡ some c
      → let (_, u, g) = my_redis_command made db request (s, h) in
        (find_inst other u ≡ some c) × (get_elem? g.pools c.inst ≡ get_elem? h.pools c.inst)
  unfolding find_inst
  own_pool key w es s h db other c request e ne f =
      let h0 : Heap W = record { world = w; pools = [] } in
      let a =
        subst (λ (u, g). IsApart u g.pools) e
          (happen_all-IsApart es (fresh key) h0 (fresh-IsApart key)) in
      (my_redis_command-Keeps t reply_at print request db s h a).others other c ne f
