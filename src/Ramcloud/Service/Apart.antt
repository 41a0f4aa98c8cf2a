-- ===== src/Ramcloud/Service/Apart.antt =====
-- The pools of the clients that the class Config keeps: each database has its own.
use hiredispool.Base.{
  ℕ, zero, suc, ◌<◌, ◌≡◌, ◌≢◌, ◌⊎◌, inl, inr, ◌∙◌, refl, sym, ap, Option, none, some, Option-cases,
  List, [], ◌∷◌, ◌++◌, get_elem?, length, length-append, arith,
}
use hiredispool.Config.{Config}
use hiredispool.Invariant.Frame.{some_inj}
use hiredispool.Ramcloud.{Reply, Piece, insert, lookup}
use hiredispool.Ramcloud.Dicts.{texts_cases, lookup-insert, lookup-insert_self}
use hiredispool.Ramcloud.Meta.{to_conf}
use hiredispool.Ramcloud.Watcher.{ConfigWatcher, keep_inst, get_redis_client}
use hiredispool.Ramcloud.Watcher.Coherence.{create_inst-new, get_known, get_unknown, get_created}
use hiredispool.Experimental.{ErrInstance, Hiredis}
use hiredispool.Experimental.Lifecycle.{redis_pool_create}
use hiredispool.Experimental.Client.{Heap, RedisClient, keep_pool, create_client, clients}

-- Every client has a pool, and no two databases have clients with one pool.
pub record IsApart (s : ConfigWatcher RedisClient) (ps : List ErrInstance) : Type 0 where
  pub inside : (db : List ℕ) (c : RedisClient) → lookup db s.inst_map ≡ some c → c.inst < length ps
  pub apart :
      (db d : List ℕ) (c e : RedisClient)
      → lookup db s.inst_map ≡ some c
      → lookup d s.inst_map ≡ some e
      → c.inst ≡ e.inst
      → db ≡ d

pub fewer_kept :
    (s t : ConfigWatcher RedisClient) (ps : List ErrInstance)
    → ((db : List ℕ) (c : RedisClient)
        → lookup db t.inst_map ≡ some c
        → lookup db s.inst_map ≡ some c)
    → IsApart s ps
    → IsApart t ps
fewer_kept s t ps sub a = record {
  inside = λ db c e. a.inside db c (sub db c e);
  apart = λ db d c e f g. a.apart db d c e (sub db c f) (sub d e g);
}

get_elem?-append :
    {A : Type 0} (xs ys : List A) (i : ℕ) → i < length xs → get_elem? (xs ++ ys) i ≡ get_elem? xs i
get_elem?-append [] ys i h = absurd (omega arith)
get_elem?-append (x ∷ xs) ys zero h = refl
get_elem?-append (x ∷ xs) ys (suc i) h = get_elem?-append xs ys i (omega arith)

lookup-insert_cases :
    (db d : List ℕ) (v c : RedisClient) (m : List (List ℕ × RedisClient))
    → lookup d (insert db v m) ≡ some c
    → ((db ≡ d) × (v ≡ c)) ⊎ (lookup d m ≡ some c)
lookup-insert_cases db d v c m e = elim (texts_cases db d) [
  | inl same ↦ inl (
    same,
    some_inj (sym (lookup-insert_self db v m) ∙ ap (λ k. lookup k (insert db v m)) same ∙ e),
  )
  | inr ne ↦ inr (ground (arith, lookup-insert db d v m))
]

-- A new client, with a new pool.
insert-IsApart :
    (db : List ℕ) (c : RedisClient) (x : ErrInstance) (s : ConfigWatcher RedisClient)
    (ps : List ErrInstance)
    → c.inst ≡ length ps
    → IsApart s ps
    → IsApart (record s { inst_map = insert db c s.inst_map }) (ps ++ x ∷ [])
insert-IsApart db c x s ps new a = record {
  inside = λ d e f. elim (lookup-insert_cases db d c e s.inst_map f) [
    | inl (_, is) ↦ omega (arith, new, ap (λ k. k.inst) is, length-append ps (x ∷ []))
    | inr old ↦ omega (arith, a.inside d e old, length-append ps (x ∷ []))
  ];
  apart = λ d d' e e' f g h. elim (lookup-insert_cases db d c e s.inst_map f) [
    | inl (same, is) ↦ elim (lookup-insert_cases db d' c e' s.inst_map g) [
      | inl (same', _) ↦ sym same ∙ same'
      | inr old' ↦ absurd (omega (arith, new, ap (λ k. k.inst) is, h, a.inside d' e' old'))
    ]
    | inr old ↦ elim (lookup-insert_cases db d' c e' s.inst_map g) [
      | inl (_, is') ↦ absurd (omega (arith, new, ap (λ k. k.inst) is', h, a.inside d e old))
      | inr old' ↦ a.apart d d' e e' old old' h
    ]
  ];
}

-- What a step for database `db` does: the pools stay apart, a client that is handed out is kept, and
-- the other databases keep their clients and what their pools are.
pub record Keeps (db : List ℕ) (s : ConfigWatcher RedisClient) (ps : List ErrInstance)
    (o : Option RedisClient) (t : ConfigWatcher RedisClient) (qs : List ErrInstance) : Type 0 where
  pub pools : IsApart t qs
  pub client : (c : RedisClient) → o ≡ some c → lookup db t.inst_map ≡ some c
  pub others :
      (d : List ℕ) (c : RedisClient)
      → db ≢ d
      → lookup d s.inst_map ≡ some c
      → (lookup d t.inst_map ≡ some c) × (get_elem? qs c.inst ≡ get_elem? ps c.inst)

unchanged :
    (db : List ℕ) (s : ConfigWatcher RedisClient) (ps : List ErrInstance) (o : Option RedisClient)
    → IsApart s ps
    → lookup db s.inst_map ≡ o
    → Keeps db s ps o s ps
unchanged db s ps o a e = record {
  pools = a;
  client = λ c f. e ∙ f;
  others = λ d c ne f. (f, refl);
}

module _ {W D : Type 0} (t : Hiredis W) (reply_at : ℕ → W → Reply)
    (print : List (Piece D) → List ℕ) where
  keep_inst-Keeps :
      (db : List ℕ) (conf : Config) (s : ConfigWatcher RedisClient) (h : Heap W)
      (r : Option ErrInstance × W)
      → IsApart s h.pools
      → lookup db s.inst_map ≡ none
      → let o = keep_inst (clients t reply_at print) db s (keep_pool t reply_at conf h r) in
        Keeps db s h.pools o.0 o.1 o.2.pools
  unfolding keep_inst keep_pool
  keep_inst-Keeps db conf s h (none, v) a e = unchanged db s h.pools none a e
  keep_inst-Keeps db conf s h (some x, v) a e =
      let c : RedisClient = record { inst = length h.pools; conf = conf } in
      record {
        pools = insert-IsApart db c x s h.pools refl a;
        client = λ k f. lookup-insert_self db c s.inst_map ∙ f;
        others = λ d k ne f. (
          elim (texts_cases db d) [
            | inl same ↦ absurd (ne same)
            | inr other ↦ ground (arith, lookup-insert db d c s.inst_map)
          ],
          get_elem?-append h.pools (x ∷ []) k.inst (a.inside d k f),
        );
      }

  pub get_redis_client-Keeps :
      (db : List ℕ) (s : ConfigWatcher RedisClient) (h : Heap W)
      → IsApart s h.pools
      → let o = get_redis_client (clients t reply_at print) db s h in
        Keeps db s h.pools o.0 o.1 o.2.pools
  unfolding create_client clients
  get_redis_client-Keeps db s h a =
      let l = clients t reply_at print in
      elim (Option-cases (lookup db s.inst_map)) [
        | inr (c, k) ↦ rw (get_known l db s h c k) (unchanged db s h.pools (some c) a k)
        | inl k ↦ elim (Option-cases (lookup db s.meta_map)) [
          | inl n ↦ rw (get_unknown l db s h k n) (unchanged db s h.pools none a k)
          | inr (m, n) ↦
              rw (get_created l db s h m k n, create_inst-new l db m s h k)
                (keep_inst-Keeps db (to_conf m) s h (redis_pool_create t (to_conf m) h.world) a k)
        ]
      ]
