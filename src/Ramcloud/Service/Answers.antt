-- ===== src/Ramcloud/Service/Answers.antt =====
-- What the methods make of a command that is not answered, and where a command goes.
use hiredispool.Base.{ℕ, ◌≡◌, ap, none, some, List, [], codes}
use hiredispool.Ramcloud.{Server, Status, Request, reads, lookup, ok, reply_of}
use hiredispool.Ramcloud.Replies.{reply2status, reply2string, array_of}
use hiredispool.Ramcloud.Strings.{set, get, mget, fill_from}
use hiredispool.Ramcloud.Watcher.{Clients, ConfigWatcher, get_redis_client, my_redis_command}
use hiredispool.Ramcloud.Watcher.Coherence.{get_known}
use hiredispool.Ramcloud.Service.{over_config}

-- Where no command is answered, because there is no client.
pub no_replies :
    {W D : Type 0} (server : Server W D) (w : W)
    → ((request : Request D) → server.command request w ≡ (none, w))
    → (key val : List ℕ) (keys : List (List ℕ)) (vals : List (List ℕ × List ℕ))
    → let config_err : Status = record { code = codes "CONFIG_ERR" } in
      (set server key val w ≡ (config_err, w))
      × (get server key w ≡ (config_err, [], w))
      × (mget server keys vals w ≡ (config_err, reads vals, w))
unfolding set get mget reply2status reply2string array_of fill_from ok reply_of
no_replies server w h key val keys vals = (
  ap (λ (r, v). (reply2status r, v)) (h _),
  ap (λ (r, v). (reply2status r, reply2string (reply_of r), v)) (h _),
  ap (λ (r, v). (reply2status r, fill_from keys (array_of (reply2status r) (reply_of r)) vals, v))
      (h _),
)

my_redis_command-none :
    {W C D : Type 0} (l : Clients W C D) (request : Request D) (db : List ℕ) (s : ConfigWatcher C)
    (w : W)
    → get_redis_client l db s w ≡ (none, s, w)
    → my_redis_command l db request (s, w) ≡ (none, s, w)
unfolding my_redis_command
my_redis_command-none l request db s w e =
    ap
      (λ (client, t, v). elim client [
        | none ↦ (none, t, v)
        | some c ↦ let (reply, u) = l.command c request v in (reply, t, u)
      ])
      e

pub over_config-none :
    {W C D : Type 0} (l : Clients W C D) (libc : Server W D) (db : List ℕ) (s : ConfigWatcher C)
    (w : W)
    → get_redis_client l db s w ≡ (none, s, w)
    → (request : Request D) → (over_config l libc db).command request (s, w) ≡ (none, (s, w))
unfolding over_config
over_config-none l libc db s w e request =
    ap (λ (reply, t, v). (reply, (t, v))) (my_redis_command-none l request db s w e)

my_redis_command-some :
    {W C D : Type 0} (l : Clients W C D) (request : Request D) (db : List ℕ) (s : ConfigWatcher C)
    (w : W) (c : C)
    → get_redis_client l db s w ≡ (some c, s, w)
    → my_redis_command l db request (s, w)
      ≡ (let (reply, v) = l.command c request w in (reply, s, v))
unfolding my_redis_command
my_redis_command-some l request db s w c e =
    ap
      (λ (client, t, v). elim client [
        | none ↦ (none, t, v)
        | some c ↦ let (reply, u) = l.command c request v in (reply, t, u)
      ])
      e

pub over_config-some :
    {W C D : Type 0} (l : Clients W C D) (libc : Server W D) (db : List ℕ) (s : ConfigWatcher C)
    (w : W) (c : C) (request : Request D)
    → lookup db s.inst_map ≡ some c
    → (over_config l libc db).command request (s, w)
      ≡ (let (reply, v) = l.command c request w in (reply, (s, v)))
unfolding over_config
over_config-some l libc db s w c request e =
    ap (λ (reply, t, v). (reply, (t, v)))
      (my_redis_command-some l request db s w c (get_known l db s w c e))
