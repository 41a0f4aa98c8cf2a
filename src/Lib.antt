-- ===== src/Lib.antt =====
-- hiredispool: a connection pool over hiredis, in C.
--
-- The program's parts. `hiredispool.h` declares a pool (REDIS_INSTANCE) of sockets (REDIS_SOCKET)
-- and its configuration; `hiredispool.c` implements it. redis_pool_create checks the configuration
-- and makes the sockets; redis_get_socket hands out a socket that no one uses, connecting it if
-- need be; redis_vcommand runs a command on it, and reconnects and tries once more if that fails;
-- redis_release_socket gives it back; redis_pool_destroy closes all. `RedisClient` wraps a pool in
-- C++: each command gets a socket and releases it, and the reply comes in a pointer that owns it.
-- `log.c` is the logger that both write to. Under experimental/redisclient stands a later version,
-- with `RedisClientYaf` on top: it keeps a client for each database of a configuration service,
-- and has a method for each redis command. hiredis, the pthread mutexes, the clock and rand are
-- not of this repository's making.
--
-- Which file models what:
-- - Base: the shared names and the lemmas on lists, tests and integers.
-- - Config: REDIS_ENDPOINT, REDIS_CONFIG (hiredispool.h); the copying, checking and normalising of
--   the configuration in redis_pool_create, and the conversion of timeouts in
--   connect_single_socket (hiredispool.c). An int is an integer without a bound: the values that
--   the code computes from a configuration are smaller than what it is given, or than twice the
--   number of endpoints.
-- - Platform: what the pool calls and this repository does not implement, as operations on an
--   abstract world; Platform/Laws: what the theorems assume of it.
-- - Instance: REDIS_SOCKET and REDIS_INSTANCE (hiredispool.h). The list `redis_pool` never changes
--   its links once it is built, so it is a list, and a pointer into it is a position.
-- - Connect: connect_single_socket (hiredispool.c); its children are the ring of endpoints, the
--   attempts, the results and the contexts.
-- - Acquire: redis_get_socket and redis_release_socket (hiredispool.c). The `while` loop has fuel,
--   one unit for each socket of the list, and it is a theorem that this is enough.
-- - Command: redis_vcommand and redis_command (hiredispool.c).
-- - Lifecycle: redis_pool_create, redis_init_socketpool, redis_poolfree, redis_close_socket and
--   redis_pool_destroy (hiredispool.c).
-- - Invariant: the well-formedness of a pool; Contexts: the hiredis contexts that it holds.
-- - Session: histories of calls on one pool.
-- - Threads: many threads in redis_get_socket and redis_release_socket (hiredispool.c), one access
--   to shared memory after the other, as a step relation with the states that it reaches. Its
--   modules Range, Termination and Progress follow one thread's search while the others run, and
--   Availability the socket that it can get; Locks, Simulation, Cells, Rounds and Refinement set
--   it against Acquire, where one thread runs alone.
-- - Log: the logger (log.h, log.c) over lists of bytes. Log/Names: log_set_config, _set_logfile
--   and convert_logfilename; Log/Lines: the buffer of vlog; Log/Routes: its filters and
--   destinations, log_, log_debug and log_trace, and the macros of log.h. What it writes is a list
--   of events; the date, the time stamps, the hexadecimal form of a level and whether a file opens
--   are parameters. A level is not negative, and has at most four hexadecimal digits, as the
--   buffer `deflvl` is for no more; and `char` is signed.
-- - Client: RedisClient and PooledSocket (RedisClient.h, RedisClient.cpp); Client/Replies:
--   RedisReplyPtr, as the pointers in scope and the replies that have been freed.
--   Experimental/Packs is the RedisReplyPtr of the later client, whose pointers own packs with a
--   reply.
-- - Base/Texts: byte strings; a std::string is the list of its bytes, and a std::set or std::map
--   that is read is the list of its elements in the order of iteration.
-- - Experimental: the pool of experimental/redisclient/hiredispool.h and hiredispool.c, which
--   keeps the last error of a socket, connects its sockets when they are first asked for, and
--   takes commands as arguments too. Where the two versions have the same lines, it uses the
--   definitions of the first. Experimental/Acquire, Command, Lifecycle and Session: its functions,
--   and histories of calls; Experimental/Forgetting: what is left where the last errors are
--   forgotten; Experimental/Client: RedisClient of experimental/redisclient/RedisClient.h and
--   RedisClient.cpp, whose pools stand in a list on a heap, and which is the client that the class
--   Config keeps.
-- - Ramcloud: anka::ramcloud::Client (experimental/redisclient/RedisClientYaf.h,
--   RedisClientYaf.cpp), redis commands as methods. Ramcloud/Replies: reply2status and its kin;
--   Ramcloud/Indices: the loops over the elements of a reply, by index; Ramcloud/Keys, Strings,
--   Sets, Hashes, SortedSets and Ranges: the commands, over a server that is a parameter; a result
--   that is written through a reference or a pointer comes back with the status, and reading a
--   reply ends in a value, in a NULL that is dereferenced, or behind the elements.
--   Ramcloud/Commands: what the theorems say of them; Ramcloud/Dicts: the laws of a map.
-- - Ramcloud/Meta: Config::Meta, Config::convert and ip_ntoa; Ramcloud/Watcher: the class Config,
--   which learns of databases and servers and keeps a client for each database. Each function that
--   a mutex guards as a whole is one step; getRedisClient is findInst, findMeta and createInst,
--   between which other threads run. Ramcloud/Pointers: RedisClientPtr of RedisClientYaf.h, which
--   counts the pointers to a client. Ramcloud/Sharing: the objects of the class Client, whose
--   member `client` every command assigns, as threads use them. Ramcloud/Registration: init of the
--   namespaces ramcloud and redis. Ramcloud/Service: the methods over the class Config and its
--   clients, down to the pools. Ramcloud/Timing: microsec, the class Command and reportStatus,
--   where a time is stored in 64 bits, signed; Ramcloud/Injection: the two functions that make up
--   servers.
-- - Tests: a simulated platform, runs of the model on it, and the theorems at concrete inputs.
--
-- Not modelled. The log messages of the pool and of the client, which change nothing that the pool
-- reads. Failures of malloc, which the code does not check. In Connect, Acquire and Command one
-- thread uses the pool: whether a mutex can be locked is up to the platform, so any other thread
-- may hold any of them. What several threads do to the sockets between two accesses is in Threads,
-- which leaves out the contexts and what is sent over them. Under experimental/: the copy of
-- hiredis.
pub mod Base
pub mod Config
pub mod Platform
pub mod Instance
pub mod Connect
pub mod Acquire
pub mod Command
pub mod Lifecycle
pub mod Invariant
pub mod Contexts
pub mod Session
pub mod Threads
pub mod Client
pub mod Log
pub mod Experimental
pub mod Ramcloud
mod Tests
