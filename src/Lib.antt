-- ===== src/Lib.antt =====
-- libvmod-redis, the Redis client of Varnish: its connections, execution plans, servers and clusters.
--
-- A task of Varnish builds a command and executes it on a database. src/core.c makes an execution plan
-- for it, private connections of the task and servers in order of preference, and each try takes a
-- connection from the plan: one of the task, or one of the pool that threads share. A connection is
-- checked before it is used again, and a server that cannot be reached is marked as sick for a time.
-- With Redis Cluster, src/cluster.c chooses by the hash slot of the key, and learns from CLUSTER SHARDS
-- which servers there are and which slots they own. With Redis Sentinel, a thread of src/sentinel.c keeps
-- an inventory of servers, and gives the servers of the databases the roles that it finds there.
--
-- Base          bytes, Boolean tests, and lists over the native numbers.
-- Core/Reply    redisReply of hiredis, as a data type.
-- Core/Types    the structures of src/core.h. Servers and contexts, which the source shares by pointer,
--               are named by numbers; `mem` of a database is the memory of its servers.
-- Core/Valid    is_valid_redis_context() of src/core.c.
-- Core/Connect  new_rcontext() and new_redis_context() of src/core.c.
-- Core/Plan     new_execution_plan(), populate_simple_execution_plan(), populate_execution_plan() and
--               plan_execution() of src/core.c: Contexts and Servers have the loops, Candidates the
--               description that they are compared with, the other modules the proofs.
-- Core/Pool     lock_shared_redis_context() and unlock_shared_redis_context() of src/core.c, one attempt
--               under the lock at a time, and in Threads the runs of several threads.
-- Core/Private  new_task_state() and lock_private_redis_context() of src/core.c.
-- Core/Locking  lock_shared_redis_context(), lock_redis_context() and unlock_redis_context() of src/core.c.
-- Core/Pipeline get_redis_repy() of src/core.c.
-- Core/Script   what redis_execute() of src/core.c says in one try: EVAL, EVALSHA and NOSCRIPT.
-- Core/Execute  redis_execute() of src/core.c.
-- Core/Serialize serialize_redis_reply() and redis_reply_to_string() of src/core.c, and a grammar of JSON.
-- Core/Registry new_redis_server(), unsafe_discover_redis_server_role() and unsafe_add_redis_server() of
--               src/core.c.
-- Cluster/Slot  get_cluster_slot() of src/cluster.c.
-- Cluster/Nodes parse_slot_range() and parse_node() of src/cluster.c.
-- Cluster/Topology unsafe_reset_slots(), unsafe_add_node() and unsafe_discover_slots_aux() of
--               src/cluster.c.
-- Cluster/Keys  get_key_index() of src/cluster.c.
-- Cluster/Discover unsafe_discover_slots() of src/cluster.c.
-- Cluster/Hops  cluster_execute() of src/cluster.c, on top of Core/Execute.
-- Vmod/Command  .command(), .timeout(), .retries(), .push() and .free() of src/vmod_redis.c.
-- Vmod/Execute  .execute() and .easy_execute() of src/vmod_redis.c, on top of Core/Execute and Cluster/Hops.
-- Vmod/Answers  the methods of src/vmod_redis.c that read a reply.
-- Vmod/Servers  .add_server() of src/vmod_redis.c.
-- Vmod/Databases new_vmod_redis_db() of src/core.c and vmod_db__init() of src/vmod_redis.c.
-- Vmod/Weights  redis.weights() of src/vmod_redis.c.
-- Vmod/Events   the events of a VCL and redis.sentinels() of src/vmod_redis.c.
-- Vmod/Statistics .stats() and .counter() of src/vmod_redis.c.
-- Sentinel/Inventory the state of the Sentinel thread and store_sentinel_reply() of src/sentinel.c.
-- Sentinel/Notification parse_sentinel_notification() of src/sentinel.c.
-- Sentinel/Masters parse_sentinel_discovery() and discover_servers() of src/sentinel.c.
-- Sentinel/Update unsafe_update_dbs() of src/sentinel.c, on the databases of Core.
-- Sentinel/Locations unsafe_set_locations() of src/sentinel.c.
-- Sentinel/Loop unsafe_sentinel_start(), unsafe_sentinel_stop(), unsafe_sentinel_discovery() and, as steps
--               between which other threads run, sentinel_loop() of src/sentinel.c.
-- Sentinel/Keeping what every reply and every notification keeps, for the modules of Sentinel.
-- Examples      a small database, and the theorems at it.
--
-- Machine integers: the counters of a database wrap at 2^64, and a port that is read at 2^32. Times are
-- natural numbers. The room in a workspace is a number of bytes, a pointer has eight; a
-- plan that does not fit in it aborts the worker in WS_Release().
-- The loops are structural, on lists or on replies, but for these with fuel: a port is printed with
-- ten digits, which are enough for 32 bits, and a long long with twenty; the rules of weights are as many
-- as the text has bytes, at most, since each takes a byte, and so are the locations of Sentinels; the
-- loop of redis_execute() has max_retries - retries + 1 rounds, which are enough because a round without a reply uses up a retry;
-- and the search for the topology, which the source does not bound, has its fuel as an argument. The
-- rounds of cluster_execute() are structural on the redirections that are left.
--
-- Parameters: hiredis (the connection that it makes, its error flag, the replies), libev, poll(), time(),
-- malloc(), VSB_quote(), the room in the workspace, the regular expressions of Varnish, and CRC16 and
-- SHA1, which are other projects' code. VSB_printf() and WS_Printf() are taken to format as printf(3) does.
--
-- Not modelled: .get_double_reply() and the proxied functions of src/vmod_redis.c, the
-- callbacks of src/sentinel.c that only log, synthetic bodies, logging, and the release of memory. The
-- other threads of a database appear as changes of it, at the points where a thread waits for a
-- connection.
mod Base
pub mod Cluster
pub mod Core
pub mod Examples
pub mod Vmod
pub mod Sentinel
