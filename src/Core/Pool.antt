-- ===== src/Core/Pool.antt =====
-- The shared pools of src/core.c: lock_shared_redis_context() and unlock_shared_redis_context().
-- The lock of the database is held from `retry:` to the return, but for the wait on the condition
-- variable; so one call is a run of attempts, and other threads act between two attempts. The signals
-- are left out: a thread that waits may wake at any time.
pub mod Lists
pub mod Invariant
pub mod Taking
pub mod Trying
pub mod Threads
pub mod Choice
use libvmod_redis.Base.{
  ℕ, ◌+◌, ◌-◌, false, Option, none, some, List, [], ◌∷◌, ◌++◌, leb, if◌then◌else◌,
}
use libvmod_redis.Core.Types.{Ptr, Context, Db, Env, inc}
use libvmod_redis.Core.Valid.{is_valid_redis_context, with_stats}
use libvmod_redis.Core.Connect.{with_server, new_rcontext, new_redis_context}
use libvmod_redis.Core.Plan.Contexts.{remove_context}

-- Free contexts go to the end of the busy ones.
unfoldable pub mark_busy : Ptr → Context → List Context → Db → Db
mark_busy p c rest db =
    let s = db.mem p in
    with_server db p
      (record s { free_contexts = rest; busy_contexts = s.busy_contexts ++ (c ∷ []) })

unfoldable pub drop_busy : Ptr → Context → Db → Db
drop_busy p c db =
    let s = db.mem p in
    with_server db p (record s {
      ncontexts = s.ncontexts - 1;
      busy_contexts = remove_context c.id s.busy_contexts;
    })

-- The loop over the free contexts: the first one that may be used, all those before it dropped.
unfoldable pub take_free : Env → ℕ → Ptr → List Context → Db → Option Context × Db
unfolding mark_busy drop_busy
take_free env now p [] db = (none, db)
take_free env now p (c ∷ rest) db =
    let (valid, checked) = is_valid_redis_context env (mark_busy p c rest db) c now in
    let more = take_free env now p rest (drop_busy p c checked) in
    if valid then (some c, checked) else more

-- How an attempt ends: with a context, with a connection that fails, or in a wait.
pub data Attempt : Type 0 where
  got : Context → Attempt
  failed : Attempt
  waits : Attempt

unfoldable pub add_busy : Ptr → Context → Db → Db
add_busy p c db =
    let s = db.mem p in
    with_server db p
      (record s { ncontexts = s.ncontexts + 1; busy_contexts = s.busy_contexts ++ (c ∷ []) })

unfoldable pub opened : Env → ℕ → Ptr → ℕ → Option ℕ × Db → Attempt × Db
unfolding add_busy new_redis_context
opened env now p id (none, db) = (failed, db)
opened env now p id (some r, db) =
    let c = new_redis_context env id p r now in (got c, add_busy p c db)

-- After the loop over the free contexts.
unfoldable pub settled : Env → ℕ → Ptr → ℕ → Option ℕ → Option Context × Db → Attempt × Db
unfolding opened new_rcontext
settled env now p id dial (some c, db) = (got c, db)
settled env now p id dial (none, db) =
    if leb db.max_connections (db.mem p).ncontexts
    then (waits, db)
    else opened env now p id (new_rcontext now false dial p db)

-- From `retry:` on. `dial` is what a connection to the server would give, and `id` the address of a
-- new context.
unfoldable pub attempt : Env → ℕ → Ptr → ℕ → Option ℕ → Db → Attempt × Db
unfolding take_free settled
attempt env now p id dial db =
    settled env now p id dial (take_free env now p (db.mem p).free_contexts db)

-- What a thread does when the condition variable wakes it: it counts, and tries again.
unfoldable pub woken : Db → Db
woken db = with_stats db (record (db.stats) { workers_blocked = inc db.stats.workers_blocked })

-- unlock_shared_redis_context().
unfoldable pub unlock_shared_redis_context : Ptr → Context → Db → Db
unlock_shared_redis_context p c db =
    let s = db.mem p in
    with_server db p (record s {
      busy_contexts = remove_context c.id s.busy_contexts;
      free_contexts = s.free_contexts ++ (c ∷ []);
    })
