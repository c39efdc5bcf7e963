-- ===== src/Core/Locking.antt =====
-- lock_redis_context() and unlock_redis_context() of src/core.c: the connection of a try, from the
-- task or from a pool. What other threads do to the database while this one waits for a shared
-- connection is an argument, one change for each wait.
use libvmod_redis.Base.{
  ℕ, ◌+◌, ◌%◌, Option, none, some, List, [], ◌∷◌, if◌then◌else◌, length, get_elem?,
}
use libvmod_redis.Core.Types.{Ptr, Context, Task, Db, Env}
use libvmod_redis.Core.Plan.{Plan}
use libvmod_redis.Core.Pool.{
  Attempt, got, failed, waits, attempt, woken, unlock_shared_redis_context,
}
use libvmod_redis.Core.Private.{
  Lock, locked, refused, aborted, blocked, Locking, lock_private_redis_context,
}

-- The rounds from `retry:`; `waits` is a thread that still waits when nothing more happens.
abbrev pub retry : (Db → Attempt × Db) → Attempt × Db → List (Db → Db) → Attempt × Db
retry again (got c, db) others = (got c, db)
retry again (failed, db) others = (failed, db)
retry again (waits, db) [] = (waits, db)
retry again (waits, db) (other ∷ others) = retry again (again (woken (other db))) others

abbrev pub lock_of : Attempt → Lock
lock_of (got c) = locked c
lock_of failed = refused
lock_of waits = blocked

unfoldable pub lock_shared_server :
    Env → ℕ → Option ℕ → ℕ → List (Db → Db) → Plan → Task → Db → Option Ptr → Locking
lock_shared_server env now dial id others plan t db none = record {
  result = aborted;
  plan = plan;
  task = t;
  db = db;
}
lock_shared_server env now dial id others plan t db (some server) =
    let (a, db') =
      retry (attempt env now server id dial) (attempt env now server id dial db) others in
    record {
      result = lock_of a;
      plan = record plan { servers_next = (plan.servers_next + 1) % length plan.servers };
      task = t;
      db = db';
    }

-- lock_shared_redis_context().
unfoldable pub lock_shared_redis_context :
    Env → ℕ → Option ℕ → ℕ → List (Db → Db) → Plan → Task → Db → Locking
unfolding lock_shared_server
lock_shared_redis_context env now dial id others plan t db =
    lock_shared_server env now dial id others plan t db (get_elem? plan.servers plan.servers_next)

unfoldable pub lock_redis_context :
    Env → ℕ → Option ℕ → ℕ → List (Db → Db) → Plan → Task → Db → Locking
lock_redis_context env now dial id others plan t db =
    if db.shared_connections
    then lock_shared_redis_context env now dial id others plan t db
    else lock_private_redis_context env now dial id plan t db

unfoldable pub unlock_redis_context : Context → Db → Db
unlock_redis_context c db =
    if db.shared_connections then unlock_shared_redis_context c.server c db else db
