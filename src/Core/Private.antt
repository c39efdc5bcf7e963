-- ===== src/Core/Private.antt =====
-- The private connections of a task in src/core.c: new_task_state() and lock_private_redis_context().
-- What hiredis answers is an argument, and so is the address of a new context.
pub mod Counted
pub mod Ready
use libvmod_redis.Base.{
  ℕ, ◌+◌, ◌-◌, ◌%◌, false, Option, none, some, List, [], ◌∷◌, ◌++◌, ltb, leb, if◌then◌else◌, length,
  get_elem?,
}
use libvmod_redis.Core.Types.{Ptr, Context, Task, Db, Env, inc}
use libvmod_redis.Core.Valid.{with_stats}
use libvmod_redis.Core.Connect.{new_rcontext, new_redis_context}
use libvmod_redis.Core.Plan.{Plan}

unfoldable pub new_task_state : Task
new_task_state = record {
  ncontexts = 0;
  contexts = [];
  db = none;
  command = record {
    db = none;
    timeout = record { tv_sec = 0; tv_usec = 0 };
    max_retries = 0;
    argv = [];
    reply = none;
  };
}

-- A context, none as the connection fails, a failed assertion, or a wait that has not ended.
pub data Lock : Type 0 where
  locked : Context → Lock
  refused : Lock
  aborted : Lock
  blocked : Lock

-- What comes out, the plan, the task and the database.
pub record Locking : Type 0 where
  pub result : Lock
  pub plan : Plan
  pub task : Task
  pub db : Db

-- The first context of the task goes, when there are as many as there may be. CHECK_OBJ_NOTNULL()
-- fails if there is none.
abbrev pub drop_first : Db → Task → List Context → Option (Task × Db)
drop_first db t [] = none
drop_first db t (c ∷ cs) = some (
  record t { contexts = cs; ncontexts = t.ncontexts - 1 },
  with_stats db (record (db.stats) { dropped_overflow = inc db.stats.dropped_overflow }),
)

unfoldable pub make_room : Db → Task → Option (Task × Db)
make_room db t =
    if leb db.max_connections t.ncontexts then drop_first db t t.contexts else some (t, db)

unfoldable pub add_private : Env → ℕ → Ptr → ℕ → Plan → Task → Option ℕ × Db → Locking
unfolding new_redis_context
add_private env now server id plan t (none, db) = record {
  result = refused;
  plan = plan;
  task = t;
  db = db;
}
add_private env now server id plan t (some r, db) =
    let c = new_redis_context env id server r now in
    record {
      result = locked c;
      plan = plan;
      task = record t { contexts = t.contexts ++ (c ∷ []); ncontexts = t.ncontexts + 1 };
      db = db;
    }

unfoldable pub connect_private :
    Env → ℕ → Option ℕ → Ptr → ℕ → Plan → Option (Task × Db) → Locking → Locking
unfolding add_private new_rcontext
connect_private env now dial server id plan none failed = failed
connect_private env now dial server id plan (some (t, db)) failed =
    add_private env now server id plan t (new_rcontext now false dial server db)

-- The next server of the plan, in turn.
unfoldable pub lock_server : Env → ℕ → Option ℕ → ℕ → Plan → Task → Db → Option Ptr → Locking
unfolding make_room connect_private
lock_server env now dial id plan t db none = record {
  result = aborted;
  plan = plan;
  task = t;
  db = db;
}
lock_server env now dial id plan t db (some server) =
    let turned = record plan { servers_next = (plan.servers_next + 1) % length plan.servers } in
    connect_private env now dial server id turned (make_room db t)
      (record { result = aborted; plan = turned; task = t; db = db })

unfoldable pub lock_context : Env → ℕ → Option ℕ → ℕ → Plan → Task → Db → Option Context → Locking
unfolding lock_server
lock_context env now dial id plan t db (some c) = record {
  result = locked c;
  plan = record plan { contexts_next = plan.contexts_next + 1 };
  task = t;
  db = db;
}
lock_context env now dial id plan t db none =
    lock_server env now dial id plan t db (get_elem? plan.servers plan.servers_next)

-- lock_private_redis_context().
unfoldable pub lock_private_redis_context : Env → ℕ → Option ℕ → ℕ → Plan → Task → Db → Locking
unfolding lock_context
lock_private_redis_context env now dial id plan t db =
    lock_context env now dial id plan t db (get_elem? plan.contexts plan.contexts_next)
