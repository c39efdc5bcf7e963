-- ===== src/Core/Plan.antt =====
-- The execution plans of src/core.c: new_execution_plan(), populate_simple_execution_plan(),
-- populate_execution_plan() and plan_execution(). The room that each WS_ReserveAll() finds in the
-- workspace is an argument, in bytes, and so is the time that time() returns.
pub mod Contexts
pub mod Servers
pub mod Order
pub mod Rotation
pub mod Reuse
pub mod Candidates
pub mod Rounds
pub mod Reference
pub mod Registered
pub mod Armed
pub mod Overrun
pub mod Sound
use libvmod_redis.Base.{
  ℕ, suc, ◌+◌, ◌-◌, Bool, true, false, ◌&&◌, ◌||◌, Option, none, some, List, [], ◌∷◌, ◌++◌, ltb,
  leb, ◌==◌, not, if◌then◌else◌, length,
}
use libvmod_redis.Core.Types.{
  Ptr, Role, slave, master, tbd, role_eq, Context, Task, Db, Env, Queues, set_queue,
}
use Contexts.{sizeof_ptr, Scan, scan_task, rotate_contexts}
use Servers.{populate_servers}

-- struct plan; `n` of each part is the length of its list.
pub record Plan : Type 0 where
  pub contexts : List Context
  pub contexts_next : ℕ
  pub servers : List Ptr
  pub servers_next : ℕ

unfoldable pub empty_plan : Plan
empty_plan = record { contexts = []; contexts_next = 0; servers = []; servers_next = 0 }

-- The plan, the task and the database, and whether VRT_fail() was called.
pub record Outcome : Type 0 where
  pub plan : Plan
  pub task : Task
  pub db : Db
  pub failed : Bool

-- `icontext->server->db == db` and `icontext->server == server`.
unfoldable pub simple_match : Db → Ptr → Context → Bool
simple_match db server c = (db.mem c.server).db == db.id && c.server == server

unfoldable pub add_server : ℕ → Ptr → Outcome → Outcome
add_server free_ws server o =
    if leb sizeof_ptr free_ws
    then record o { plan = record p { servers = server ∷ [] } }
    else record o { failed = true }
  where
    open o use {plan as p}

-- `ws1` and `ws2` are the room found by the two reservations.
unfoldable pub populate_simple_execution_plan : Env → ℕ → ℕ → ℕ → Db → Task → ℕ → Ptr → Outcome
populate_simple_execution_plan env now ws1 ws2 db t max_size server =
    let s = scan_task (simple_match db server) env now ws1 max_size db t in
    let scanned : Outcome = record {
      plan = record empty_plan { contexts = s.selected };
      task = record t { contexts = s.kept; ncontexts = s.ncontexts };
      db = s.db;
      failed = s.failed;
    } in
    if db.shared_connections
    then add_server ws2 server (record { plan = empty_plan; task = t; db = db; failed = false })
    else if s.failed
    then scanned
    else add_server ws2 server scanned

-- The contexts that the general plan takes.
unfoldable pub general_match : Db → Bool → ℕ → Context → Bool
general_match db m slot c =
    (db.mem c.server).db == db.id
    && ((m && role_eq (db.mem c.server).role master)
        || (not m && not (role_eq (db.mem c.server).role master)))
    && (not db.enabled || (db.mem c.server).slots slot)

-- `now2` is the time, and `ws2` the room, of the second half.
unfoldable pub add_servers : ℕ → ℕ → Bool → ℕ → ℕ → Outcome → Outcome
add_servers now ws2 m slot max_size o =
    let n = length o.plan.contexts in
    let w = populate_servers o.db m slot now ws2 (max_size - n) in
    if ltb n max_size
    then record {
      plan = record p { servers = w.pick.selected };
      task = o.task;
      db = record d { servers = w.queues };
      failed = w.pick.failed;
    }
    else o
  where
    open o use {plan as p, db as d}

unfoldable pub populate_execution_plan : Env → ℕ → ℕ → ℕ → Db → Task → ℕ → Bool → ℕ → Outcome
populate_execution_plan env now ws1 ws2 db t max_size m slot =
    let s = scan_task (general_match db m slot) env now ws1 max_size db t in
    let scanned : Outcome = record {
      plan = record empty_plan { contexts = s.selected };
      task = record t {
        contexts = if s.failed then s.kept else rotate_contexts s.selected s.kept;
        ncontexts = s.ncontexts;
      };
      db = s.db;
      failed = s.failed;
    } in
    if db.shared_connections
    then add_servers now ws2 m slot max_size
        (record { plan = empty_plan; task = t; db = db; failed = false })
    else if s.failed
    then scanned
    else add_servers now ws2 m slot max_size scanned

-- plan_execution(). `ws` is the room for the plan itself; `none` is a NULL plan.
unfoldable pub plan_execution :
    Env → ℕ → Bool → ℕ → ℕ → Db → Task → ℕ → Option Ptr → Bool → ℕ → Option Outcome
plan_execution env now has_room ws1 ws2 db t max_size none m slot =
    if has_room then some (populate_execution_plan env now ws1 ws2 db t max_size m slot) else none
plan_execution env now has_room ws1 ws2 db t max_size (some server) m slot =
    if has_room
    then some (populate_simple_execution_plan env now ws1 ws2 db t max_size server)
    else none
