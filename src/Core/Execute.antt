-- ===== src/Core/Execute.antt =====
-- The loop of redis_execute() of src/core.c over the tries of a command.
pub mod Ends
pub mod Scripts
pub mod Steps
pub mod Alive
pub mod Completes
use libvmod_redis.Base.{
  ℕ, zero, suc, ◌+◌, ◌-◌, ◌*◌, ◌%◌, ◌^◌, Bool, true, false, ◌&&◌, ◌||◌, Option, none, some, List,
  [], ◌∷◌, ltb, leb, ◌==◌, not, if◌then◌else◌, length, Str,
}
use libvmod_redis.Core.Reply.{Reply, error}
use libvmod_redis.Core.Types.{Ptr, Context, Task, Db, Env, inc}
use libvmod_redis.Core.Valid.{with_stats}
use libvmod_redis.Core.Plan.{Plan, Outcome, plan_execution}
use libvmod_redis.Core.Plan.Contexts.{sizeof_ptr}
use libvmod_redis.Core.Private.{Lock, locked, refused, aborted, blocked, Locking}
use libvmod_redis.Core.Pipeline.{get_redis_repy}
use libvmod_redis.Core.Locking.{lock_redis_context, unlock_redis_context}
use libvmod_redis.Core.Script.{Try, Talk, talk}

-- Whether the loop goes on, and how it has ended: with a reply or without, by VRT_fail() for want
-- of room, by a failed assertion, or not at all: in a wait, or in a search that does not end.
pub data Status : Type 0 where
  going done out_of_room crashed waiting : Status

-- The variables of the loop. `tried` counts the rounds.
pub record Loop : Type 0 where
  pub plan : Plan
  pub task : Task
  pub db : Db
  pub argv : List Str
  pub retries : ℕ
  pub result : Option Reply
  pub status : Status
  pub tried : ℕ

-- The counters after a try, and whether there is another.
abbrev pub counted : ℕ → Option Reply → Db → Db
counted retries none db = with_stats db (record (db.stats) {
  commands_retried =
      if ltb 0 retries then inc db.stats.commands_retried else db.stats.commands_retried;
  commands_failed = inc db.stats.commands_failed;
})
counted retries (some r) db = with_stats db (record (db.stats) {
  commands_retried =
      if ltb 0 retries then inc db.stats.commands_retried else db.stats.commands_retried;
  commands_total = inc db.stats.commands_total;
})

unfoldable pub try_again : ℕ → Option Reply → Loop → Loop
try_again max_retries none l =
    if ltb l.retries max_retries
    then record l { db = counted l.retries none l.db; retries = l.retries + 1; result = none }
    else record l { db = counted l.retries none l.db; result = none; status = done }
try_again max_retries (some r) l = record l {
  db = counted l.retries (some r) l.db;
  result = some r;
  status = done;
}

unfoldable pub conclude_talk : ℕ → Context → Talk → Loop → Loop
unfolding try_again
conclude_talk max_retries c s l =
    let released = record l { argv = s.argv; db = unlock_redis_context c s.db } in
    if s.failed_ws
    then record released { retries = max_retries; result = none; status = out_of_room }
    else try_again max_retries s.reply released

abbrev pub is_going : Status → Bool
is_going going = true
is_going _ = false

-- What the plan is made with: the world, the time, and the room for the plan and its parts.
pub record Planning : Type 0 where
  pub env : Env
  pub now : ℕ
  pub has_room : Bool
  pub ws1 : ℕ
  pub ws2 : ℕ

-- The size of the plan is an unsigned.
unfoldable pub plan_size : ℕ → ℕ → ℕ
plan_size max_retries retries =
    if ltb 0 retries then max_retries - retries else (1 + max_retries - retries) % 2 ^ 32

-- The room for each list of the plan was found once, and is not reduced by what is put in it: a list
-- that is longer than the room runs into the assertion of WS_Release().
abbrev pub fits : ℕ → ℕ → Option Outcome → Bool
fits ws1 ws2 none = true
fits ws1 ws2 (some o) =
    leb (sizeof_ptr * length o.plan.contexts) ws1 && leb (sizeof_ptr * length o.plan.servers) ws2

abbrev pub overrun : List Str → ℕ → Task → Db → Loop
overrun argv retries t db = record {
  plan = record { contexts = []; contexts_next = 0; servers = []; servers_next = 0 };
  task = t;
  db = db;
  argv = argv;
  retries = retries;
  result = none;
  status = crashed;
  tried = 0;
}

module _ (sha1 : Str → Str) where
  unfoldable pub with_lock : Try → ℕ → Bool → Loop → Lock → Loop
  unfolding conclude_talk talk try_again
  with_lock t max_retries asking l (locked c) =
      conclude_talk max_retries c (talk sha1 t asking c l.argv l.db) l
  with_lock t max_retries asking l refused = try_again max_retries none l
  with_lock t max_retries asking l aborted = record l { status = crashed }
  with_lock t max_retries asking l blocked = record l { status = waiting }

  unfoldable pub one_try : Try → ℕ → Bool → Loop → Loop
  unfolding with_lock
  one_try t max_retries asking l =
      let k = lock_redis_context t.env t.now t.dial t.id t.others l.plan l.task l.db in
      with_lock t max_retries asking
        (record l { plan = k.plan; task = k.task; db = k.db; tried = l.tried + 1 }) k.result

  -- The loop, with fuel; `tries n` is the n-th round.
  unfoldable pub run : ℕ → (ℕ → Try) → ℕ → Bool → Loop → Loop
  run zero tries max_retries asking l = l
  run (suc fuel) tries max_retries asking l =
      let rest = run fuel tries max_retries asking (one_try (tries l.tried) max_retries asking l) in
      if is_going l.status then rest else l

  -- One round more than there are retries is enough.
  unfoldable pub execute_plan :
      (ℕ → Try) → ℕ → List Str → ℕ → Bool → Option Outcome → Task → Db → Loop
  unfolding run
  execute_plan tries max_retries argv retries asking none t db = record {
    plan = record { contexts = []; contexts_next = 0; servers = []; servers_next = 0 };
    task = t;
    db = db;
    argv = argv;
    retries = max_retries;
    result = none;
    status = done;
    tried = 0;
  }
  execute_plan tries max_retries argv retries asking (some o) t db =
      let start : Loop = record {
        plan = o.plan;
        task = o.task;
        db = o.db;
        argv = argv;
        retries = retries;
        result = none;
        status = going;
        tried = 0;
      } in
      if ltb 0 (length o.plan.contexts) || ltb 0 (length o.plan.servers)
      then run (max_retries - retries + 1) tries max_retries asking start
      else record start { retries = max_retries; status = done }

  unfoldable pub redis_execute :
      Planning → (ℕ → Try) → Db → Task → ℕ → List Str → ℕ → Option Ptr → Bool → Bool → ℕ → Loop
  unfolding execute_plan
  redis_execute p tries db t max_retries argv retries server asking m slot =
      let o =
        plan_execution p.env p.now p.has_room p.ws1 p.ws2 db t (plan_size max_retries retries)
          server m slot in
      if fits p.ws1 p.ws2 o
      then execute_plan tries max_retries argv retries asking o t db
      else overrun argv retries t db
