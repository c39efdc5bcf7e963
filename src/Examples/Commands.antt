-- ===== src/Examples/Commands.antt =====
-- The theorems on the private connections of src/core.c and on the commands of src/vmod_redis.c, at a
-- task.
use libvmod_redis.Base.{refl, none, some, [], ◌∷◌, take, arith, inr}
use libvmod_redis.Core.Types.{Task}
use libvmod_redis.Core.Plan.{Plan}
use libvmod_redis.Core.Private.{lock_private_redis_context}
use libvmod_redis.Core.Private.Counted.{IsLocked, lock_private_redis_context-IsLocked}
use libvmod_redis.Vmod.Command.{max_redis_command_args, vmod_db_command}
use libvmod_redis.Vmod.Command.Arguments.{push_all, HasArgv, push_all-vmod_db_command}
use libvmod_redis.Examples.Data.{db, env, task}

-- The contexts of the plan are used up, and it is the turn of the second server.
abbrev plan : Plan
plan = record { contexts = []; contexts_next = 0; servers = 7 ∷ 8 ∷ []; servers_next = 1 }

lock_private_redis_context-IsLocked_example :
    IsLocked 2 1 (7 ∷ 8 ∷ []) (lock_private_redis_context env 5 (some 3) 60 plan task db)
lock_private_redis_context-IsLocked_example =
    lock_private_redis_context-IsLocked env 5 (some 3) 60 plan task db (inr (omega arith))
      (inr (omega arith)) (omega arith) refl

push_all-vmod_db_command_example :
    HasArgv db
      (take max_redis_command_args ((71 ∷ []) ∷ (107 ∷ []) ∷ []))
      (push_all db ((107 ∷ []) ∷ []) (vmod_db_command db none (some (71 ∷ []))))
push_all-vmod_db_command_example = push_all-vmod_db_command db none 71 [] ((107 ∷ []) ∷ [])

abbrev foreign : Task
foreign = record task { command = record (task.command) { db = some 2; argv = (71 ∷ []) ∷ [] } }
