-- ===== src/Examples/Plans.antt =====
-- The theorems on the execution plans of src/core.c, at a database.
use libvmod_redis.Base.{◌-◌, ◌*◌, ◌<◌, ◌≡◌, refl, true, take, arith, length}
use libvmod_redis.Core.Types.{set_queue}
use libvmod_redis.Core.Plan.{populate_execution_plan}
use libvmod_redis.Core.Plan.Contexts.{sizeof_ptr}
use libvmod_redis.Core.Plan.Servers.{grid, populate_servers}
use libvmod_redis.Core.Plan.Order.{picked}
use libvmod_redis.Core.Plan.Candidates.{candidates}
use libvmod_redis.Core.Plan.Registered.{IsRegistered}
use libvmod_redis.Core.Plan.Reference.{populate_servers-candidates}
use libvmod_redis.Core.Plan.Armed.{
  IsReuse, IsArmed, populate_execution_plan-IsReuse, populate_execution_plan-IsArmed,
}
use libvmod_redis.Core.Plan.Overrun.{populate_servers-overruns}
use libvmod_redis.Examples.Data.{db, env, task, db-IsFiled, context-IsRegistered}

populate_servers-candidates_example :
    (populate_servers db true 0 5 64 1).pick
    ≡ picked (take 1 (candidates db true 0 5)) (1 - length (candidates db true 0 5))
populate_servers-candidates_example =
    populate_servers-candidates 64 (omega arith) db 0 5 true 1 db-IsFiled

two_candidates : length (candidates db true 0 5) ≡ 2
unfolding set_queue grid
two_candidates = refl

populate_servers-overruns_example :
    8 < sizeof_ptr * length (populate_servers db true 0 5 8 2).pick.selected
populate_servers-overruns_example =
    populate_servers-overruns 8 db true 0 5 2 1 db-IsFiled (omega arith) (omega arith) (omega arith)
      (omega (arith, two_candidates))

populate_execution_plan-IsReuse_example :
    IsReuse env db task 5 64 64 2 0 true
      (omega arith)
      refl
      refl
      (IsRegistered db)
      (populate_execution_plan env 5 64 64 db task 2 true 0)
populate_execution_plan-IsReuse_example =
    populate_execution_plan-IsReuse env db task 5 64 64 2 0 true (omega arith) refl refl
      (IsRegistered db) (context-IsRegistered, tt)

populate_execution_plan-IsArmed_example :
    IsArmed env db task 5 64 64 2 0 true
      (omega arith)
      refl
      refl
      (populate_execution_plan env 5 64 64 db task 2 true 0)
populate_execution_plan-IsArmed_example =
    populate_execution_plan-IsArmed env db task 5 64 64 2 0 true (omega arith) refl refl
      (omega arith) (omega arith) db-IsFiled (context-IsRegistered, tt)
