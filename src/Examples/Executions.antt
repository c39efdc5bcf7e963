-- ===== src/Examples/Executions.antt =====
-- The theorems on the execution of commands of src/core.c, at a database and a server with scripts.
use libvmod_redis.Base.{◌≡◌, inr, refl, true, false, none, some, List, [], ◌∷◌, Str, arith}
use libvmod_redis.Core.Reply.{error, string}
use libvmod_redis.Core.Pipeline.{get_redis_repy}
use libvmod_redis.Core.Pipeline.InStep.{IsInStep, get_redis_repy-IsInStep}
use libvmod_redis.Core.Script.{Try, talk, str_case_eq, eval_word, noscript_word, has_prefix}
use libvmod_redis.Core.Plan.{plan_execution, populate_execution_plan, add_servers}
use libvmod_redis.Core.Plan.Contexts.{scan_task}
use libvmod_redis.Core.Plan.Servers.{
  populate_servers, early_round, visit_queues, grid, round_role, round_server,
}
use libvmod_redis.Core.Execute.{plan_size, crashed, redis_execute}
use libvmod_redis.Core.Execute.Completes.{IsComplete, redis_execute-completes}
use libvmod_redis.Core.Execute.Scripts.{Serves, RunsScripts, talk-reply, talk-argv-noscript}
use libvmod_redis.Cluster.Keys.Named.{str_case_eq-length}
use libvmod_redis.Examples.Tries.{serve, replies, sha1, first_try, planning}
use libvmod_redis.Examples.Data.{db, task, context, db-IsFiled, context-IsRegistered}

replies-Serves : Serves serve replies
replies-Serves sent n cmd e = rw e refl

serve-RunsScripts : RunsScripts sha1 serve
unfolding has_prefix
serve-RunsScripts = record {
  by_hash = λ script args. inr (noscript_word, refl, refl);
  any_case = any_case;
}
  where
    any_case :
        (command : Str) (args : List Str)
        → str_case_eq command eval_word ≡ true
        → serve (command ∷ args) ≡ serve (eval_word ∷ args)
    any_case command [] e = refl
    any_case command (key ∷ args) e = rw (str_case_eq-length command eval_word e) refl

-- A connection that is lost.
abbrev lost_try : Try
lost_try = record first_try { first = λ sent n. none }

-- "return 1".
abbrev script : Str
script = 114 ∷ 101 ∷ 116 ∷ 117 ∷ 114 ∷ 110 ∷ 32 ∷ 49 ∷ []

get_redis_repy-IsInStep_example :
    IsInStep replies (script ∷ []) (get_redis_repy db replies context (script ∷ []) true)
get_redis_repy-IsInStep_example = get_redis_repy-IsInStep db replies context (script ∷ []) true

redis_execute-completes_example : IsComplete 2 3 (
    redis_execute sha1 planning
      (λ n. lost_try)
      db
      task
      2
      (eval_word ∷ script ∷ [])
      0
      none
      false
      true
      0)
redis_execute-completes_example =
    redis_execute-completes sha1 planning (λ n. lost_try) db task 2 (eval_word ∷ script ∷ []) 0 none
      false true 0 refl (omega arith) refl (omega arith) (omega arith) (omega arith) (omega arith)
      (inr (refl, omega arith, db-IsFiled, (context-IsRegistered, tt)))

-- Room for one pointer is not enough for a plan of two servers: WS_Release() aborts the worker.
overruns :
    (redis_execute sha1
      (record planning { ws2 = 8 })
      (λ n. lost_try)
      db
      (record task { contexts = []; ncontexts = 0 })
      2
      (eval_word ∷ script ∷ [])
      0
      none
      false
      true
      0).status
    ≡ crashed
unfolding redis_execute plan_execution populate_execution_plan scan_task add_servers plan_size
    populate_servers early_round visit_queues grid round_role round_server
overruns = refl

talk-reply_example :
    (talk sha1 first_try false context (eval_word ∷ script ∷ (55 ∷ []) ∷ []) db).reply
    ≡ some (string (55 ∷ []))
talk-reply_example =
    talk-reply sha1 serve first_try false context db serve-RunsScripts replies-Serves replies-Serves
      refl refl refl refl (eval_word ∷ script ∷ (55 ∷ []) ∷ [])

-- "MOVED 1 h:1".
abbrev moved : Str
moved = 77 ∷ 79 ∷ 86 ∷ 69 ∷ 68 ∷ 32 ∷ 49 ∷ 32 ∷ 104 ∷ 58 ∷ 49 ∷ []

abbrev moved_try : Try
moved_try = record first_try { first = λ sent n. some (error moved) }

talk-argv-noscript_example :
    let later = (talk sha1 moved_try false context (eval_word ∷ script ∷ []) db).argv in
    (talk sha1 first_try false context later db).reply ≡ some (error noscript_word)
unfolding get_redis_repy has_prefix
talk-argv-noscript_example =
    talk-argv-noscript sha1 moved_try first_try false false context context db db script []
      noscript_word refl refl refl refl
