-- ===== src/Vmod/Execute.antt =====
-- .execute() and .easy_execute() of src/vmod_redis.c, on top of the execution of commands in src/core.c and src/cluster.c.
pub mod Served
use libvmod_redis.Base.{
  ℕ, ◌+◌, Bool, true, false, ◌&&◌, ◌||◌, not, Option, none, some, List, [], ◌∷◌, if◌then◌else◌, Str,
}
use libvmod_redis.Core.Reply.{ℤ, Reply, error}
use libvmod_redis.Core.Types.{Ptr, Task, Db, inc, Command as EnqueuedCommand}
use libvmod_redis.Core.Valid.{with_stats}
use libvmod_redis.Core.Script.{str_case_eq, eval_word, evalsha_word}
use libvmod_redis.Core.Execute.{Status, done, Loop, redis_execute}
use libvmod_redis.Cluster.Hops.{Around, Hopping, cluster_execute}
use libvmod_redis.Vmod.Command.{
  get_task_state, known_task, validate_command_state, vmod_db_command, vmod_db_push,
  vmod_db_timeout, vmod_db_retries,
}

-- The state of the task, the database, the next address, and how the execution has ended.
pub record Executed : Type 0 where
  pub task : Task
  pub db : Db
  pub next : Ptr
  pub status : Status

abbrev pub is_script : List Str → Bool
is_script [] = false
is_script (command ∷ args) = str_case_eq command eval_word || str_case_eq command evalsha_word

-- Whether only a master will do.
unfoldable pub forces_master : Db → List Str → Bool → Bool
forces_master db argv m =
    let m' = if not m && db.ignore_slaves then true else m in
    if db.enabled && not m' && is_script argv then true else m'

-- The reply is stored, and the arguments are the ones of the last try.
abbrev pub with_reply : List Str → Option Reply → Task → Task
with_reply argv reply t = record t { command = record (t.command) { argv = argv; reply = reply } }

abbrev pub counted_error : Option Reply → Db → Db
counted_error (some (error text)) db =
    with_stats db (record (db.stats) { commands_error = inc db.stats.commands_error })
counted_error _ db = db

-- The arguments of .easy_execute().
pub record EasyArgs : Type 0 where
  pub command : Option Str
  pub args : List (Bool × Option Str)
  pub timeout : Option ℕ
  pub retries : Option ℤ
  pub m : Bool

abbrev pub is_named : Option Str → Bool
is_named (some (c ∷ cs)) = true
is_named _ = false

abbrev pub push_args : Db → List (Bool × Option Str) → Option Task → Option Task
push_args db [] priv = priv
push_args db ((has_room, arg) ∷ args) priv = push_args db args (vmod_db_push db priv has_room arg)

abbrev pub set_timeout : Db → Option ℕ → Option Task → Option Task
set_timeout db none priv = priv
set_timeout db (some timeout) priv = vmod_db_timeout db priv timeout

abbrev pub set_retries : Db → Option ℤ → Option Task → Option Task
set_retries db none priv = priv
set_retries db (some retries) priv = vmod_db_retries db priv retries

module _ (sha1 : Str → Str) (crc16 : Str → ℕ) where
  unfoldable pub execute_standalone : Around → Db → Ptr → Task → Bool → Executed
  execute_standalone a db next t m =
      let l =
        redis_execute sha1 a.planning a.tries db t t.command.max_retries t.command.argv 0 none false
          m 0 in
      record {
        task = with_reply l.argv l.result l.task;
        db = counted_error l.result l.db;
        next = next;
        status = l.status;
      }

  unfoldable pub execute_clustered : (ℕ → Around) → Db → Ptr → Task → Bool → Executed
  execute_clustered around db next t m =
      let h =
        cluster_execute sha1 crc16 around db next t t.command.max_retries t.command.argv 0 m in
      record {
        task = with_reply h.argv h.result h.task;
        db = counted_error h.result h.db;
        next = h.next;
        status = h.status;
      }

  unfoldable pub vmod_db_execute : (ℕ → Around) → Db → Ptr → Option Task → Bool → Executed
  vmod_db_execute around db next priv m =
      let t = get_task_state priv false in
      let m' = forces_master db t.command.argv m in
      if validate_command_state t db
      then if db.enabled
        then execute_clustered around db next t m'
        else execute_standalone (around 0) db next t m'
      else record { task = t; db = db; next = next; status = done }

  -- .easy_execute(), with the arguments that are given, at most 16 of them, and the room for each.
  unfoldable pub vmod_db_easy_execute : (ℕ → Around) → Db → Ptr → Option Task → EasyArgs → Executed
  unfolding vmod_db_execute
  vmod_db_easy_execute around db next priv e = easy (is_named e.command)
    where
      enqueued : Option Task
      enqueued =
          set_retries db e.retries
            (set_timeout db e.timeout (push_args db e.args (vmod_db_command db priv e.command)))

      easy : Bool → Executed
      easy true = vmod_db_execute around db next enqueued e.m
      easy false = record { task = known_task priv; db = db; next = next; status = done }
