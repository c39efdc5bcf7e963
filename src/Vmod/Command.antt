-- ===== src/Vmod/Command.antt =====
-- The construction of a command in src/vmod_redis.c: .command(), .timeout(), .retries(), .push() and
-- .free(), with the state of the task. A timeout is a number of milliseconds that is not negative;
-- whether WS_Copy() finds room is an argument.
pub mod Arguments
use libvmod_redis.Base.{
  ℕ, ◌+◌, ◌-◌, ◌*◌, ◌/◌, ◌%◌, ◌^◌, Bool, true, false, Option, none, some, List, [], ◌∷◌, ◌++◌, ltb,
  ◌==◌, if◌then◌else◌, length, Str,
}
use libvmod_redis.Core.Reply.{ℤ, pos, negsuc}
use libvmod_redis.Core.Types.{Ptr, Task, Db, Command as EnqueuedCommand}
use libvmod_redis.Core.Private.{new_task_state}

-- MAX_REDIS_COMMAND_ARGS.
abbrev pub max_redis_command_args : ℕ
max_redis_command_args = 128

unfoldable pub flush_task_state : Task → Task
flush_task_state t = record t {
  command = record {
    db = none;
    timeout = record { tv_sec = 0; tv_usec = 0 };
    max_retries = 0;
    argv = [];
    reply = none;
  };
}

-- The private pointer of a task is `none` before its first use.
abbrev pub known_task : Option Task → Task
known_task none = new_task_state
known_task (some t) = t

unfoldable pub get_task_state : Option Task → Bool → Task
unfolding flush_task_state
get_task_state priv flush = if flush then flush_task_state (known_task priv) else known_task priv

abbrev pub owned_by : Ptr → Option Ptr → Bool
owned_by p none = false
owned_by p (some q) = q == p

unfoldable pub validate_command_state : Task → Db → Bool
validate_command_state t db =
    if ltb (length t.command.argv) 1 then false else owned_by db.id t.command.db

unfoldable pub vmod_db_command : Db → Option Task → Option Str → Option Task
unfolding get_task_state
vmod_db_command db priv none = priv
vmod_db_command db priv (some []) = priv
vmod_db_command db priv (some (c ∷ cs)) =
    let t = get_task_state priv true in
    some (record t {
      command = record command {
        db = some db.id;
        timeout = db.command_timeout;
        max_retries = db.max_command_retries;
        argv = (c ∷ cs) ∷ [];
      };
    })
  where
    command : EnqueuedCommand
    command = (get_task_state priv true).command

unfoldable pub vmod_db_timeout : Db → Option Task → ℕ → Option Task
unfolding get_task_state validate_command_state
vmod_db_timeout db priv command_timeout =
    let t = get_task_state priv false in
    if validate_command_state t db
    then some (record t {
      command = record (t.command) {
        timeout = record {
          tv_sec = command_timeout / 1000;
          tv_usec = (command_timeout % 1000) * 1000;
        };
      };
    })
    else some t

-- A VCL_INT that is stored in an unsigned.
unfoldable pub to_unsigned : ℤ → ℕ
to_unsigned (pos n) = n % 2 ^ 32
to_unsigned (negsuc n) = 2 ^ 32 - 1 - n % 2 ^ 32

unfoldable pub vmod_db_retries : Db → Option Task → ℤ → Option Task
unfolding get_task_state validate_command_state to_unsigned
vmod_db_retries db priv max_command_retries =
    let t = get_task_state priv false in
    if validate_command_state t db
    then some (record t {
      command = record (t.command) { max_retries = to_unsigned max_command_retries };
    })
    else some t

-- A NULL argument becomes an empty string, if the workspace has room for it.
abbrev pub pushed : Bool → Option Str → Task → Task
pushed has_room none t =
    if has_room
    then record t { command = record (t.command) { argv = t.command.argv ++ ([] ∷ []) } }
    else t
pushed has_room (some arg) t = record t {
  command = record (t.command) { argv = t.command.argv ++ (arg ∷ []) };
}

unfoldable pub vmod_db_push : Db → Option Task → Bool → Option Str → Option Task
unfolding get_task_state validate_command_state
vmod_db_push db priv has_room arg =
    let t = get_task_state priv false in
    if validate_command_state t db
    then if ltb (length t.command.argv) max_redis_command_args
      then some (pushed has_room arg t)
      else some t
    else some t

unfoldable pub vmod_db_free : Option Task → Option Task
unfolding get_task_state
vmod_db_free priv = some (get_task_state priv true)
