-- ===== src/Examples/Methods.antt =====
-- The theorems on the methods of src/vmod_redis.c, at a database and a task.
use libvmod_redis.Base.{
  ℕ, ◌≡◌, refl, true, false, Option, none, some, List, [], ◌∷◌, map, length, arith, Str,
}
use libvmod_redis.Core.Reply.{Reply, pos, negsuc, Replies, string, integer, array, set, cons, end}
use libvmod_redis.Core.Types.{default, Db, Task}
use libvmod_redis.Cluster.Hops.Final.{IsPlain}
use libvmod_redis.Vmod.Command.{get_task_state, validate_command_state}
use libvmod_redis.Vmod.Databases.{
  Options, check_input, initial_server, new_vmod_redis_db, not_empty, vmod_db__init,
}
use libvmod_redis.Vmod.Databases.Reached.{built, added, Reached-IsOrderly}
use libvmod_redis.Vmod.Servers.{auto, type2role, Added, vmod_db_add_server}
use libvmod_redis.Vmod.Servers.Orderly.{IsOrderlyAdded}
use libvmod_redis.Vmod.Execute.{forces_master, vmod_db_execute}
use libvmod_redis.Vmod.Execute.Served.{vmod_db_execute-completes, vmod_db_execute-IsPlain}
use libvmod_redis.Core.Execute.Completes.{HasReturned}
use libvmod_redis.Core.Execute.{redis_execute}
use libvmod_redis.Cluster.Slot.{get_cluster_slot}
use libvmod_redis.Vmod.Weights.{strip, unsafe_set_weight_rules, vmod_weights}
use libvmod_redis.Vmod.Weights.Bounds.{AreInRange, vmod_weights-AreInRange}
use libvmod_redis.Vmod.Weights.Printing.{
  Entry, rule, print_rules, unsafe_set_weight_rules-print_rules,
}
use libvmod_redis.Examples.Data.{raw, server, db, task, db-IsFiled, context-IsRegistered}
use libvmod_redis.Examples.Tries.{sha1}
use libvmod_redis.Examples.Hops.{around, get_word, info_word}

-- A database with clustering.
abbrev clustered : Db
clustered = record db { enabled = true }

-- A task with a command for the database, and a reply of three kinds of elements.
abbrev two : Replies
two = cons (string get_word) (cons (integer (negsuc 4)) end)

abbrev ready : Task
ready = record task {
  command = record (task.command) {
    db = some 1;
    max_retries = 1;
    argv = get_word ∷ info_word ∷ [];
    reply = some (array two);
  };
}

abbrev with_set : Task
with_set = record ready { command = record (ready.command) { reply = some (set two) } }

-- redis.db() with a server at "h:1".
abbrev options : Options
options = record {
  location = some raw;
  type = auto;
  connection_timeout = pos 1000;
  connection_ttl = pos 0;
  command_timeout = pos 0;
  max_command_retries = pos 0;
  shared_connections = true;
  max_connections = pos 128;
  protocol = default;
  tls = false;
  tls_files = [];
  user = some [];
  password = some [];
  sickness_ttl = pos 60;
  ignore_slaves = false;
  debug = false;
  max_cluster_hops = pos 32;
}

abbrev first_server : Added
first_server =
    initial_server around 9 (type2role auto) (new_vmod_redis_db 1 (λ p. server) get_word options)
      (not_empty (some raw))

first_server-built :
    vmod_db__init around 1 (λ p. server) get_word false 9 options ≡ some first_server
unfolding vmod_db__init check_input
first_server-built = refl

Reached-IsOrderly_example :
    IsOrderlyAdded
      (vmod_db_add_server around first_server.db first_server.next (some (110 ∷ 58 ∷ 50 ∷ [])) auto)
Reached-IsOrderly_example =
    Reached-IsOrderly
      (vmod_db_add_server around first_server.db first_server.next (some (110 ∷ 58 ∷ 50 ∷ [])) auto)
      (added around first_server (some (110 ∷ 58 ∷ 50 ∷ [])) auto
        (built around 1 (λ p. server) get_word false 9 options first_server first_server-built))

vmod_db_execute-completes_example :
    let x = vmod_db_execute sha1 length (λ n. around) db 9 (some ready) false in
    HasReturned x.status
unfolding get_task_state
vmod_db_execute-completes_example =
    vmod_db_execute-completes sha1 length (λ n. around) db 9 (some ready) false refl
      (record {
        private = refl;
        allowed = omega arith;
        counted = refl;
        room1 = omega arith;
        room2 = omega arith;
        room3 = omega arith;
        few = omega arith;
        filed = db-IsFiled;
        registered = (context-IsRegistered, tt);
      })

vmod_db_execute-IsPlain_example :
    let x = vmod_db_execute sha1 length (λ n. around) clustered 9 (some ready) false in
    IsPlain x.task.command.reply
unfolding get_task_state validate_command_state
vmod_db_execute-IsPlain_example =
    vmod_db_execute-IsPlain sha1 length (λ n. around) clustered 9 (some ready) false refl refl

-- What the first round of the command comes to.
abbrev first_reply : Option Reply
first_reply =
    (redis_execute sha1 around.planning around.tries clustered ready 1 ready.command.argv 0 none
      false (forces_master clustered ready.command.argv false)
      (get_cluster_slot length info_word)).result

-- "3 GET".
abbrev text : Str
text = 51 ∷ 32 ∷ get_word

abbrev compile : Str → Option ℕ
compile s = some (length s)

vmod_weights-AreInRange_example : AreInRange (vmod_weights compile 0 none (some text) [])
vmod_weights-AreInRange_example = vmod_weights-AreInRange compile 0 none (some text) [] tt

-- "3 GET" and "0 INFO".
abbrev entries : List Entry
entries =
    record { weight = 3; first = 71; more = 69 ∷ 84 ∷ []; vre = 3 }
    ∷ record { weight = 0; first = 73; more = 78 ∷ 70 ∷ 79 ∷ []; vre = 4 }
    ∷ []

unsafe_set_weight_rules-print_rules_example :
    unsafe_set_weight_rules compile (print_rules entries) [] ≡ map rule entries
unfolding strip
unsafe_set_weight_rules-print_rules_example = unsafe_set_weight_rules-print_rules compile entries (
  record {
    in_range = omega arith;
    no_blank = refl;
    one_line = (refl, (refl, (refl, tt)));
    stripped = refl;
    compiles = refl;
  },
  (
    record {
      in_range = omega arith;
      no_blank = refl;
      one_line = (refl, (refl, (refl, (refl, tt))));
      stripped = refl;
      compiles = refl;
    },
    tt,
  ),
)
