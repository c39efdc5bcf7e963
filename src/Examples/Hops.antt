-- ===== src/Examples/Hops.antt =====
-- The theorems on the search for the topology and on the rounds of a command in src/cluster.c, at a
-- database.
use libvmod_redis.Base.{
  ◌≤◌, ◌+◌, ◌<◌, ◌≡◌, ltb, refl, true, false, none, some, [], ◌∷◌, length, arith, Str,
  if◌then◌else◌,
}
use libvmod_redis.Core.Reply.{pos, negsuc, array, end}
use libvmod_redis.Core.Types.{Ptr, master, set_queue-all}
use libvmod_redis.Core.Plan.Servers.{grid}
use libvmod_redis.Cluster.Keys.{get_key_index}
use libvmod_redis.Cluster.Keys.Named.{banned, keyed_third, is_among, get_key_index_lem}
use libvmod_redis.Cluster.Topology.{Setting}
use libvmod_redis.Cluster.Discover.{Answers, unsafe_discover_slots}
use libvmod_redis.Cluster.Discover.Silent.{IsQuiet, all_others}
use libvmod_redis.Cluster.Discover.Once.{unsafe_discover_slots-once}
use libvmod_redis.Core.Registry.Invariant.{copies}
use libvmod_redis.Cluster.Hops.{Around, Hopping, max_hops, cluster_execute}
use libvmod_redis.Cluster.Hops.Final.{IsFinal, cluster_execute-IsFinal}
use libvmod_redis.Core.Execute.{going}
use libvmod_redis.Examples.Data.{db, task, db-IsRegistry, no_queues}
use libvmod_redis.Examples.Tries.{first_try, planning, sha1}

-- "eval".
abbrev eval_lower : Str
eval_lower = 101 ∷ 118 ∷ 97 ∷ 108 ∷ []

get_key_index_example : get_key_index eval_lower ≡ (
    if is_among eval_lower banned
    then negsuc 0
    else if is_among eval_lower keyed_third
    then pos 3
    else pos 1)
get_key_index_example = get_key_index_lem eval_lower (
  (λ e. ground (arith, e)),
  ((λ e. ground (arith, e)), ((λ e. ground (arith, e)), ((λ e. ground (arith, e)), tt))),
)

abbrev setting : Setting
setting = record { re_match = λ s r. false; rules = []; now = 5 }

-- The topology of no shards at the first request, and then nothing.
abbrev answers : Answers
answers n p = if ltb 0 n then none else some (array end)

unsafe_discover_slots-once_example :
    let s = unsafe_discover_slots 3 setting (λ n p. none) 9 7 db in
    IsQuiet db (7 ∷ all_others db.servers 7 grid) s × ((p : Ptr) → copies p s.asked ≤ 1)
unsafe_discover_slots-once_example =
    unsafe_discover_slots-once setting (λ n p. none) 7 db db-IsRegistry
      (record { silent = λ n p. refl; hosts = λ p. refl }) 3 9
      (set_queue-all (λ w r ps. length ps < 3) no_queues 3 master (7 ∷ 8 ∷ []) (omega arith)
        (λ w r. omega arith))

abbrev pub around : Around
around = record {
  planning = planning;
  tries = λ n. first_try;
  now = 5;
  now2 = 5;
  dial = none;
  answer = none;
  setting = setting;
  fuel = 3;
  answers = answers;
}

-- "GET" and "INFO".
abbrev pub get_word : Str
get_word = 71 ∷ 69 ∷ 84 ∷ []

abbrev pub info_word : Str
info_word = 73 ∷ 78 ∷ 70 ∷ 79 ∷ []

cluster_execute-IsFinal_example :
    IsFinal 1
      (max_hops db + 1)
      (cluster_execute sha1 length (λ n. around) db 9 task 1 (get_word ∷ info_word ∷ []) 0 true)
cluster_execute-IsFinal_example =
    cluster_execute-IsFinal sha1 length (λ n. around) db 9 task 1 (get_word ∷ info_word ∷ []) 0 true
      (omega arith)

abbrev hopping : Hopping
hopping = record {
  db = db;
  next = 9;
  task = task;
  argv = get_word ∷ info_word ∷ [];
  retries = 0;
  result = none;
  status = going;
  server = none;
  asking = false;
  rounds = 1;
}

-- "ASK 3 n:2".
abbrev ask_text : Str
ask_text = 65 ∷ 83 ∷ 75 ∷ 32 ∷ 51 ∷ 32 ∷ 110 ∷ 58 ∷ 50 ∷ []
