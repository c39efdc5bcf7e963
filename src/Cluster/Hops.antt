-- ===== src/Cluster/Hops.antt =====
-- cluster_execute() of src/cluster.c: the rounds of a command over the redirections of a cluster. The
-- search for the topology has fuel, which is an argument, as are sha1() and crc16().
pub mod Final
pub mod Asked
use libvmod_redis.Base.{
  ℕ, zero, suc, ◌+◌, ◌-◌, ◌^◌, Bool, true, false, ◌&&◌, ◌||◌, Option, none, some, List, [], ◌∷◌,
  ltb, leb, ◌==◌, if◌then◌else◌, get_elem?, Str,
}
use libvmod_redis.Core.Reply.{ℤ, pos, negsuc, Reply, error}
use libvmod_redis.Core.Types.{Ptr, tbd, Task, Db, inc}
use libvmod_redis.Core.Valid.{with_stats}
use libvmod_redis.Core.Registry.{unsafe_add_redis_server}
use libvmod_redis.Core.Script.{Try, has_prefix}
use libvmod_redis.Core.Execute.{
  Status, going, done, out_of_room, crashed, waiting, is_going, Loop, Planning, redis_execute,
}
use libvmod_redis.Cluster.Slot.{get_cluster_slot}
use libvmod_redis.Cluster.Keys.{get_key_index}
use libvmod_redis.Cluster.Topology.{Setting}
use libvmod_redis.Cluster.Discover.{
  Answers, Ending, missed, found, aborted, endless, unsafe_discover_slots,
}

-- "MOVED" and "ASK".
abbrev pub moved_word : Str
moved_word = 77 ∷ 79 ∷ 86 ∷ 69 ∷ 68 ∷ []

abbrev pub ask_word : Str
ask_word = 65 ∷ 83 ∷ 75 ∷ []

abbrev pub is_redirection : Str → Bool
is_redirection text = has_prefix moved_word text || has_prefix ask_word text

-- What stands after the first `c`: strchr() and one byte more.
unfoldable pub rest_after : ℕ → Str → Option Str
rest_after c [] = none
rest_after c (d ∷ ds) = let rest = rest_after c ds in if d == c then some ds else rest

abbrev pub rest_after_next : ℕ → Option Str → Option Str
rest_after_next c none = none
rest_after_next c (some text) = rest_after c text

-- The third word of a redirection.
unfoldable pub redirect_location : Str → Option Str
unfolding rest_after
redirect_location text = rest_after_next 32 (rest_after 32 text)

-- What the outside decides in a round: the plan and the tries of the command, what is said and seen
-- when the server of a redirection is registered, and the search for the topology.
pub record Around : Type 0 where
  pub planning : Planning
  pub tries : ℕ → Try
  pub now : ℕ
  pub now2 : ℕ
  pub dial : Option ℕ
  pub answer : Option Reply
  pub setting : Setting
  pub fuel : ℕ
  pub answers : Answers

-- The variables of the rounds, which are counted. A new server is at the next address of `next`.
pub record Hopping : Type 0 where
  pub db : Db
  pub next : Ptr
  pub task : Task
  pub argv : List Str
  pub retries : ℕ
  pub result : Option Reply
  pub status : Status
  pub server : Option Ptr
  pub asking : Bool
  pub rounds : ℕ

-- A search that does not end keeps the worker, and the locks: the command has not returned.
abbrev pub status_of : Ending → Status
status_of missed = going
status_of found = going
status_of aborted = crashed
status_of endless = waiting

unfoldable pub follow : Around → Str → Hopping → Option Ptr × Db → Hopping
follow a text h (none, db) = record h { db = db; result = none; status = crashed }
follow a text h (some server, db) =
    let searched =
      unsafe_discover_slots a.fuel a.setting a.answers (h.next + 1) server
        (with_stats db (record (db.stats) { replies_moved = inc db.stats.replies_moved })) in
    if has_prefix moved_word text
    then record h {
      db = searched.db;
      next = searched.next;
      server = some server;
      result = none;
      status = status_of searched.ending;
    }
    else record h {
      db = with_stats db (record (db.stats) { replies_ask = inc db.stats.replies_ask });
      next = h.next + 1;
      server = some server;
      asking = true;
      result = none;
      status = going;
    }

unfoldable pub located : Around → Str → Hopping → Option Str → Hopping
unfolding follow
located a text h none = record h { result = none; status = crashed }
located a text h (some location) = follow a text h (
    unsafe_add_redis_server a.setting.re_match a.setting.rules a.now a.now2 a.dial a.answer h.next
      h.db location tbd)

unfoldable pub redirect : Around → Str → Hopping → Hopping
unfolding located
redirect a text h = located a text h (redirect_location text)

-- The reply of a round.
unfoldable pub check_reply : Around → Hopping → Option Reply → Hopping
unfolding redirect
check_reply a h (some (error text)) = if is_redirection text then redirect a text h else h
check_reply a h _ = h

abbrev pub is_done : Status → Bool
is_done done = true
is_done _ = false

abbrev pub uint_max : ℕ
uint_max = 2 ^ 32 - 1

unfoldable pub max_hops : Db → ℕ
max_hops db = if ltb 0 db.max_hops then db.max_hops else uint_max

-- The end of the rounds. A redirection that is not followed leaves no reply.
abbrev pub settle : Hopping → Hopping
settle h = if is_going h.status then record h { status = done } else h

-- The key that decides the slot.
abbrev pub at_index : ℤ → List Str → Option Str
at_index (pos zero) argv = none
at_index (pos (suc n)) argv = get_elem? argv (suc n)
at_index (negsuc n) argv = none

unfoldable pub key_of : List Str → Option Str
key_of [] = none
key_of (command ∷ args) = at_index (get_key_index command) (command ∷ args)

module _ (sha1 : Str → Str) where
  unfoldable pub one_hop : Around → ℕ → Bool → ℕ → Hopping → Hopping
  unfolding check_reply
  one_hop a max_retries m slot h =
      let l =
        redis_execute sha1 a.planning a.tries h.db h.task max_retries h.argv h.retries h.server
          h.asking m slot in
      let h' = record h {
        db = l.db;
        task = l.task;
        argv = l.argv;
        retries = l.retries;
        result = l.result;
        status = l.status;
        server = none;
        asking = false;
        rounds = h.rounds + 1;
      } in
      if is_done l.status then check_reply a h' l.result else record h' { result = none }

  -- The rounds, with `hops` redirections to follow; `around n` is the n-th round.
  unfoldable pub hop_on : ℕ → (ℕ → Around) → ℕ → Bool → ℕ → Hopping → Hopping
  unfolding one_hop
  hop_on zero around max_retries m slot h = settle (one_hop (around h.rounds) max_retries m slot h)
  hop_on (suc hops) around max_retries m slot h =
      let h' = one_hop (around h.rounds) max_retries m slot h in
      elim (is_going h'.status && leb h'.retries max_retries) [
        | true ↦ hop_on hops around max_retries m slot h'
        | false ↦ settle h'
      ]

  unfoldable pub execute_at : (Str → ℕ) → (ℕ → Around) → ℕ → Bool → Option Str → Hopping → Hopping
  unfolding hop_on
  execute_at crc16 around max_retries m none h = record h { status = done }
  execute_at crc16 around max_retries m (some key) h =
      hop_on (max_hops h.db) around max_retries m (get_cluster_slot crc16 key) h

  unfoldable pub cluster_execute :
      (Str → ℕ) → (ℕ → Around) → Db → Ptr → Task → ℕ → List Str → ℕ → Bool → Hopping
  unfolding execute_at
  cluster_execute crc16 around db next t max_retries argv retries m =
      execute_at crc16 around max_retries m (key_of argv) (record {
        db = db;
        next = next;
        task = t;
        argv = argv;
        retries = retries;
        result = none;
        status = going;
        server = none;
        asking = false;
        rounds = 0;
      })
