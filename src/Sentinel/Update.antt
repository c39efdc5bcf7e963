-- ===== src/Sentinel/Update.antt =====
-- unsafe_update_dbs() of src/sentinel.c. A server that is moved leaves the queue that is walked for
-- another one, so the walk over a queue is that over its servers at the beginning.
pub mod Visited
pub mod Applied
pub mod Enabled
pub mod Registered
use libvmod_redis.Base.{
  ℕ, ◌+◌, ◌-◌, ◌^◌, Bool, Option, none, some, List, [], ◌∷◌, leb, ◌==◌, if◌then◌else◌,
}
use libvmod_redis.Core.Types.{Ptr, Role, role_eq, Location, host, socket, Server, Db}
use libvmod_redis.Core.Connect.{with_server}
use libvmod_redis.Core.Plan.Servers.{Cell, grid}
use libvmod_redis.Core.Registry.{take_out, insert}
use libvmod_redis.Sentinel.Inventory.{KnownServer, find_known}

-- UINT_MAX, with 32 bits.
abbrev pub forever : ℕ
forever = 2 ^ 32 - 1

unfoldable pub change_role : Role → Ptr → Db → Db
unfolding take_out insert
change_role role p db =
    let s = db.mem p in
    if role_eq s.role role
    then db
    else insert p (with_server (take_out s.weight s.role p db) p (record s { role = role }))

-- The end of the sickness of a server, from its flag in the inventory.
abbrev pub sickness : ℕ → ℕ → ℕ → ℕ
sickness now down exp =
    if leb exp now then if down == 0 then exp else forever else if down == 0 then now else exp

abbrev pub set_sickness : ℕ → ℕ → Ptr → Db → Db
set_sickness now down p db =
    with_server db p
      (record (db.mem p) { sickness_exp = sickness now down (db.mem p).sickness_exp })

-- The calls of time() so far, and the database.
abbrev pub Timed : Type 0
Timed = ℕ × Db

-- A server that is not at a host is not visited.
unfoldable pub matching : List KnownServer → Location → Option KnownServer
unfolding find_known
matching inventory (host a n) = find_known a n inventory
matching inventory (socket path) = none

module _ (clock : ℕ → ℕ) (inventory : List KnownServer) where
  -- unsafe_update_dbs_aux().
  abbrev pub update_found : Ptr → Option KnownServer → Timed → Timed
  update_found p none x = x
  update_found p (some k) (ticks, db) =
      (ticks + 1, set_sickness (clock ticks) k.down p (change_role k.role p db))

  unfoldable pub update_server : Ptr → Timed → Timed
  unfolding matching change_role
  update_server p x = update_found p (matching inventory (x.1.mem p).location) x

  unfoldable pub update_queue : List Ptr → Timed → Timed
  unfolding update_server
  update_queue [] x = x
  update_queue (p ∷ ps) x = update_queue ps (update_server p x)

  unfoldable pub update_queues : List Cell → Timed → Timed
  unfolding update_queue
  update_queues [] x = x
  update_queues ((w, r) ∷ cs) x = update_queues cs (update_queue (x.1.servers w r) x)

  -- One database of the loop of unsafe_update_dbs().
  unfoldable pub update_db : Timed → Timed
  unfolding update_queues
  update_db x = if x.1.enabled then x else update_queues grid x

  unfoldable pub unsafe_update_dbs : ℕ → List Db → ℕ × List Db
  unfolding update_db
  unsafe_update_dbs ticks [] = (ticks, [])
  unsafe_update_dbs ticks (db ∷ dbs) =
      let (later, updated) = update_db (ticks, db) in
      let (last, rest) = unsafe_update_dbs later dbs in (last, updated ∷ rest)
