-- ===== src/Vmod/Servers.antt =====
-- .add_server() of src/vmod_redis.c.
pub mod Orderly
use libvmod_redis.Base.{
  ℕ, ◌+◌, Bool, true, false, ◌&&◌, ◌||◌, not, Option, none, some, List, [], ◌∷◌, ◌==◌,
  if◌then◌else◌, Str,
}
use libvmod_redis.Core.Types.{Ptr, Role, master, slave, tbd, Db}
use libvmod_redis.Core.Registry.{unsafe_add_redis_server}
use libvmod_redis.Core.Execute.{Status, going, crashed}
use libvmod_redis.Cluster.Discover.{unsafe_discover_slots}
use libvmod_redis.Cluster.Hops.{Around, status_of}

-- The VCL_ENUM of a server. Varnish checks it when it compiles the VCL.
pub data ServerType : Type 0 where
  to_master to_slave auto cluster : ServerType

abbrev pub type2role : ServerType → Role
type2role to_master = master
type2role to_slave = slave
type2role auto = tbd
type2role cluster = tbd

abbrev pub is_cluster : ServerType → Bool
is_cluster cluster = true
is_cluster _ = false

-- The database, the next address, and whether the task goes on.
pub record Added : Type 0 where
  pub db : Db
  pub next : Ptr
  pub status : Status

unfoldable pub launch_discovery : Around → Ptr → Option Ptr × Db → Added
launch_discovery a next (none, db) = record { db = db; next = next + 1; status = crashed }
launch_discovery a next (some server, db) =
    let searched = unsafe_discover_slots a.fuel a.setting a.answers (next + 1) server db in
    if db.enabled && (db.stats.discoveries_total == 0)
    then record { db = searched.db; next = searched.next; status = status_of searched.ending }
    else record { db = db; next = next + 1; status = going }

unfoldable pub vmod_db_add_server : Around → Db → Ptr → Option Str → ServerType → Added
unfolding launch_discovery
vmod_db_add_server a db next none type = record { db = db; next = next; status = going }
vmod_db_add_server a db next (some []) type = record { db = db; next = next; status = going }
vmod_db_add_server a db next (some (c ∷ cs)) type =
    if not db.enabled || is_cluster type
    then launch_discovery a next (
        unsafe_add_redis_server a.setting.re_match a.setting.rules a.now a.now2 a.dial a.answer next
          db (c ∷ cs) (type2role type))
    else record { db = db; next = next; status = going }
