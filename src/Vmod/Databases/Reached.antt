-- ===== src/Vmod/Databases/Reached.antt =====
-- The registry of the databases that src/vmod_redis.c can come to have.
use mathlib.Core.Path.{subst}
use libvmod_redis.Base.{
  ℕ, List, ◌+◌, ◌≡◌, refl, Bool, true, false, ◌&&◌, not, Option, none, some, if◌then◌else◌, Str,
  arith,
}
use libvmod_redis.Core.Types.{Ptr, Role, Server, Db}
use libvmod_redis.Core.Registry.{unsafe_add_redis_server}
use libvmod_redis.Cluster.Topology.Registering.{
  kept-IsOrderly, IsOrderly, unsafe_add_redis_server-IsOrderly,
}
use libvmod_redis.Core.Execute.{going}
use libvmod_redis.Cluster.Discover.{unsafe_discover_slots}
use libvmod_redis.Cluster.Discover.Orderly.{unsafe_discover_slots-IsOrderly}
use libvmod_redis.Cluster.Hops.{Around, status_of}
use libvmod_redis.Vmod.Servers.{ServerType, type2role, Added, vmod_db_add_server}
use libvmod_redis.Vmod.Servers.Orderly.{IsOrderlyAdded, vmod_db_add_server-IsOrderly}
use libvmod_redis.Sentinel.Inventory.{KnownServer}
use libvmod_redis.Sentinel.Update.{update_db}
use libvmod_redis.Sentinel.Update.Registered.{update_db-IsOrderly}
use libvmod_redis.Vmod.Events.{release_pools}
use libvmod_redis.Vmod.Events.Emptied.{release_pools-IsKept}
use libvmod_redis.Vmod.Databases.{
  Options, new_vmod_redis_db, check_input, initial_discovery, initial_server, not_empty,
  vmod_db__init,
}

-- The databases that a VCL program can have after its construction, calls of .add_server(), updates by the
-- Sentinel thread and cold events, whatever the servers and the Sentinels answer.
pub data Reached : Added → Type 0 where
  built :
      (a : Around) (id : Ptr) (mem : Ptr → Server) (name : Str) (has_ssl : Bool) (next : Ptr)
      (o : Options) (x : Added)
      → vmod_db__init a id mem name has_ssl next o ≡ some x
      → Reached x
  added :
      (a : Around) (x : Added) (location : Option Str) (type : ServerType)
      → Reached x
      → Reached (vmod_db_add_server a x.db x.next location type)
  updated :
      (clock : ℕ → ℕ) (inventory : List KnownServer) (ticks : ℕ) (x : Added)
      → Reached x
      → Reached (record x { db = (update_db clock inventory (ticks, x.db)).1 })
  cooled : (x : Added) → Reached x → Reached (record x { db = release_pools x.db })

either-IsOrderly :
    (b : Bool) (x y : Added)
    → IsOrderlyAdded x
    → IsOrderlyAdded y
    → IsOrderlyAdded (if b then x else y)
either-IsOrderly true x y u v = u
either-IsOrderly false x y u v = v

initial_discovery-IsOrderly :
    (a : Around) (next : Ptr) (o : Option Ptr × Db)
    → IsOrderly o.1 (next + 1)
    → IsOrderlyAdded (initial_discovery a next o)
unfolding initial_discovery
initial_discovery-IsOrderly a next (none, db) v = v
initial_discovery-IsOrderly a next (some server, db) v =
    let searched = unsafe_discover_slots a.fuel a.setting a.answers (next + 1) server db in
    either-IsOrderly db.enabled
      (record { db = searched.db; next = searched.next; status = status_of searched.ending })
      (record { db = db; next = next + 1; status = going })
      (unsafe_discover_slots-IsOrderly a.setting a.answers a.fuel (next + 1) server db v) v

initial_server-IsOrderly :
    (a : Around) (next : Ptr) (role : Role) (db : Db) (location : Option Str)
    → IsOrderly db next
    → IsOrderlyAdded (initial_server a next role db location)
unfolding initial_server
initial_server-IsOrderly a next role db none v = v
initial_server-IsOrderly a next role db (some location) v =
    initial_discovery-IsOrderly a next
      (unsafe_add_redis_server a.setting.re_match a.setting.rules a.now a.now2 a.dial a.answer next
        db location role)
      (unsafe_add_redis_server-IsOrderly a.setting a.now a.now2 a.dial a.answer next db location
        role v)

-- A database without servers.
new_vmod_redis_db-IsOrderly :
    (id : Ptr) (mem : Ptr → Server) (name : Str) (o : Options) (next : Ptr)
    → IsOrderly (new_vmod_redis_db id mem name o) next
unfolding new_vmod_redis_db
new_vmod_redis_db-IsOrderly id mem name o next = record {
  registry = record { filed = λ w r p h. absurd (omega arith); once = λ w r p. omega arith };
  fresh = λ q h w r. refl;
}

abbrev IsOrderlyIfAny : Option Added → Type 0
IsOrderlyIfAny none = Unit {0}
IsOrderlyIfAny (some x) = IsOrderlyAdded x

either-IsOrderlyIfAny :
    (b : Bool) (o p : Option Added)
    → IsOrderlyIfAny o
    → IsOrderlyIfAny p
    → IsOrderlyIfAny (if b then o else p)
either-IsOrderlyIfAny true o p u v = u
either-IsOrderlyIfAny false o p u v = v

vmod_db__init-IsOrderlyIfAny :
    (a : Around) (id : Ptr) (mem : Ptr → Server) (name : Str) (has_ssl : Bool) (next : Ptr)
    (o : Options)
    → IsOrderlyIfAny (vmod_db__init a id mem name has_ssl next o)
unfolding vmod_db__init
vmod_db__init-IsOrderlyIfAny a id mem name has_ssl next o =
    let x =
      initial_server a next (type2role o.type) (new_vmod_redis_db id mem name o)
        (not_empty o.location) in
    either-IsOrderlyIfAny (check_input o) (if o.tls && not has_ssl then none else some x) none
      (either-IsOrderlyIfAny (o.tls && not has_ssl) none (some x) tt (
        initial_server-IsOrderly a next (type2role o.type) (new_vmod_redis_db id mem name o)
          (not_empty o.location) (new_vmod_redis_db-IsOrderly id mem name o next)))
      tt

-- In every database that is constructed, that servers are added to, that the Sentinel thread gives roles,
-- and that cold events empty, every server stands in the queue of its weight and its role, and in it
-- once, and new servers come at addresses of their own.
pub Reached-IsOrderly : (x : Added) → Reached x → IsOrderlyAdded x
Reached-IsOrderly x (built a id mem name has_ssl next o _ e) =
    subst IsOrderlyIfAny e (vmod_db__init-IsOrderlyIfAny a id mem name has_ssl next o)
Reached-IsOrderly x (added a y location type r) =
    vmod_db_add_server-IsOrderly a y.db y.next location type (Reached-IsOrderly y r)
Reached-IsOrderly x (updated clock inventory ticks y r) =
    update_db-IsOrderly clock inventory y.next (ticks, y.db) (Reached-IsOrderly y r)
Reached-IsOrderly x (cooled y r) =
    kept-IsOrderly y.db (release_pools y.db) y.next (release_pools-IsKept y.db)
      (Reached-IsOrderly y r)
