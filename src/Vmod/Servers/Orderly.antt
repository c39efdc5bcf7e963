-- ===== src/Vmod/Servers/Orderly.antt =====
-- What .add_server() of src/vmod_redis.c leaves of the registry of servers.
use libvmod_redis.Base.{
  ◌+◌, ◌&&◌, ◌||◌, not, Option, none, some, [], ◌∷◌, ◌==◌, Str, Bool-cases, inl, inr,
}
use libvmod_redis.Core.Types.{Ptr, Db}
use libvmod_redis.Core.Registry.{unsafe_add_redis_server}
use libvmod_redis.Cluster.Topology.Registering.{IsOrderly, unsafe_add_redis_server-IsOrderly}
use libvmod_redis.Cluster.Discover.Orderly.{unsafe_discover_slots-IsOrderly}
use libvmod_redis.Cluster.Hops.{Around}
use libvmod_redis.Vmod.Servers.{
  ServerType, is_cluster, type2role, Added, launch_discovery, vmod_db_add_server,
}

abbrev pub IsOrderlyAdded : Added → Type 0
IsOrderlyAdded x = IsOrderly x.db x.next

launch_discovery-IsOrderly :
    (a : Around) (next : Ptr) (o : Option Ptr × Db)
    → IsOrderly o.1 (next + 1)
    → IsOrderlyAdded (launch_discovery a next o)
unfolding launch_discovery
launch_discovery-IsOrderly a next (none, db) v = v
launch_discovery-IsOrderly a next (some server, db) v =
    elim (Bool-cases (db.enabled && (db.stats.discoveries_total == 0))) [
      | inl k ↦
          rw k (unsafe_discover_slots-IsOrderly a.setting a.answers a.fuel (next + 1) server db v)
      | inr k ↦ rw k v
    ]

-- .add_server() keeps every server in the queue of its weight and its role, and in it once, and new
-- servers at addresses of their own, whether or not it goes on to ask the servers of a cluster, and
-- whatever they answer.
pub vmod_db_add_server-IsOrderly :
    (a : Around) (db : Db) (next : Ptr) (location : Option Str) (type : ServerType)
    → IsOrderly db next
    → IsOrderlyAdded (vmod_db_add_server a db next location type)
unfolding vmod_db_add_server
vmod_db_add_server-IsOrderly a db next none type v = v
vmod_db_add_server-IsOrderly a db next (some []) type v = v
vmod_db_add_server-IsOrderly a db next (some (c ∷ cs)) type v =
    elim (Bool-cases (not db.enabled || is_cluster type)) [
      | inl k ↦ rw k (
          launch_discovery-IsOrderly a next
            (unsafe_add_redis_server a.setting.re_match a.setting.rules a.now a.now2 a.dial a.answer
              next db (c ∷ cs) (type2role type))
            (unsafe_add_redis_server-IsOrderly a.setting a.now a.now2 a.dial a.answer next db
              (c ∷ cs) (type2role type) v))
      | inr k ↦ rw k v
    ]
