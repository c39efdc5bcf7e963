-- ===== src/Vmod/Databases.antt =====
-- The construction of a database: new_vmod_redis_db() of src/core.c and vmod_db__init() of
-- src/vmod_redis.c, with RESP3 and TLS compiled in. The address of the database, the memory before any
-- server is in it, and whether there is an SSL context, are arguments.
pub mod Reached
use libvmod_redis.Base.{
  ℕ, ◌+◌, ◌*◌, ◌/◌, ◌%◌, ◌^◌, Bool, true, false, ◌&&◌, ◌||◌, not, Option, none, some, List, [], ◌∷◌,
  is_some, if◌then◌else◌, Str,
}
use libvmod_redis.Core.Reply.{ℤ, pos, negsuc}
use libvmod_redis.Core.Types.{Ptr, Role, Timeval, Protocol, Server, Stats, Db}
use libvmod_redis.Core.Registry.{unsafe_add_redis_server}
use libvmod_redis.Core.Execute.{Status, going, crashed}
use libvmod_redis.Cluster.Discover.{unsafe_discover_slots}
use libvmod_redis.Cluster.Hops.{Around, status_of}
use libvmod_redis.Vmod.Servers.{ServerType, type2role, is_cluster, Added}

-- The arguments of redis.db(). A VCL_INT is an integer, and a VCL_STRING may be NULL.
pub record Options : Type 0 where
  pub location : Option Str
  pub type : ServerType
  pub connection_timeout : ℤ
  pub connection_ttl : ℤ
  pub command_timeout : ℤ
  pub max_command_retries : ℤ
  pub shared_connections : Bool
  pub max_connections : ℤ
  pub protocol : Protocol
  pub tls : Bool
  pub tls_files : List (Option Str)
  pub user : Option Str
  pub password : Option Str
  pub sickness_ttl : ℤ
  pub ignore_slaves : Bool
  pub debug : Bool
  pub max_cluster_hops : ℤ

abbrev pub no_stats : Stats
no_stats = record {
  servers_total = 0;
  servers_failed = 0;
  connections_total = 0;
  connections_failed = 0;
  dropped_error = 0;
  dropped_hung_up = 0;
  dropped_overflow = 0;
  dropped_ttl = 0;
  dropped_version = 0;
  dropped_sick = 0;
  workers_blocked = 0;
  commands_total = 0;
  commands_failed = 0;
  commands_retried = 0;
  commands_error = 0;
  commands_noscript = 0;
  discoveries_total = 0;
  discoveries_failed = 0;
  replies_moved = 0;
  replies_ask = 0;
}

abbrev pub not_empty : Option Str → Option Str
not_empty (some (c ∷ cs)) = some (c ∷ cs)
not_empty _ = none

-- What is not negative.
abbrev pub magnitude : ℤ → ℕ
magnitude (pos n) = n
magnitude (negsuc n) = 0

-- Milliseconds.
abbrev pub timeval_of : ℤ → Timeval
timeval_of z = record { tv_sec = magnitude z / 1000; tv_usec = (magnitude z % 1000) * 1000 }

-- Most options are stored in an unsigned.
abbrev pub unsigned_of : ℤ → ℕ
unsigned_of z = magnitude z % 2 ^ 32

unfoldable pub new_vmod_redis_db : Ptr → (Ptr → Server) → Str → Options → Db
new_vmod_redis_db id mem name o = record {
  id = id;
  name = name;
  connection_timeout = timeval_of o.connection_timeout;
  connection_ttl = unsigned_of o.connection_ttl;
  command_timeout = timeval_of o.command_timeout;
  max_command_retries = unsigned_of o.max_command_retries;
  shared_connections = o.shared_connections;
  max_connections = unsigned_of o.max_connections;
  protocol = o.protocol;
  tls = o.tls;
  user = not_empty o.user;
  password = not_empty o.password;
  sickness_ttl = unsigned_of o.sickness_ttl;
  ignore_slaves = o.ignore_slaves;
  debug = o.debug;
  enabled = is_cluster o.type;
  max_hops = unsigned_of o.max_cluster_hops;
  servers = λ w r. [];
  mem = mem;
  stats = no_stats;
}

abbrev pub is_natural : ℤ → Bool
is_natural (pos n) = true
is_natural (negsuc n) = false

abbrev pub all_given : List (Option Str) → Bool
all_given [] = true
all_given (o ∷ os) = is_some o && all_given os

unfoldable pub check_input : Options → Bool
check_input o =
    is_natural o.connection_timeout
    && is_natural o.connection_ttl
    && is_natural o.command_timeout
    && is_natural o.max_command_retries
    && is_natural o.max_connections
    && all_given o.tls_files
    && is_some o.user
    && is_some o.password
    && is_natural o.sickness_ttl
    && is_natural o.max_cluster_hops

-- The discovery, after the initial server.
unfoldable pub initial_discovery : Around → Ptr → Option Ptr × Db → Added
initial_discovery a next (none, db) = record { db = db; next = next + 1; status = crashed }
initial_discovery a next (some server, db) =
    let searched = unsafe_discover_slots a.fuel a.setting a.answers (next + 1) server db in
    if db.enabled
    then record { db = searched.db; next = searched.next; status = status_of searched.ending }
    else record { db = db; next = next + 1; status = going }

unfoldable pub initial_server : Around → Ptr → Role → Db → Option Str → Added
unfolding initial_discovery
initial_server a next role db none = record { db = db; next = next; status = going }
initial_server a next role db (some location) = initial_discovery a next (
    unsafe_add_redis_server a.setting.re_match a.setting.rules a.now a.now2 a.dial a.answer next db
      location role)

-- `none` fails the task.
unfoldable pub vmod_db__init :
    Around → Ptr → (Ptr → Server) → Str → Bool → Ptr → Options → Option Added
unfolding new_vmod_redis_db check_input initial_server
vmod_db__init a id mem name has_ssl next o =
    if check_input o
    then if o.tls && not has_ssl
      then none
      else some (
          initial_server a next (type2role o.type) (new_vmod_redis_db id mem name o)
            (not_empty o.location))
    else none
