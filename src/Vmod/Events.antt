-- ===== src/Vmod/Events.antt =====
-- The events of a VCL in src/vmod_redis.c, and redis.sentinels(), with RESP3 and TLS compiled in.
pub mod Emptied
pub mod Stale
use libvmod_redis.Base.{
  ℕ, ◌+◌, ◌-◌, ◌%◌, ◌^◌, Bool, true, false, ◌&&◌, not, Option, none, some, List, [], ◌∷◌, map,
  is_some, if◌then◌else◌, Str,
}
use libvmod_redis.Core.Reply.{ℤ, pos, negsuc}
use libvmod_redis.Core.Types.{Ptr, Protocol, Db}
use libvmod_redis.Core.Connect.{with_server}
use libvmod_redis.Core.Plan.Servers.{Cell, grid}
use libvmod_redis.Vmod.Databases.{not_empty, timeval_of, is_natural}
use libvmod_redis.Sentinel.Loop.{Config, Thread, unsafe_sentinel_start, unsafe_sentinel_stop}

-- vmod_state, and the configuration of one VCL with its Sentinel thread. `refs` counts the VCLs that use
-- the locks.
pub record Vcl : Type 0 where
  pub version : ℕ
  pub refs : ℕ
  pub config : Config
  pub thread : Option Thread

unfoldable pub handle_vcl_load_event : Config → Vcl → Vcl
handle_vcl_load_event new_vcl_state v = record v {
  refs = v.refs + 1;
  config = new_vcl_state;
  thread = none;
}

abbrev pub launched : Vcl → Config × Option Thread → Vcl
launched v (config, none) = record v { config = config }
launched v (config, some t) = record v { config = config; thread = some t }

-- The version is an unsigned.
unfoldable pub handle_vcl_warm_event : Bool → Vcl → Vcl
unfolding unsafe_sentinel_start
handle_vcl_warm_event has_ssl v =
    let next = record v { version = (v.version + 1) % 2 ^ 32 } in
    if is_some v.config.locations && not v.config.active
    then launched next (unsafe_sentinel_start has_ssl v.config)
    else next

-- All contexts of the pool of a server are freed, the busy ones too.
unfoldable pub empty_pool : Ptr → Db → Db
empty_pool p db =
    with_server db p (record (db.mem p) { ncontexts = 0; free_contexts = []; busy_contexts = [] })

unfoldable pub empty_queue : List Ptr → Db → Db
unfolding empty_pool
empty_queue [] db = db
empty_queue (p ∷ ps) db = empty_queue ps (empty_pool p db)

unfoldable pub empty_queues : List Cell → Db → Db
unfolding empty_queue
empty_queues [] db = db
empty_queues ((w, r) ∷ cs) db = empty_queues cs (empty_queue (db.servers w r) db)

unfoldable pub release_pools : Db → Db
unfolding empty_queues
release_pools db = empty_queues grid db

-- `joined` is what the Sentinel thread does to the configuration before it ends.
unfoldable pub handle_vcl_cold_event : (Config → Config) → Vcl → Vcl
unfolding release_pools unsafe_sentinel_stop
handle_vcl_cold_event joined v =
    let ended = if v.config.active then joined (unsafe_sentinel_stop v.config) else v.config in
    record v {
      config = record ended { dbs = map release_pools ended.dbs };
      thread = if v.config.active then none else v.thread;
    }

unfoldable pub handle_vcl_discard_event : Vcl → Vcl
handle_vcl_discard_event v = record v { refs = v.refs - 1 }

pub data VclEvent : Type 0 where
  load : Config → VclEvent
  warm : Bool → VclEvent
  cold : (Config → Config) → VclEvent
  discard : VclEvent
  other : VclEvent

unfoldable pub vmod_event_function : VclEvent → Vcl → Vcl
unfolding handle_vcl_load_event handle_vcl_warm_event handle_vcl_cold_event handle_vcl_discard_event
vmod_event_function (load new_vcl_state) v = handle_vcl_load_event new_vcl_state v
vmod_event_function (warm has_ssl) v = handle_vcl_warm_event has_ssl v
vmod_event_function (cold joined) v = handle_vcl_cold_event joined v
vmod_event_function discard v = handle_vcl_discard_event v
vmod_event_function other v = v

-- A VCL_INT that is stored in an unsigned.
abbrev pub as_unsigned : ℤ → ℕ
as_unsigned (pos n) = n % 2 ^ 32
as_unsigned (negsuc n) = (2 ^ 32 - (n + 1) % 2 ^ 32) % 2 ^ 32

-- The arguments of redis.sentinels(), but for the files of TLS.
pub record SentinelOptions : Type 0 where
  pub locations : Option Str
  pub period : ℤ
  pub connection_timeout : ℤ
  pub command_timeout : ℤ
  pub protocol : Protocol
  pub tls : Bool
  pub password : Option Str
  pub debug : Bool

-- What is not empty, or else the value in the environment.
abbrev pub or_env : Option Str → Option Str → Option Str
or_env none environment = not_empty environment
or_env (some s) environment = some s

abbrev pub set_locations : SentinelOptions → Config → Option Str → Config
set_locations o config none = config
set_locations o config (some value) = record config {
  locations = some value;
  period = as_unsigned o.period;
  connection_timeout = timeval_of o.connection_timeout;
  command_timeout = timeval_of o.command_timeout;
  protocol = o.protocol;
  tls = o.tls;
  password = not_empty o.password;
  debug = o.debug;
}

unfoldable pub vmod_sentinels : Option Str → SentinelOptions → Config → Config
vmod_sentinels environment o config =
    if not (is_some config.locations)
      && is_natural o.connection_timeout
      && is_natural o.command_timeout
    then set_locations o config (or_env (not_empty o.locations) environment)
    else config
