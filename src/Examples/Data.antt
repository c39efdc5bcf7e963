-- ===== src/Examples/Data.antt =====
-- A database with two servers, both masters of weight 3, at the addresses 7 and 8.
use libvmod_redis.Base.{◌≤◌, ◌<◌, ◌≡◌, refl, true, false, none, [], ◌∷◌, All, arith, Str, inl}
use libvmod_redis.Core.Types.{
  Ptr, master, default, host, Timeval, Context, Server, Queues, set_queue, set_queue-all, Db, Env,
  Task,
}
use libvmod_redis.Core.Plan.Candidates.{IsFiled}
use libvmod_redis.Core.Plan.Registered.{IsRegistered}
use libvmod_redis.Core.Registry.Invariant.{copies, IsRegistry, IsUnlisted}
use libvmod_redis.Vmod.Databases.{no_stats}
use libvmod_redis.Cluster.Topology.Registering.{IsOrderly}

abbrev pub no_time : Timeval
no_time = record { tv_sec = 0; tv_usec = 0 }

-- "h:1".
abbrev pub raw : Str
raw = 104 ∷ 58 ∷ 49 ∷ []

abbrev pub server : Server
server = record {
  db = 1;
  raw = raw;
  location = host (104 ∷ []) 1;
  role = master;
  weight = 3;
  ncontexts = 0;
  free_contexts = [];
  busy_contexts = [];
  slots = λ i. true;
  sickness_tst = 0;
  sickness_exp = 0;
}

abbrev pub no_queues : Queues
no_queues w r = []

abbrev pub queues : Queues
queues = set_queue no_queues 3 master (7 ∷ 8 ∷ [])

abbrev pub db : Db
db = record {
  id = 1;
  name = 100 ∷ [];
  connection_timeout = no_time;
  connection_ttl = 60;
  command_timeout = no_time;
  max_command_retries = 1;
  shared_connections = false;
  max_connections = 2;
  protocol = default;
  tls = false;
  user = none;
  password = none;
  sickness_ttl = 30;
  ignore_slaves = false;
  debug = false;
  enabled = false;
  max_hops = 0;
  servers = queues;
  mem = λ p. server;
  stats = no_stats;
}

abbrev pub env : Env
env = record { version = 1; err = λ r. false; hung_up = λ r. false }

abbrev pub context : Context
context = record { id = 50; server = 7; rcontext = 1; version = 1; tst = 4 }

abbrev pub task : Task
task = record {
  ncontexts = 1;
  contexts = context ∷ [];
  db = none;
  command = record { db = none; timeout = no_time; max_retries = 0; argv = []; reply = none };
}

pub db-IsFiled : IsFiled db
db-IsFiled =
    set_queue-all (λ w r ps. All (λ p. (server.weight ≡ w) × (server.role ≡ r)) ps) no_queues 3
      master (7 ∷ 8 ∷ []) ((refl, refl), ((refl, refl), tt)) (λ w r. tt)

pub db-IsRegistry : IsRegistry db
db-IsRegistry = record {
  filed =
      set_queue-all
        (λ w r ps. (p : Ptr) → 0 < copies p ps → (server.weight ≡ w) × (server.role ≡ r)) no_queues
        3 master (7 ∷ 8 ∷ []) (λ p h. (refl, refl)) (λ w r p h. absurd (omega arith));
  once =
      set_queue-all (λ w r ps. (p : Ptr) → copies p ps ≤ 1) no_queues 3 master (7 ∷ 8 ∷ [])
        (λ p. ground arith) (λ w r p. omega arith);
}

pub db-IsUnlisted : (q : Ptr) → 9 ≤ q → IsUnlisted q db
db-IsUnlisted q h =
    set_queue-all (λ w r ps. copies q ps ≡ 0) no_queues 3 master (7 ∷ 8 ∷ []) (ground arith)
      (λ w r. refl)

pub db-IsOrderly : IsOrderly db 9
db-IsOrderly = record { registry = db-IsRegistry; fresh = db-IsUnlisted }

pub context-IsRegistered : IsRegistered db context
unfolding set_queue
context-IsRegistered = (omega arith, inl refl)
