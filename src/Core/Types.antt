-- ===== src/Core/Types.antt =====
-- The structures of src/core.h. Objects that the source shares by pointer (servers, contexts) are
-- named by numbers, and `mem` of a database is the memory in which its servers lie.
use mathlib.Core.Path.{subst}
use libvmod_redis.Base.{
  sym, ◌≡◌, arith, Bool-cases, inl, inr, ℕ, ◌+◌, ◌%◌, ◌^◌, Bool, true, false, ◌&&◌, Option, List,
  Str, ◌==◌, if◌then◌else◌,
}
use libvmod_redis.Core.Reply.{Reply}

-- A pointer to a server; `server->db` is the pointer of the database.
abbrev pub Ptr : Type 0
Ptr = ℕ

-- NREDIS_SERVER_WEIGHTS.
abbrev pub nredis_server_weights : ℕ
nredis_server_weights = 4

pub data Role : Type 0 where
  slave master tbd : Role

abbrev pub role_eq : Role → Role → Bool
role_eq slave slave = true
role_eq master master = true
role_eq tbd tbd = true
role_eq _ _ = false

pub data Protocol : Type 0 where
  default resp2 resp3 : Protocol

pub data Location : Type 0 where
  host : Str → ℕ → Location
  socket : Str → Location

-- struct timeval.
pub record Timeval : Type 0 where
  pub tv_sec : ℕ
  pub tv_usec : ℕ

-- A context never changes once it is created. `rcontext` names the connection.
pub record Context : Type 0 where
  pub id : ℕ
  pub server : Ptr
  pub rcontext : ℕ
  pub version : ℕ
  pub tst : ℕ

pub record Server : Type 0 where
  pub db : Ptr
  pub raw : Str
  pub location : Location
  pub role : Role
  pub weight : ℕ
  pub ncontexts : ℕ
  pub free_contexts : List Context
  pub busy_contexts : List Context
  pub slots : ℕ → Bool
  pub sickness_tst : ℕ
  pub sickness_exp : ℕ

-- Every counter is a uint64_t.
pub record Stats : Type 0 where
  pub servers_total : ℕ
  pub servers_failed : ℕ
  pub connections_total : ℕ
  pub connections_failed : ℕ
  pub dropped_error : ℕ
  pub dropped_hung_up : ℕ
  pub dropped_overflow : ℕ
  pub dropped_ttl : ℕ
  pub dropped_version : ℕ
  pub dropped_sick : ℕ
  pub workers_blocked : ℕ
  pub commands_total : ℕ
  pub commands_failed : ℕ
  pub commands_retried : ℕ
  pub commands_error : ℕ
  pub commands_noscript : ℕ
  pub discoveries_total : ℕ
  pub discoveries_failed : ℕ
  pub replies_moved : ℕ
  pub replies_ask : ℕ

-- `counter++` on a uint64_t.
unfoldable pub inc : ℕ → ℕ
inc n = (n + 1) % 2 ^ 64

-- The queues of servers, by weight and role.
abbrev pub Queues : Type 0
Queues = ℕ → Role → List Ptr

unfoldable pub set_queue : Queues → ℕ → Role → List Ptr → Queues
set_queue qs w r q w' r' = if w' == w && role_eq r' r then q else qs w' r'

pub role_eq→eq : (a b : Role) → role_eq a b ≡ true → a ≡ b
role_eq→eq a b h = ground arith

pub role_eq_refl : (a : Role) → role_eq a a ≡ true
role_eq_refl a = ground arith

-- A property of every queue after a queue is replaced.
pub set_queue-all {ℓ} :
    (P : ℕ → Role → List Ptr → Type ℓ) (qs : Queues) (w : ℕ) (r : Role) (q : List Ptr)
    → P w r q
    → ((w' : ℕ) (r' : Role) → P w' r' (qs w' r'))
    → (w' : ℕ) (r' : Role) → P w' r' (set_queue qs w r q w' r')
unfolding set_queue
set_queue-all P qs w r q h k w' r' = elim (Bool-cases (w' == w && role_eq r' r)) [
  | inr miss ↦ rw miss (k w' r')
  | inl hit ↦
      let ew : w' ≡ w = ground arith in
      let er : r' ≡ r = role_eq→eq r' r (ground arith) in
      rw hit (subst (λ v. P v r' q) (sym ew) (subst (λ x. P w x q) (sym er) h))
]

-- struct vmod_redis_db. `tls` says whether there is an SSL context.
pub record Db : Type 0 where
  pub id : Ptr
  pub name : Str
  pub connection_timeout : Timeval
  pub connection_ttl : ℕ
  pub command_timeout : Timeval
  pub max_command_retries : ℕ
  pub shared_connections : Bool
  pub max_connections : ℕ
  pub protocol : Protocol
  pub tls : Bool
  pub user : Option Str
  pub password : Option Str
  pub sickness_ttl : ℕ
  pub ignore_slaves : Bool
  pub debug : Bool
  pub enabled : Bool
  pub max_hops : ℕ
  pub servers : Queues
  pub mem : Ptr → Server
  pub stats : Stats

unfoldable pub set_mem : (Ptr → Server) → Ptr → Server → Ptr → Server
set_mem m p s q = if q == p then s else m q

-- What a thread sees of the world when it looks at a connection: `vmod_state.version`, the error
-- flag of hiredis, and whether poll() reports that the peer has hung up (or fails).
pub record Env : Type 0 where
  pub version : ℕ
  pub err : ℕ → Bool
  pub hung_up : ℕ → Bool

-- The command under construction in a task. `argc` is the length of `argv`.
pub record Command : Type 0 where
  pub db : Option Ptr
  pub timeout : Timeval
  pub max_retries : ℕ
  pub argv : List Str
  pub reply : Option Reply

-- task_state_t.
pub record Task : Type 0 where
  pub ncontexts : ℕ
  pub contexts : List Context
  pub db : Option Ptr
  pub command : Command
