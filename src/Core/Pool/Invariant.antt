-- ===== src/Core/Pool/Invariant.antt =====
-- The operations on a shared pool of src/core.c keep its invariant.
use libvmod_redis.Base.{ℕ, ◌≡◌, ap, Bool, Option, none, some, arith}
use libvmod_redis.Core.Types.{Ptr, Context, Server, Db, Env, set_mem}
use libvmod_redis.Core.Valid.{is_valid_redis_context, valid-stats}
use libvmod_redis.Core.Connect.{with_server, new_rcontext}
use libvmod_redis.Core.Pool.Lists.{IsPool}

-- The pool of the server `p`.
abbrev pub Holds : Ptr → Db → Type 0
Holds p db =
    IsPool db.max_connections (db.mem p).ncontexts (db.mem p).free_contexts (db.mem p).busy_contexts

pub mem-with_server : (db : Db) (p : Ptr) (s : Server) → (with_server db p s).mem p ≡ s
unfolding set_mem
mem-with_server db p s = ground arith

-- A pool that is replaced.
pub Holds-with_server :
    (db : Db) (p : Ptr) (s : Server)
    → IsPool db.max_connections s.ncontexts s.free_contexts s.busy_contexts
    → Holds p (with_server db p s)
Holds-with_server db p s v = rw (mem-with_server db p s) v

-- The database keeps its limit, and the pool of `p`.
pub record Same (p : Ptr) (db db' : Db) : Type 0 where
  pub limit : db'.max_connections ≡ db.max_connections
  pub free : (db'.mem p).free_contexts ≡ (db.mem p).free_contexts
  pub busy : (db'.mem p).busy_contexts ≡ (db.mem p).busy_contexts
  pub counter : (db'.mem p).ncontexts ≡ (db.mem p).ncontexts

pub Holds-Same : (p : Ptr) (db db' : Db) → Same p db db' → Holds p db → Holds p db'
Holds-Same p db db' e v = rw (e.limit, e.free, e.busy, e.counter) v

pub valid-Same :
    (env : Env) (p : Ptr) (db : Db) (c : Context) (now : ℕ)
    → Same p db (is_valid_redis_context env db c now).1
valid-Same env p db c now = record {
  limit = ap (λ d. d.max_connections) (valid-stats env db c now);
  free = ap (λ d. (d.mem p).free_contexts) (valid-stats env db c now);
  busy = ap (λ d. (d.mem p).busy_contexts) (valid-stats env db c now);
  counter = ap (λ d. (d.mem p).ncontexts) (valid-stats env db c now);
}

pub new_rcontext-Same :
    (now : ℕ) (ephemeral : Bool) (dial : Option ℕ) (p : Ptr) (db : Db)
    → Same p db (new_rcontext now ephemeral dial p db).1
unfolding new_rcontext set_mem
new_rcontext-Same now ephemeral (some r) p db = record {
  limit = ground arith;
  free = ground arith;
  busy = ground arith;
  counter = ground arith;
}
new_rcontext-Same now ephemeral none p db = record {
  limit = ground arith;
  free = ground arith;
  busy = ground arith;
  counter = ground arith;
}
