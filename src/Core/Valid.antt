-- ===== src/Core/Valid.antt =====
-- is_valid_redis_context() of src/core.c: whether a connection may be used again.
use libvmod_redis.Base.{
  ℕ, ◌-◌, ◌≤◌, ◌<◌, ◌≡◌, ap, ◌↔◌, ◌⊎◌, Bool, true, false, ◌&&◌, ltb, leb, ◌==◌, not, if◌then◌else◌,
  arith,
}
use libvmod_redis.Core.Types.{Context, Stats, inc, Db, Env}

-- The database with changed counters.
abbrev pub with_stats : Db → Stats → Db
with_stats db s = record db { stats = s }

-- `db` is the database of the context's server.
pub is_valid_redis_context : Env → Db → Context → ℕ → Bool × Db
is_valid_redis_context env db c now =
    if env.err c.rcontext
    then (false, with_stats db (record s { dropped_error = inc s.dropped_error }))
    else if not (c.version == env.version)
    then (false, with_stats db (record s { dropped_version = inc s.dropped_version }))
    else if ltb 0 db.connection_ttl && ltb db.connection_ttl (now - c.tst)
    then (false, with_stats db (record s { dropped_ttl = inc s.dropped_ttl }))
    else if ltb 0 db.sickness_ttl && leb c.tst (db.mem c.server).sickness_tst
    then (false, with_stats db (record s { dropped_sick = inc s.dropped_sick }))
    else if env.hung_up c.rcontext
    then (false, with_stats db (record s { dropped_hung_up = inc s.dropped_hung_up }))
    else (true, db)
  where
    open db use {stats as s}

-- A connection that may be used: it works, it was made for the current configuration, it has not
-- outlived its time, and it was made after the last time that its server fell sick.
pub record IsUsable (env : Env) (db : Db) (c : Context) (now : ℕ) : Type 0 where
  pub sound : env.err c.rcontext ≡ false
  pub current : c.version ≡ env.version
  pub young : (db.connection_ttl ≡ 0) ⊎ (now - c.tst ≤ db.connection_ttl)
  pub healthy : (db.sickness_ttl ≡ 0) ⊎ ((db.mem c.server).sickness_tst < c.tst)
  pub connected : env.hung_up c.rcontext ≡ false

pub valid→IsUsable :
    (env : Env) (db : Db) (c : Context) (now : ℕ)
    → (is_valid_redis_context env db c now).0 ≡ true
    → IsUsable env db c now × ((is_valid_redis_context env db c now).1 ≡ db)
unfolding is_valid_redis_context
valid→IsUsable env db c now h = ground arith

pub IsUsable→valid :
    (env : Env) (db : Db) (c : Context) (now : ℕ)
    → IsUsable env db c now
    → is_valid_redis_context env db c now ≡ (true, db)
unfolding is_valid_redis_context
IsUsable→valid env db c now h = ground arith

-- is_valid_redis_context() accepts a connection and leaves the counters of the database alone exactly
-- if it works, is of the current version, is not too old, was made after its server was last sick,
-- and is not hung up.
pub is_valid_redis_context-IsUsable :
    (env : Env) (db : Db) (c : Context) (now : ℕ)
    → (is_valid_redis_context env db c now ≡ (true, db)) ↔ IsUsable env db c now
is_valid_redis_context-IsUsable env db c now =
    ((λ e. (valid→IsUsable env db c now (ap (λ r. r.0) e)).0), IsUsable→valid env db c now)

-- The check of a connection changes counters only.
pub valid-stats :
    (env : Env) (db : Db) (c : Context) (now : ℕ)
    → let db' = (is_valid_redis_context env db c now).1 in db' ≡ with_stats db db'.stats
unfolding is_valid_redis_context
valid-stats env db c now = ground arith

-- Counters do not decide whether a connection may be used.
pub IsUsable-with_stats :
    (env : Env) (db : Db) (s : Stats) (c : Context) (now : ℕ)
    → IsUsable env (with_stats db s) c now
    → IsUsable env db c now
IsUsable-with_stats env db s c now i = record {
  sound = i.sound;
  current = i.current;
  young = i.young;
  healthy = i.healthy;
  connected = i.connected;
}
