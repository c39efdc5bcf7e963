-- ===== src/Core/Connect.antt =====
-- new_rcontext() of src/core.c, as far as the database is concerned: its counters and the sickness
-- of the server. What hiredis answers (the connection, TLS, AUTH and HELLO) is an argument, the
-- connection or `none`.
use libvmod_redis.Base.{ℕ, ◌+◌, Bool, Option, none, some, ltb, if◌then◌else◌}
use libvmod_redis.Core.Types.{Ptr, Server, Db, Context, Env, inc, set_mem}
use libvmod_redis.Core.Valid.{with_stats}

-- The database after a change of the server `p`.
abbrev pub with_server : Db → Ptr → Server → Db
with_server db p s = record db { mem = set_mem db.mem p s }

unfoldable pub connected : ℕ → Bool → Ptr → Db → Db
connected now ephemeral p db =
    let healed =
      if ltb now (db.mem p).sickness_exp
      then with_server db p (record (db.mem p) { sickness_exp = now })
      else db in
    if ephemeral
    then healed
    else with_stats healed
        (record (healed.stats) { connections_total = inc healed.stats.connections_total })

unfoldable pub refused : ℕ → Bool → Ptr → Db → Db
refused now ephemeral p db =
    let sick =
      if ltb 0 db.sickness_ttl
      then with_server db p
          (record (db.mem p) { sickness_tst = now; sickness_exp = now + db.sickness_ttl })
      else db in
    if ephemeral
    then sick
    else with_stats sick
        (record (sick.stats) { connections_failed = inc sick.stats.connections_failed })

unfoldable pub new_rcontext : ℕ → Bool → Option ℕ → Ptr → Db → Option ℕ × Db
unfolding connected refused
new_rcontext now ephemeral (some r) p db = (some r, connected now ephemeral p db)
new_rcontext now ephemeral none p db = (none, refused now ephemeral p db)

-- new_redis_context(). `id` is the address that malloc() returns.
unfoldable pub new_redis_context : Env → ℕ → Ptr → ℕ → ℕ → Context
new_redis_context env id server rcontext tst = record {
  id = id;
  server = server;
  rcontext = rcontext;
  version = env.version;
  tst = tst;
}
