-- ===== src/Examples/Pools.antt =====
-- The theorems on the connections of src/core.c, at a database.
use libvmod_redis.Base.{ℕ, ◌+◌, ◌≤◌, ◌≡◌, ◌↔◌, refl, true, some, [], length}
use libvmod_redis.Core.Valid.{is_valid_redis_context, IsUsable, is_valid_redis_context-IsUsable}
use libvmod_redis.Core.Pool.{attempt}
use libvmod_redis.Core.Pool.Lists.{count}
use libvmod_redis.Core.Pool.Choice.{Choice, attempt-Choice}
use libvmod_redis.Core.Pool.Threads.{World, after, starts, steps, tries, Reachable-exclusive}
use libvmod_redis.Examples.Data.{db, env, context}

is_valid_redis_context-IsUsable_example :
    (is_valid_redis_context env db context 5 ≡ (true, db)) ↔ IsUsable env db context 5
is_valid_redis_context-IsUsable_example = is_valid_redis_context-IsUsable env db context 5

attempt-Choice_example : Choice env 5 7 100 (some 2) db (attempt env 5 7 100 (some 2) db).0
attempt-Choice_example = attempt-Choice env 5 7 100 db (some 2)

abbrev start : World
start = record { db = db; held = [] }

abbrev one_held : World
one_held = after start (attempt env 5 7 100 (some 2) db)

Reachable-exclusive_example :
    ((i : ℕ) → count i one_held.held + count i (one_held.db.mem 7).free_contexts ≤ 1)
    × ((one_held.db.mem 7).ncontexts
        ≡ length (one_held.db.mem 7).free_contexts + length one_held.held)
    × ((one_held.db.mem 7).ncontexts ≤ one_held.db.max_connections)
Reachable-exclusive_example =
    Reachable-exclusive 7 one_held
      (steps (starts db refl refl refl) (tries start env 5 100 (some 2) refl))
