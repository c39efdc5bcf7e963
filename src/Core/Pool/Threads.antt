-- ===== src/Core/Pool/Threads.antt =====
-- The threads that share a pool of src/core.c. A step is what one of them does while it holds the
-- lock of the database, so that a run is any interleaving of their calls.
use libvmod_redis.Base.{ℕ, ◌+◌, ◌≤◌, ◌≡◌, refl, ap, ◌∙◌, Option, List, [], ◌∷◌, ◌++◌, length, arith}
use libvmod_redis.Core.Types.{Ptr, Context, Server, Db, Env}
use libvmod_redis.Core.Plan.Contexts.{remove_context}
use libvmod_redis.Core.Pool.{
  Attempt, got, failed, waits, attempt, woken, unlock_shared_redis_context,
}
use libvmod_redis.Core.Pool.Lists.{
  count, count-append, count-remove_context, length-remove_context, release-IsPool,
}
use libvmod_redis.Core.Pool.Invariant.{Holds, Same, Holds-Same, Holds-with_server, mem-with_server}
use libvmod_redis.Core.Pool.Trying.{Tried, gets, fails, blocks, attempt-Tried}

-- The database, and the contexts that the threads hold.
pub record World : Type 0 where
  pub db : Db
  pub held : List Context

-- What comes out of an attempt goes to the thread that made it.
abbrev pub after : World → Attempt × Db → World
after w (got c, db') = record { db = db'; held = w.held ++ (c ∷ []) }
after w (failed, db') = record w { db = db' }
after w (waits, db') = record w { db = db' }

-- The steps on the pool of the server `p`. A new context is at an address that no context in use
-- has; `elsewhere` is work on the database that leaves this pool alone.
pub data Step (p : Ptr) : World → World → Type 0 where
  tries :
      (w : World) (env : Env) (now id : ℕ) (dial : Option ℕ)
      → count id (w.db.mem p).busy_contexts ≡ 0
      → Step p w (after w (attempt env now p id dial w.db))
  wakes : (w : World) → Step p w (record w { db = woken w.db })
  releases :
      (w : World) (hs ts : List Context) (c : Context)
      → w.held ≡ hs ++ c ∷ ts
      → Step p w (record { db = unlock_shared_redis_context p c w.db; held = hs ++ ts })
  elsewhere : (w : World) (db' : Db) → Same p w.db db' → Step p w (record w { db = db' })

-- From an empty pool.
pub data Reachable (p : Ptr) : World → Type 0 where
  starts :
      (db : Db)
      → (db.mem p).ncontexts ≡ 0
      → (db.mem p).free_contexts ≡ []
      → (db.mem p).busy_contexts ≡ []
      → Reachable p (record { db = db; held = [] })
  steps : {w w' : World} → Reachable p w → Step p w w' → Reachable p w'

-- The busy contexts are those that the threads hold.
pub record IsFair (p : Ptr) (w : World) : Type 0 where
  pub holds : Holds p w.db
  pub agrees : (i : ℕ) → count i (w.db.mem p).busy_contexts ≡ count i w.held

after-IsFair :
    (p : Ptr) (w : World)
    → IsFair p w
    → (a : Attempt) (db' : Db) → Tried p w.db a db'
    → IsFair p (after w (a, db'))
after-IsFair p w v _ _ (gets c db' t) = record {
  holds = t.holds;
  agrees = λ i. omega (arith, t.busy i, v.agrees i, count-append i w.held (c ∷ []));
}
after-IsFair p w v _ _ (fails db' t) = record {
  holds = t.holds;
  agrees = λ i. omega (arith, t.busy i, v.agrees i);
}
after-IsFair p w v _ _ (blocks db' t _ _) = record {
  holds = t.holds;
  agrees = λ i. omega (arith, t.busy i, v.agrees i);
}

releases-IsFair :
    (p : Ptr) (w : World) (hs ts : List Context) (c : Context)
    → w.held ≡ hs ++ c ∷ ts
    → IsFair p w
    → IsFair p (record { db = unlock_shared_redis_context p c w.db; held = hs ++ ts })
unfolding unlock_shared_redis_context
releases-IsFair p w hs ts c e v =
    let s = w.db.mem p in
    let released : Server = record s {
      busy_contexts = remove_context c.id s.busy_contexts;
      free_contexts = s.free_contexts ++ (c ∷ []);
    } in
    let split : (i : ℕ) → count i s.busy_contexts ≡ count i hs + count i (c ∷ ts) =
      λ i. v.agrees i ∙ ap (count i) e ∙ count-append i hs (c ∷ ts) in
    record {
      holds = Holds-with_server w.db p released (
          release-IsPool w.db.max_connections s.ncontexts c s.free_contexts s.busy_contexts
            (ground (arith, split c.id)) v.holds);
      agrees = λ i.
          ap (λ x. count i x.busy_contexts) (mem-with_server w.db p released)
          ∙ ground
              (arith, split i, count-append i hs ts, count-remove_context i c.id s.busy_contexts);
    }

Step-IsFair : (p : Ptr) (w w' : World) → Step p w w' → IsFair p w → IsFair p w'
unfolding woken
Step-IsFair p _ _ (tries w env now id dial fresh) v =
    let o = attempt env now p id dial w.db in
    after-IsFair p w v o.0 o.1 (attempt-Tried env now p id w.db v.holds dial fresh)
Step-IsFair p _ _ (wakes w) v = record { holds = v.holds; agrees = v.agrees }
Step-IsFair p _ _ (releases w hs ts c e) v = releases-IsFair p w hs ts c e v
Step-IsFair p _ _ (elsewhere w db' same) v = record {
  holds = Holds-Same p w.db db' same v.holds;
  agrees = λ i. ap (count i) same.busy ∙ v.agrees i;
}

pub Reachable-IsFair : (p : Ptr) (w : World) → Reachable p w → IsFair p w
Reachable-IsFair p _ (starts db n f b) = record {
  holds = rw (n, f, b) (record { counted = refl; capped = omega arith; once = λ i. omega arith });
  agrees = λ i. ap (count i) b;
}
Reachable-IsFair p _ (steps {w} {w'} r s) = Step-IsFair p w w' s (Reachable-IsFair p w r)

-- Lists that hold the same contexts equally often are equally long.
length-count : (cs ds : List Context) → ((i : ℕ) → count i cs ≡ count i ds) → length cs ≡ length ds
length-count [] [] h = refl
length-count [] (d ∷ ds) h = absurd (ground (arith, h d.id))
length-count (c ∷ cs) ds h =
    let rest =
      length-count cs (remove_context c.id ds)
        (λ i. ground (arith, h i, count-remove_context i c.id ds)) in
    omega (arith, rest, length-remove_context c.id ds (ground (arith, h c.id)))

-- Whatever the threads do, in any order, starting from an empty pool: no context is held twice, one
-- that is held is not free, and there are never more than `max_connections` contexts, free and held
-- ones together, which is what the counter of the server says.
pub Reachable-exclusive :
    (p : Ptr) (w : World)
    → Reachable p w
    → ((i : ℕ) → count i w.held + count i (w.db.mem p).free_contexts ≤ 1)
      × ((w.db.mem p).ncontexts ≡ length (w.db.mem p).free_contexts + length w.held)
      × ((w.db.mem p).ncontexts ≤ w.db.max_connections)
Reachable-exclusive p w r =
    let v = Reachable-IsFair p w r in
    (
      λ i. omega (arith, v.holds.once i, v.agrees i),
      omega (arith, v.holds.counted, length-count (w.db.mem p).busy_contexts w.held v.agrees),
      v.holds.capped,
    )
