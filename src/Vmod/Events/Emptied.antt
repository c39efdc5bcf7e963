-- ===== src/Vmod/Events/Emptied.antt =====
-- What the cold event of src/vmod_redis.c does to the pools.
use libvmod_redis.Base.{
  ℕ, ◌<◌, ◌≡◌, refl, sym, inl, inr, Bool, true, false, List, [], ◌∷◌, map, All, ◌==◌, if◌then◌else◌,
  arith, Bool-cases,
}
use mathlib.Core.Path.{subst}
use libvmod_redis.Core.Types.{Ptr, Role, Server, Db, set_mem}
use libvmod_redis.Core.Plan.Servers.{Cell, grid}
use libvmod_redis.Core.Pool.Invariant.{mem-with_server}
use libvmod_redis.Core.Registry.Invariant.{copies}
use libvmod_redis.Cluster.Topology.Registering.{
  IsKept, IsKept-trans, IsKept-refl, with_server-IsKept,
}
use libvmod_redis.Sentinel.Loop.{Config, unsafe_sentinel_stop}
use libvmod_redis.Sentinel.Update.Applied.{IsAmong}
use libvmod_redis.Vmod.Events.{
  Vcl, empty_pool, empty_queue, empty_queues, release_pools, handle_vcl_cold_event,
}

-- A pool without connections.
pub record IsEmptied (s : Server) : Type 0 where
  pub counter : s.ncontexts ≡ 0
  pub free : s.free_contexts ≡ []
  pub busy : s.busy_contexts ≡ []

empty_pool-IsEmptied : (p : Ptr) (db : Db) → IsEmptied ((empty_pool p db).mem p)
unfolding empty_pool
empty_pool-IsEmptied p db =
    subst IsEmptied (sym (mem-with_server db p _))
      (record { counter = refl; free = refl; busy = refl })

empty_pool-stays :
    (q p : Ptr) (db : Db) → IsEmptied (db.mem p) → IsEmptied ((empty_pool q db).mem p)
unfolding empty_pool set_mem
empty_pool-stays q p db v = elim (Bool-cases (p == q)) [
  | inl e ↦ rw e (record { counter = refl; free = refl; busy = refl })
  | inr e ↦ rw e v
]

empty_queue-stays :
    (ps : List Ptr) (p : Ptr) (db : Db)
    → IsEmptied (db.mem p)
    → IsEmptied ((empty_queue ps db).mem p)
unfolding empty_queue
empty_queue-stays [] p db v = v
empty_queue-stays (q ∷ ps) p db v =
    empty_queue-stays ps p (empty_pool q db) (empty_pool-stays q p db v)

empty_queue-IsEmptied :
    (ps : List Ptr) (p : Ptr) (db : Db) → 0 < copies p ps → IsEmptied ((empty_queue ps db).mem p)
unfolding empty_queue
empty_queue-IsEmptied [] p db h = absurd (omega (arith, h))
empty_queue-IsEmptied (q ∷ ps) p db h = elim (Bool-cases (q == p)) [
  | inl e ↦
      let same : q ≡ p = ground arith in
      empty_queue-stays ps p (empty_pool q db)
        (subst (λ x. IsEmptied ((empty_pool q db).mem x)) same (empty_pool-IsEmptied q db))
  | inr e ↦ empty_queue-IsEmptied ps p (empty_pool q db) (ground (arith, h, e))
]

empty_queues-stays :
    (cs : List Cell) (p : Ptr) (db : Db)
    → IsEmptied (db.mem p)
    → IsEmptied ((empty_queues cs db).mem p)
unfolding empty_queues
empty_queues-stays [] p db v = v
empty_queues-stays ((w, r) ∷ cs) p db v =
    empty_queues-stays cs p (empty_queue (db.servers w r) db)
      (empty_queue-stays (db.servers w r) p db v)

-- The queues, weights and roles stay.
empty_queue-IsKept : (ps : List Ptr) (db : Db) → IsKept db (empty_queue ps db)
unfolding empty_queue empty_pool
empty_queue-IsKept [] db = IsKept-refl db
empty_queue-IsKept (p ∷ ps) db =
    IsKept-trans db (empty_pool p db) _ (with_server-IsKept db p _ refl refl)
      (empty_queue-IsKept ps (empty_pool p db))

empty_queues-IsKept : (cs : List Cell) (db : Db) → IsKept db (empty_queues cs db)
unfolding empty_queues
empty_queues-IsKept [] db = IsKept-refl db
empty_queues-IsKept ((w, r) ∷ cs) db =
    IsKept-trans db (empty_queue (db.servers w r) db) _ (empty_queue-IsKept (db.servers w r) db)
      (empty_queues-IsKept cs (empty_queue (db.servers w r) db))

pub release_pools-IsKept : (db : Db) → IsKept db (release_pools db)
unfolding release_pools
release_pools-IsKept db = empty_queues-IsKept grid db

empty_queues-IsEmptied :
    (cs : List Cell) (w : ℕ) (r : Role) (p : Ptr) (db : Db)
    → IsAmong w r cs
    → 0 < copies p (db.servers w r)
    → IsEmptied ((empty_queues cs db).mem p)
unfolding empty_queues
empty_queues-IsEmptied [] w r p db m h = elim m [ ]
empty_queues-IsEmptied ((v, s) ∷ cs) w r p db (inl (weights, roles)) h =
    let there : 0 < copies p (db.servers v s) =
      subst (λ y. 0 < copies p (db.servers y s)) weights
        (subst (λ y. 0 < copies p (db.servers w y)) roles h) in
    empty_queues-stays cs p (empty_queue (db.servers v s) db)
      (empty_queue-IsEmptied (db.servers v s) p db there)
empty_queues-IsEmptied ((v, s) ∷ cs) w r p db (inr m) h =
    let k = empty_queue-IsKept (db.servers v s) db in
    empty_queues-IsEmptied cs w r p (empty_queue (db.servers v s) db) m
      (subst (λ (qs : ℕ → Role → List Ptr). 0 < copies p (qs w r)) (sym k.queues) h)

-- No server in the queues has a connection in its pool.
pub record AreEmptied (db : Db) : Type 0 where
  pub at :
      (w : ℕ) (r : Role) (p : Ptr)
      → IsAmong w r grid
      → 0 < copies p (db.servers w r)
      → IsEmptied (db.mem p)

release_pools-AreEmptied : (db : Db) → AreEmptied (release_pools db)
unfolding release_pools
release_pools-AreEmptied db = record {
  at = λ w r p m h.
      let k = empty_queues-IsKept grid db in
      empty_queues-IsEmptied grid w r p db m
        (subst (λ (qs : ℕ → Role → List Ptr). 0 < copies p (qs w r)) k.queues h);
}

-- After a cold event the Sentinel thread is no longer active, if it ends as it is asked to, and no server
-- in the queues of any database has a connection in its pool, whatever the thread did before it ended.
pub handle_vcl_cold_event-AreEmptied :
    (joined : Config → Config) (v : Vcl)
    → ((c : Config) → c.active ≡ false → (joined c).active ≡ false)
    → ((handle_vcl_cold_event joined v).config.active ≡ false)
      × All AreEmptied (handle_vcl_cold_event joined v).config.dbs
unfolding handle_vcl_cold_event unsafe_sentinel_stop
handle_vcl_cold_event-AreEmptied joined v f = (
  stopped v.config.active v.config refl,
  emptied (if v.config.active then joined (unsafe_sentinel_stop v.config) else v.config).dbs,
)
  where
    stopped :
        (b : Bool) (c : Config)
        → c.active ≡ b
        → (if b then joined (record c { active = false }) else c).active ≡ false
    stopped true c e = f (record c { active = false }) refl
    stopped false c e = e

    emptied : (dbs : List Db) → All AreEmptied (map release_pools dbs)
    emptied [] = tt
    emptied (db ∷ dbs) = (release_pools-AreEmptied db, emptied dbs)
