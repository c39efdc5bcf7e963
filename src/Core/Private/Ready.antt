-- ===== src/Core/Private/Ready.antt =====
-- How long a plan of src/core.c lasts for the private connections of a task.
use libvmod_redis.Base.{
  ℕ, suc, ◌+◌, ◌-◌, ◌≤◌, ◌<◌, ◌≡◌, ◌⊎◌, refl, sym, ap, ◌∙◌, false, Option, none, some, List, [],
  ◌∷◌, leb, length, get_elem?, arith, Bool-cases, Option-cases, inl, inr,
}
use libvmod_redis.Core.Types.{Ptr, Context, Task, Db, Env, inc}
use libvmod_redis.Core.Connect.{new_rcontext}
use libvmod_redis.Core.Valid.{with_stats}
use libvmod_redis.Core.Plan.{Plan}
use libvmod_redis.Core.Private.{
  Locking, drop_first, make_room, add_private, connect_private, lock_server, lock_context,
  lock_private_redis_context,
}
use libvmod_redis.Core.Private.Counted.{
  get_elem-none, IsLocked, lock_private_redis_context-IsLocked,
}

-- The options of a database that decide how it shares connections.
pub record KeepsMode (db db' : Db) : Type 0 where
  pub sharing : db'.shared_connections ≡ db.shared_connections
  pub limit : db'.max_connections ≡ db.max_connections

pub KeepsMode-refl : (a : Db) → KeepsMode a a
KeepsMode-refl a = record { sharing = refl; limit = refl }

pub KeepsMode-trans : (a b c : Db) → KeepsMode a b → KeepsMode b c → KeepsMode a c
KeepsMode-trans a b c x y = record { sharing = y.sharing ∙ x.sharing; limit = y.limit ∙ x.limit }

new_rcontext-KeepsMode :
    (now : ℕ) (dial : Option ℕ) (p : Ptr) (db : Db)
    → KeepsMode db (new_rcontext now false dial p db).1
unfolding new_rcontext
new_rcontext-KeepsMode now none p db = record { sharing = ground arith; limit = ground arith }
new_rcontext-KeepsMode now (some r) p db = record { sharing = ground arith; limit = ground arith }

module _ (env : Env) (now : ℕ) (dial : Option ℕ) (id : ℕ) where
  add_private-KeepsMode :
      (server : Ptr) (plan : Plan) (t : Task) (db : Db) (o : Option ℕ × Db)
      → KeepsMode db o.1
      → KeepsMode db (add_private env now server id plan t o).db
  unfolding add_private
  add_private-KeepsMode server plan t db (none, db') k = k
  add_private-KeepsMode server plan t db (some r, db') k = k

  connect_private-KeepsMode :
      (server : Ptr) (plan : Plan) (t : Task) (db : Db) (failed : Locking)
      → KeepsMode db failed.db
      → KeepsMode db (connect_private env now dial server id plan (make_room db t) failed).db
  unfolding connect_private make_room
  connect_private-KeepsMode server plan t db failed k =
      elim (Bool-cases (leb db.max_connections t.ncontexts)) [
        | inl h ↦ rw h (roomy t.contexts)
        | inr h ↦ rw h (
            add_private-KeepsMode server plan t db (new_rcontext now false dial server db)
              (new_rcontext-KeepsMode now dial server db))
      ]
    where
      roomy :
          (cs : List Context)
          → KeepsMode db
              (connect_private env now dial server id plan (drop_first db t cs) failed).db
      roomy [] = k
      roomy (c ∷ cs) =
          let full =
            with_stats db
              (record (db.stats) { dropped_overflow = inc db.stats.dropped_overflow }) in
          let o = new_rcontext now false dial server full in
          let e = new_rcontext-KeepsMode now dial server full in
          add_private-KeepsMode server plan
            (record t { contexts = cs; ncontexts = t.ncontexts - 1 }) db o
            (record { sharing = e.sharing; limit = e.limit })

  lock_server-KeepsMode :
      (plan : Plan) (t : Task) (db : Db) (o : Option Ptr)
      → KeepsMode db (lock_server env now dial id plan t db o).db
  unfolding lock_server
  lock_server-KeepsMode plan t db none = KeepsMode-refl db
  lock_server-KeepsMode plan t db (some server) =
      connect_private-KeepsMode server _ t db _ (KeepsMode-refl db)

  pub lock_private_redis_context-KeepsMode :
      (plan : Plan) (t : Task) (db : Db)
      → KeepsMode db (lock_private_redis_context env now dial id plan t db).db
  unfolding lock_private_redis_context lock_context
  lock_private_redis_context-KeepsMode plan t db =
      elim (Option-cases (get_elem? plan.contexts plan.contexts_next)) [
        | inl h ↦ rw h (lock_server-KeepsMode plan t db (get_elem? plan.servers plan.servers_next))
        | inr (c, h) ↦ rw h (KeepsMode-refl db)
      ]

-- A plan that serves `n` tries, and the turn of whose servers is within them.
pub record IsReady (n : ℕ) (plan : Plan) : Type 0 where
  pub lasts :
      (plan.contexts_next + n ≤ length plan.contexts) ⊎ (plan.servers_next < length plan.servers)
  pub in_turn : (plan.servers ≡ []) ⊎ (plan.servers_next < length plan.servers)

module _ (env : Env) (now : ℕ) (dial : Option ℕ) (id : ℕ) (plan : Plan) (t : Task) (db : Db) (n : ℕ)
    (ready : IsReady (suc n) plan) (max : 0 < db.max_connections)
    (counted : t.ncontexts ≡ length t.contexts) where
  pub ready-IsLocked :
      IsLocked db.max_connections t.ncontexts plan.servers
        (lock_private_redis_context env now dial id plan t db)
  ready-IsLocked =
      lock_private_redis_context-IsLocked env now dial id plan t db
        (elim ready.lasts [ inl h ↦ inl (omega arith) | inr h ↦ inr h ]) ready.in_turn max counted

  -- A context of the plan that is used up.
  context_taken :
      plan.contexts_next + suc n ≤ length plan.contexts
      → let plan' = (lock_private_redis_context env now dial id plan t db).plan in
        plan'.contexts_next + n ≤ length plan'.contexts
  unfolding lock_private_redis_context lock_context
  context_taken h = elim (Option-cases (get_elem? plan.contexts plan.contexts_next)) [
    | inl e ↦ absurd (omega (arith, get_elem-none plan.contexts plan.contexts_next e))
    | inr (c, e) ↦ rw e (omega arith)
  ]

  -- A try uses up at most one of the tries that a plan serves.
  pub lock_private_redis_context-IsReady :
      IsReady n (lock_private_redis_context env now dial id plan t db).plan
  lock_private_redis_context-IsReady =
      let l = ready-IsLocked in
      let turn =
        served (lock_private_redis_context env now dial id plan t db).plan l.same_servers
          l.in_turn in
      record {
        lasts = elim ready.lasts [
          | inl h ↦ inl (context_taken h)
          | inr h ↦ inr (elim turn [
            | inl e ↦ absurd (omega (arith, ap length (sym l.same_servers ∙ e), h))
            | inr k ↦ k
          ])
        ];
        in_turn = turn;
      }
    where
      served :
          (plan' : Plan)
          → plan'.servers ≡ plan.servers
          → (plan.servers ≡ []) ⊎ (plan'.servers_next < length plan.servers)
          → (plan'.servers ≡ []) ⊎ (plan'.servers_next < length plan'.servers)
      served p e (inl h) = inl (e ∙ h)
      served p e (inr h) = inr (omega (arith, ap length e, h))
