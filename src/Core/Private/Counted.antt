-- ===== src/Core/Private/Counted.antt =====
-- lock_private_redis_context() of src/core.c on a plan that has not run dry.
use libvmod_redis.Base.{
  ℕ, zero, suc, ◌+◌, ◌-◌, ◌%◌, ◌≤◌, ◌<◌, ◌≡◌, ◌≢◌, ◌⊎◌, refl, sym, ap, ◌∙◌, false, Option, none,
  some, List, [], ◌∷◌, leb, length, length-append, get_elem?, arith, Bool-cases, Option-cases, inl,
  inr,
}
use native.Mathlib.Nat.{mod-lt}
use libvmod_redis.Core.Types.{Ptr, Context, Task, Db, Env, inc}
use libvmod_redis.Core.Valid.{with_stats}
use libvmod_redis.Core.Connect.{new_rcontext, new_redis_context}
use libvmod_redis.Core.Plan.{Plan}
use libvmod_redis.Core.Private.{
  aborted, blocked, Locking, make_room, add_private, connect_private, lock_server, lock_context,
  lock_private_redis_context,
}

pub get_elem-none : {A : Type 0} (xs : List A) (i : ℕ) → get_elem? xs i ≡ none → length xs ≤ i
get_elem-none [] i e = omega arith
get_elem-none (x ∷ xs) zero e = absurd (cc)
get_elem-none (x ∷ xs) (suc i) e = omega (arith, get_elem-none xs i e)

turn_lt : (ps : List Ptr) (n : ℕ) → ps ≢ [] → n % length ps < length ps
turn_lt [] n h = absurd (h refl)
turn_lt (p ∷ ps) n h = mod-lt n (omega arith)

-- No assertion fails and nothing waits; the counter of the task is the number of its contexts; there are no more of them
-- than the database allows, or than there were; and the turn of the servers stays within the plan.
pub record IsLocked (limit before : ℕ) (servers : List Ptr) (l : Locking) : Type 0 where
  pub alive : l.result ≢ aborted
  pub moving : l.result ≢ blocked
  pub counted : l.task.ncontexts ≡ length l.task.contexts
  pub bounded : (l.task.ncontexts ≤ limit) ⊎ (l.task.ncontexts ≤ before)
  pub same_servers : l.plan.servers ≡ servers
  pub in_turn : (servers ≡ []) ⊎ (l.plan.servers_next < length servers)

-- After room has been made.
record IsRoomy (limit before : ℕ) (t : Task) : Type 0 where
  counted : t.ncontexts ≡ length t.contexts
  roomy : (t.ncontexts < limit) ⊎ (t.ncontexts < before)

module _ (env : Env) (now : ℕ) (dial : Option ℕ) (id : ℕ) where
  add_private-IsLocked :
      (limit before : ℕ) (server : Ptr) (plan : Plan) (t : Task) (o : Option ℕ) (db : Db)
      → IsRoomy limit before t
      → (plan.servers ≡ []) ⊎ (plan.servers_next < length plan.servers)
      → IsLocked limit before plan.servers (add_private env now server id plan t (o, db))
  unfolding add_private
  add_private-IsLocked limit before server plan t none db v turn = record {
    alive = λ e. ground arith;
    moving = λ e. ground arith;
    counted = v.counted;
    bounded = ground (arith, v.roomy);
    same_servers = refl;
    in_turn = turn;
  }
  add_private-IsLocked limit before server plan t (some r) db v turn =
      let c = new_redis_context env id server r now in
      record {
        alive = λ e. ground arith;
        moving = λ e. ground arith;
        counted = omega (arith, v.counted, length-append t.contexts (c ∷ []));
        bounded = ground (arith, v.roomy);
        same_servers = refl;
        in_turn = turn;
      }

  connect_private-IsLocked :
      (server : Ptr) (plan : Plan) (t : Task) (db : Db) (failed : Locking) (cs : List Context)
      → t.contexts ≡ cs
      → 0 < db.max_connections
      → t.ncontexts ≡ length cs
      → (plan.servers ≡ []) ⊎ (plan.servers_next < length plan.servers)
      → IsLocked db.max_connections t.ncontexts plan.servers
          (connect_private env now dial server id plan (make_room db t) failed)
  unfolding connect_private make_room
  connect_private-IsLocked server plan t db failed [] e max counted turn =
      let room : leb db.max_connections t.ncontexts ≡ false = ground arith in
      let o = new_rcontext now false dial server db in
      rw room (
        add_private-IsLocked db.max_connections t.ncontexts server plan t o.0 o.1
          (record { counted = counted ∙ ap length (sym e); roomy = inl (ground arith) }) turn)
  connect_private-IsLocked server plan t db failed (c ∷ cs) e max counted turn =
      elim (Bool-cases (leb db.max_connections t.ncontexts)) [
        | inr h ↦
            let o = new_rcontext now false dial server db in
            rw h (
              add_private-IsLocked db.max_connections t.ncontexts server plan t o.0 o.1
                (record { counted = counted ∙ ap length (sym e); roomy = inl (ground arith) }) turn)
        | inl h ↦
            let rest = record t { contexts = cs; ncontexts = t.ncontexts - 1 } in
            let full =
              with_stats db
                (record (db.stats) { dropped_overflow = inc db.stats.dropped_overflow }) in
            let o = new_rcontext now false dial server full in
            rw (h, e)
              (add_private-IsLocked db.max_connections t.ncontexts server plan rest o.0 o.1
                (record { counted = omega (arith, counted); roomy = inr (omega (arith, counted)) })
                turn)
      ]

  lock_server-IsLocked :
      (plan : Plan) (t : Task) (db : Db) (o : Option Ptr)
      → o ≢ none
      → (plan.servers ≢ [])
      → 0 < db.max_connections
      → t.ncontexts ≡ length t.contexts
      → IsLocked db.max_connections t.ncontexts plan.servers
          (lock_server env now dial id plan t db o)
  unfolding lock_server
  lock_server-IsLocked plan t db none h filled max counted = absurd (h refl)
  lock_server-IsLocked plan t db (some server) h filled max counted =
      let turned = record plan { servers_next = (plan.servers_next + 1) % length plan.servers } in
      connect_private-IsLocked server turned t db
        (record { result = aborted; plan = turned; task = t; db = db }) t.contexts refl max counted
        (inr (turn_lt plan.servers (plan.servers_next + 1) filled))

  -- lock_private_redis_context() on a plan that still has a context, or that has servers and a turn
  -- among them, for a task that counts its contexts and a database that allows one: no assertion
  -- fails, nothing waits, the task still counts its contexts, it has no more of them than the database allows or
  -- than it had, and the turn stays within the servers of the plan.
  pub lock_private_redis_context-IsLocked :
      (plan : Plan) (t : Task) (db : Db)
      → (plan.contexts_next < length plan.contexts) ⊎ (plan.servers_next < length plan.servers)
      → (plan.servers ≡ []) ⊎ (plan.servers_next < length plan.servers)
      → 0 < db.max_connections
      → t.ncontexts ≡ length t.contexts
      → IsLocked db.max_connections t.ncontexts plan.servers
          (lock_private_redis_context env now dial id plan t db)
  unfolding lock_private_redis_context lock_context
  lock_private_redis_context-IsLocked plan t db left turn max counted =
      elim (Option-cases (get_elem? plan.contexts plan.contexts_next)) [
        | inr (c, h) ↦ rw h (record {
          alive = λ e. ground arith;
          moving = λ e. ground arith;
          counted = counted;
          bounded = inr (omega arith);
          same_servers = refl;
          in_turn = turn;
        })
        | inl h ↦
            let over = get_elem-none plan.contexts plan.contexts_next h in
            let here : plan.servers_next < length plan.servers = ground (arith, left, over) in
            rw h (
              lock_server-IsLocked plan t db (get_elem? plan.servers plan.servers_next)
                (λ e. absurd (omega (arith, get_elem-none plan.servers plan.servers_next e, here)))
                (λ e. absurd (omega (arith, ap length e, here))) max counted)
      ]
