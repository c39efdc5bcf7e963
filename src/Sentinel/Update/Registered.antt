-- ===== src/Sentinel/Update/Registered.antt =====
-- unsafe_update_dbs() of src/sentinel.c keeps the queues of servers in order.
use mathlib.Core.Path.{subst}
use libvmod_redis.Base.{
  ℕ, ◌≤◌, ◌<◌, ◌≡◌, refl, sym, ap, ◌∙◌, Bool, true, false, Option, none, some, List, [], ◌∷◌, ◌==◌,
  if◌then◌else◌, arith, Bool-cases, inl, inr,
}
use libvmod_redis.Core.Types.{Ptr, Role, role_eq, Db}
use libvmod_redis.Core.Plan.Servers.{Cell, grid}
use libvmod_redis.Core.Registry.{take_out}
use libvmod_redis.Core.Registry.Invariant.{
  copies, IsRegistry, IsUnlisted, IsRegistry-with_server, insert-IsRegistry, take_out-IsRegistry,
  take_out-IsUnlisted,
}
use libvmod_redis.Cluster.Topology.Registering.{with_server-IsKept, IsOrderly, kept-IsOrderly}
use libvmod_redis.Sentinel.Inventory.{KnownServer}
use libvmod_redis.Sentinel.Update.{
  change_role, Timed, update_found, matching, update_server, update_queue, update_queues, update_db,
}
use libvmod_redis.Sentinel.Update.Visited.{change_role-IsLeft, update_server-IsLeft}

change_role-IsRegistry :
    (role : Role) (p : Ptr) (db : Db)
    → 0 < copies p (db.servers (db.mem p).weight (db.mem p).role)
    → IsRegistry db
    → IsRegistry (change_role role p db)
unfolding change_role
change_role-IsRegistry role p db h v =
    let s = db.mem p in
    let out = take_out s.weight s.role p db in
    let away : IsUnlisted p out = take_out-IsUnlisted s.weight s.role p db v h in
    elim (Bool-cases (role_eq s.role role)) [
      | inl k ↦ rw k v
      | inr k ↦ rw k (
          insert-IsRegistry p _ away
            (IsRegistry-with_server out p _ away (take_out-IsRegistry s.weight s.role p db v)))
    ]

-- A listed server is at none of the fresh addresses.
listed-fresh :
    (p q next : Ptr) (w : ℕ) (r : Role) (db : Db)
    → IsOrderly db next
    → 0 < copies p (db.servers w r)
    → next ≤ q
    → (q == p) ≡ false
listed-fresh p q next w r db v h k = elim (Bool-cases (q == p)) [
  | inl e ↦
      let same : q ≡ p = ground arith in
      absurd (omega (arith, v.fresh q k w r, ap (λ x. copies x (db.servers w r)) same, h))
  | inr e ↦ e
]

change_role-IsOrderly :
    (role : Role) (p next : Ptr) (w : ℕ) (r : Role) (db : Db)
    → 0 < copies p (db.servers w r)
    → IsOrderly db next
    → IsOrderly (change_role role p db) next
change_role-IsOrderly role p next w r db h v =
    let (weight, own) = v.registry.filed w r p h in
    record {
      registry =
          change_role-IsRegistry role p db
            (subst (λ x. 0 < copies p (db.servers x (db.mem p).role)) (sym weight)
              (subst (λ x. 0 < copies p (db.servers w x)) (sym own) h))
            v.registry;
      fresh = λ q k w' r'.
          (change_role-IsLeft role p q db (listed-fresh p q next w r db v h k)).queues w' r'
          ∙ v.fresh q k w' r';
    }

module _ (clock : ℕ → ℕ) (inventory : List KnownServer) (next : Ptr) where
  update_found-IsOrderly :
      (p : Ptr) (w : ℕ) (r : Role) (o : Option KnownServer) (x : Timed)
      → 0 < copies p (x.1.servers w r)
      → IsOrderly x.1 next
      → IsOrderly (update_found clock inventory p o x).1 next
  update_found-IsOrderly p w r none x h v = v
  update_found-IsOrderly p w r (some k) (ticks, db) h v =
      let moved = change_role k.role p db in
      kept-IsOrderly moved _ next (with_server-IsKept moved p _ refl refl)
        (change_role-IsOrderly k.role p next w r db h v)

  update_queue-IsOrderly :
      (ps : List Ptr) (w : ℕ) (r : Role) (x : Timed)
      → ((p : Ptr) → copies p ps ≤ 1)
      → ((p : Ptr) → 0 < copies p ps → 0 < copies p (x.1.servers w r))
      → IsOrderly x.1 next
      → IsOrderly (update_queue clock inventory ps x).1 next
  unfolding update_queue
  update_queue-IsOrderly [] w r x once there v = v
  update_queue-IsOrderly (q ∷ ps) w r x once there v =
      let visited = update_server clock inventory q x in
      let listed : 0 < copies q (x.1.servers w r) = there q (ground arith) in
      update_queue-IsOrderly ps w r visited (λ p. ground (arith, once p))
        (λ p h.
          let other : (p == q) ≡ false = ground (arith, once p, h) in
          subst (λ n. 0 < n) (sym ((update_server-IsLeft clock inventory q p x other).queues w r))
            (there p (ground (arith, h))))
        (unfold update_server in
          update_found-IsOrderly q w r (matching inventory (x.1.mem q).location) x listed v)

  update_queues-IsOrderly :
      (cs : List Cell) (x : Timed)
      → IsOrderly x.1 next
      → IsOrderly (update_queues clock inventory cs x).1 next
  unfolding update_queues
  update_queues-IsOrderly [] x v = v
  update_queues-IsOrderly ((w, r) ∷ cs) x v =
      update_queues-IsOrderly cs (update_queue clock inventory (x.1.servers w r) x)
        (update_queue-IsOrderly (x.1.servers w r) w r x (v.registry.once w r) (λ p h. h) v)

  either-IsOrderly :
      (b : Bool) (x y : Timed)
      → IsOrderly x.1 next
      → IsOrderly y.1 next
      → IsOrderly (if b then x else y).1 next
  either-IsOrderly true x y u v = u
  either-IsOrderly false x y u v = v

  -- An update keeps every server in the queue of its weight and its role, and in it once, and new
  -- servers at addresses of their own.
  pub update_db-IsOrderly :
      (x : Timed) → IsOrderly x.1 next → IsOrderly (update_db clock inventory x).1 next
  unfolding update_db
  update_db-IsOrderly x v = either-IsOrderly x.1.enabled x _ v (update_queues-IsOrderly grid x v)
