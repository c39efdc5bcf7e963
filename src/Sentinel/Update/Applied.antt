-- ===== src/Sentinel/Update/Applied.antt =====
-- What unsafe_update_dbs() of src/sentinel.c does to each server of a database.
use mathlib.Core.Path.{subst}
use libvmod_redis.Base.{
  ℕ, ◌<◌, ◌≡◌, refl, sym, ◌⊎◌, inl, inr, Bool, true, false, List, [], ◌∷◌, ◌==◌, if◌then◌else◌,
  arith, Bool-cases,
}
use libvmod_redis.Core.Types.{Ptr, Role, Db}
use libvmod_redis.Core.Plan.Servers.{Cell, grid}
use libvmod_redis.Core.Registry.Invariant.{copies}
use libvmod_redis.Sentinel.Inventory.{KnownServer}
use libvmod_redis.Sentinel.Update.Visited.{
  IsSynced, IsLeft, IsLeft-refl, IsLeft-trans, update_server-IsLeft, update_server-IsSynced,
}
use libvmod_redis.Sentinel.Update.{Timed, update_server, update_queue, update_queues, update_db}

-- A queue among those of a list.
abbrev pub IsAmong : ℕ → Role → List Cell → Type 0
IsAmong w r [] = ⊥
IsAmong w r ((v, s) ∷ cs) = ((w ≡ v) × (r ≡ s)) ⊎ IsAmong w r cs

module _ (clock : ℕ → ℕ) (inventory : List KnownServer) where
  -- Nothing happens to a server, or it is synced.
  pub data Done (p : Ptr) (db db' : Db) : Type 0 where
    synced : IsSynced inventory (db'.mem p) → Done p db db'
    left : IsLeft p db db' → Done p db db'

  IsLeft-IsSynced :
      (p : Ptr) (db db' : Db)
      → IsLeft p db db'
      → IsSynced inventory (db.mem p)
      → IsSynced inventory (db'.mem p)
  IsLeft-IsSynced p db db' l s = subst (IsSynced inventory) (sym l.server) s

  Done-trans : (p : Ptr) (a b c : Db) → Done p a b → Done p b c → Done p a c
  Done-trans p a b c x (synced s) = synced s
  Done-trans p a b c (synced s) (left l) = synced (IsLeft-IsSynced p b c l s)
  Done-trans p a b c (left k) (left l) = left (IsLeft-trans p a b c k l)

  Done-IsSynced :
      (p : Ptr) (db db' : Db)
      → Done p db db'
      → IsSynced inventory (db.mem p)
      → IsSynced inventory (db'.mem p)
  Done-IsSynced p db db' (synced s) v = s
  Done-IsSynced p db db' (left l) v = IsLeft-IsSynced p db db' l v

  update_server-Done : (q p : Ptr) (x : Timed) → Done p x.1 (update_server clock inventory q x).1
  update_server-Done q p x = elim (Bool-cases (p == q)) [
    | inl e ↦
        let same : q ≡ p = ground arith in
        synced (
          subst (λ y. IsSynced inventory ((update_server clock inventory q x).1.mem y)) same
            (update_server-IsSynced clock inventory q x))
    | inr e ↦ left (update_server-IsLeft clock inventory q p x e)
  ]

  update_queue-Done :
      (ps : List Ptr) (p : Ptr) (x : Timed) → Done p x.1 (update_queue clock inventory ps x).1
  unfolding update_queue
  update_queue-Done [] p x = left (IsLeft-refl p x.1)
  update_queue-Done (q ∷ ps) p x =
      let next = update_server clock inventory q x in
      Done-trans p x.1 next.1 _ (update_server-Done q p x) (update_queue-Done ps p next)

  update_queues-Done :
      (cs : List Cell) (p : Ptr) (x : Timed) → Done p x.1 (update_queues clock inventory cs x).1
  unfolding update_queues
  update_queues-Done [] p x = left (IsLeft-refl p x.1)
  update_queues-Done ((w, r) ∷ cs) p x =
      let next = update_queue clock inventory (x.1.servers w r) x in
      Done-trans p x.1 next.1 _ (update_queue-Done (x.1.servers w r) p x)
        (update_queues-Done cs p next)

  -- A server of the queue that is walked.
  update_queue-IsSynced :
      (ps : List Ptr) (p : Ptr) (x : Timed)
      → 0 < copies p ps
      → IsSynced inventory ((update_queue clock inventory ps x).1.mem p)
  unfolding update_queue
  update_queue-IsSynced [] p x h = absurd (omega (arith, h))
  update_queue-IsSynced (q ∷ ps) p x h =
      let next = update_server clock inventory q x in
      elim (Bool-cases (q == p)) [
        | inl e ↦
            let same : q ≡ p = ground arith in
            Done-IsSynced p next.1 _ (update_queue-Done ps p next) (
              subst (λ y. IsSynced inventory (next.1.mem y)) same
                (update_server-IsSynced clock inventory q x))
        | inr e ↦ update_queue-IsSynced ps p next (ground (arith, h, e))
      ]

  update_queues-IsSynced :
      (cs : List Cell) (w : ℕ) (r : Role) (p : Ptr) (x : Timed)
      → IsAmong w r cs
      → 0 < copies p (x.1.servers w r)
      → IsSynced inventory ((update_queues clock inventory cs x).1.mem p)
  unfolding update_queues
  update_queues-IsSynced [] w r p x m h = elim m [ ]
  update_queues-IsSynced ((v, s) ∷ cs) w r p x (inl (weights, roles)) h =
      let next = update_queue clock inventory (x.1.servers v s) x in
      let there : 0 < copies p (x.1.servers v s) =
        subst (λ y. 0 < copies p (x.1.servers y s)) weights
          (subst (λ y. 0 < copies p (x.1.servers w y)) roles h) in
      Done-IsSynced p next.1 _ (update_queues-Done cs p next)
        (update_queue-IsSynced (x.1.servers v s) p x there)
  update_queues-IsSynced ((v, s) ∷ cs) w r p x (inr m) h =
      let next = update_queue clock inventory (x.1.servers v s) x in
      elim (update_queue-Done (x.1.servers v s) p x) [
        | synced k ↦ Done-IsSynced p next.1 _ (update_queues-Done cs p next) k
        | left l ↦
            update_queues-IsSynced cs w r p next m (subst (λ n. 0 < n) (sym (l.queues w r)) h)
      ]

-- Every server that stands in one of the queues has the role that the inventory has for it.
pub record AreSynced (inventory : List KnownServer) (db : Db) : Type 0 where
  pub at :
      (w : ℕ) (r : Role) (p : Ptr)
      → IsAmong w r grid
      → 0 < copies p (db.servers w r)
      → IsSynced inventory (db.mem p)

either_timed : (b : Bool) (x y : Timed) → b ≡ false → (if b then x else y) ≡ y
either_timed true x y e = absurd (ground (arith, e))
either_timed false x y e = refl

-- After an update of a database that is no cluster, every server in its queues has the role that the
-- inventory has for its host and its port, if the inventory knows it.
pub update_db-AreSynced :
    (clock : ℕ → ℕ) (inventory : List KnownServer) (x : Timed)
    → x.1.enabled ≡ false
    → AreSynced inventory (update_db clock inventory x).1
unfolding update_db
update_db-AreSynced clock inventory x e =
    let walked = update_queues clock inventory grid x in
    subst (λ (y : Timed). AreSynced inventory y.1) (sym (either_timed x.1.enabled x walked e))
      (record {
        at = λ w r p m h. elim (update_queues-Done clock inventory grid p x) [
          | synced k ↦ k
          | left l ↦
              update_queues-IsSynced clock inventory grid w r p x m
                (subst (λ n. 0 < n) (l.queues w r) h)
        ];
      })
