-- ===== src/Sentinel/Update/Enabled.antt =====
-- unsafe_update_dbs() of src/sentinel.c makes no database a cluster.
use libvmod_redis.Base.{
  ℕ, ◌≡◌, refl, ◌∙◌, inl, inr, Bool, true, false, Option, none, some, List, [], ◌∷◌, if◌then◌else◌,
  Bool-cases,
}
use libvmod_redis.Core.Types.{Ptr, Role, role_eq, Db}
use libvmod_redis.Core.Plan.Servers.{Cell, grid}
use libvmod_redis.Core.Registry.{take_out, insert}
use libvmod_redis.Sentinel.Inventory.{KnownServer}
use libvmod_redis.Sentinel.Update.{
  change_role, Timed, update_found, matching, update_server, update_queue, update_queues, update_db,
}

change_role-enabled :
    (role : Role) (p : Ptr) (db : Db) → (change_role role p db).enabled ≡ db.enabled
unfolding change_role take_out insert
change_role-enabled role p db = elim (Bool-cases (role_eq (db.mem p).role role)) [
  | inl k ↦ rw k refl
  | inr k ↦ rw k refl
]

module _ (clock : ℕ → ℕ) (inventory : List KnownServer) where
  update_found-enabled :
      (p : Ptr) (o : Option KnownServer) (x : Timed)
      → (update_found clock inventory p o x).1.enabled ≡ x.1.enabled
  update_found-enabled p none x = refl
  update_found-enabled p (some k) (ticks, db) = change_role-enabled k.role p db

  update_queue-enabled :
      (ps : List Ptr) (x : Timed) → (update_queue clock inventory ps x).1.enabled ≡ x.1.enabled
  unfolding update_queue update_server
  update_queue-enabled [] x = refl
  update_queue-enabled (p ∷ ps) x =
      update_queue-enabled ps (update_server clock inventory p x)
      ∙ update_found-enabled p (matching inventory (x.1.mem p).location) x

  update_queues-enabled :
      (cs : List Cell) (x : Timed) → (update_queues clock inventory cs x).1.enabled ≡ x.1.enabled
  unfolding update_queues
  update_queues-enabled [] x = refl
  update_queues-enabled ((w, r) ∷ cs) x =
      update_queues-enabled cs (update_queue clock inventory (x.1.servers w r) x)
      ∙ update_queue-enabled (x.1.servers w r) x

  either-enabled :
      (b c : Bool) (x y : Timed)
      → x.1.enabled ≡ c
      → y.1.enabled ≡ c
      → (if b then x else y).1.enabled ≡ c
  either-enabled true c x y u v = u
  either-enabled false c x y u v = v

  pub update_db-enabled : (x : Timed) → (update_db clock inventory x).1.enabled ≡ x.1.enabled
  unfolding update_db
  update_db-enabled x =
      either-enabled x.1.enabled x.1.enabled x (update_queues clock inventory grid x) refl
        (update_queues-enabled grid x)
