-- ===== src/Sentinel/Loop/Used.antt =====
-- Databases that other threads use while the thread of src/sentinel.c runs.
use mathlib.Core.Path.{subst}
use libvmod_redis.Base.{ℕ, ◌<◌, ◌≡◌, sym, ap, ◌∙◌, ◌⊎◌, inl, inr, true, List, [], ◌∷◌, arith}
use libvmod_redis.Core.Types.{Ptr, Role, Server, Db}
use libvmod_redis.Core.Registry.Invariant.{copies}
use libvmod_redis.Sentinel.Inventory.{KnownServer}
use libvmod_redis.Sentinel.Update.{matching}
use libvmod_redis.Sentinel.Update.Visited.{role_in, IsSynced}
use libvmod_redis.Sentinel.Loop.Noticed.{IsCurrentDb, AreCurrent}

-- What executions of commands may do to a database that is no cluster: they turn its queues, and change
-- the connections and the sickness of its servers, but no role, no location, and no queue of a server.
pub record IsUsed (db db' : Db) : Type 0 where
  pub enabled : db'.enabled ≡ db.enabled
  pub roles : (p : Ptr) → (db'.mem p).role ≡ (db.mem p).role
  pub locations : (p : Ptr) → (db'.mem p).location ≡ (db.mem p).location
  pub queues : (w : ℕ) (r : Role) (p : Ptr) → copies p (db'.servers w r) ≡ copies p (db.servers w r)

-- Clusters may change in any way, but stay clusters.
abbrev pub AreUsed : List Db → List Db → Type 0
AreUsed [] [] = Unit
AreUsed [] (db' ∷ dbs') = ⊥
AreUsed (db ∷ dbs) [] = ⊥
AreUsed (db ∷ dbs) (db' ∷ dbs') =
    (((db.enabled ≡ true) × (db'.enabled ≡ true)) ⊎ IsUsed db db') × AreUsed dbs dbs'

IsUsed-IsSynced :
    (inventory : List KnownServer) (s s' : Server)
    → s'.role ≡ s.role
    → s'.location ≡ s.location
    → IsSynced inventory s
    → IsSynced inventory s'
IsUsed-IsSynced inventory s s' roles locations v =
    roles
    ∙ v
    ∙ ap (λ r. role_in (matching inventory s.location) r) (sym roles)
    ∙ ap (λ l. role_in (matching inventory l) s'.role) (sym locations)

IsUsed-IsCurrentDb :
    (inventory : List KnownServer) (db db' : Db)
    → IsUsed db db'
    → IsCurrentDb inventory db
    → IsCurrentDb inventory db'
IsUsed-IsCurrentDb inventory db db' u v e = record {
  at = λ w r p m h.
      IsUsed-IsSynced inventory (db.mem p) (db'.mem p) (u.roles p) (u.locations p)
        ((v (sym u.enabled ∙ e)).at w r p m (subst (λ n. 0 < n) (u.queues w r p) h));
}

pub AreUsed-AreCurrent :
    (inventory : List KnownServer) (dbs dbs' : List Db)
    → AreUsed dbs dbs'
    → AreCurrent inventory dbs
    → AreCurrent inventory dbs'
AreUsed-AreCurrent inventory [] [] u v = tt
AreUsed-AreCurrent inventory [] (db' ∷ dbs') u v = elim u [ ]
AreUsed-AreCurrent inventory (db ∷ dbs) [] u v = elim u [ ]
AreUsed-AreCurrent inventory (db ∷ dbs) (db' ∷ dbs') (inl (e, e'), us) (v, vs) =
    (λ h. absurd (ground (arith, e', h)), AreUsed-AreCurrent inventory dbs dbs' us vs)
AreUsed-AreCurrent inventory (db ∷ dbs) (db' ∷ dbs') (inr u, us) (v, vs) =
    (IsUsed-IsCurrentDb inventory db db' u v, AreUsed-AreCurrent inventory dbs dbs' us vs)
