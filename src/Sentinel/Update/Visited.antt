-- ===== src/Sentinel/Update/Visited.antt =====
-- One visit of unsafe_update_dbs() of src/sentinel.c to a server.
use mathlib.Core.Path.{subst}
use libvmod_redis.Base.{
  ℕ, ◌<◌, ◌≡◌, refl, sym, ap, ◌∙◌, ltb, not, inl, inr, false, Option, none, some, List, [], ◌∷◌,
  ◌++◌, ◌==◌, arith, Bool-cases,
}
use libvmod_redis.Core.Types.{Ptr, Role, role_eq, role_eq→eq, Server, Db, set_queue-all, set_mem}
use libvmod_redis.Core.Connect.{with_server}
use libvmod_redis.Core.Plan.Servers.{remove}
use libvmod_redis.Core.Registry.{take_out, insert}
use libvmod_redis.Core.Registry.Invariant.{copies, copies-append, copies-remove}
use libvmod_redis.Core.Pool.Invariant.{mem-with_server}
use libvmod_redis.Sentinel.Inventory.{KnownServer}
use libvmod_redis.Sentinel.Update.{
  forever, change_role, sickness, Timed, update_found, matching, update_server,
}

-- The role that the inventory has for a server: its own, when the inventory does not know it.
abbrev pub role_in : Option KnownServer → Role → Role
role_in none r = r
role_in (some k) r = k.role

-- The server has the role that the inventory has for it.
abbrev pub IsSynced : List KnownServer → Server → Type 0
IsSynced inventory s = s.role ≡ role_in (matching inventory s.location) s.role

-- A server that a step leaves alone, in the memory and in the queues.
pub record IsLeft (p : Ptr) (db db' : Db) : Type 0 where
  pub server : db'.mem p ≡ db.mem p
  pub queues : (w : ℕ) (r : Role) → copies p (db'.servers w r) ≡ copies p (db.servers w r)

pub IsLeft-refl : (p : Ptr) (db : Db) → IsLeft p db db
IsLeft-refl p db = record { server = refl; queues = λ w r. refl }

pub IsLeft-trans : (p : Ptr) (a b c : Db) → IsLeft p a b → IsLeft p b c → IsLeft p a c
IsLeft-trans p a b c x y = record {
  server = y.server ∙ x.server;
  queues = λ w r. y.queues w r ∙ x.queues w r;
}

pub with_server-IsLeft :
    (q p : Ptr) (s : Server) (db : Db) → (p == q) ≡ false → IsLeft p db (with_server db q s)
unfolding set_mem
with_server-IsLeft q p s db e = record { server = rw e refl; queues = λ w r. refl }

pub take_out-IsLeft :
    (w : ℕ) (r : Role) (q p : Ptr) (db : Db) → (p == q) ≡ false → IsLeft p db (take_out w r q db)
unfolding take_out
take_out-IsLeft w r q p db e = record {
  server = refl;
  queues =
      set_queue-all (λ w' r' ps. copies p ps ≡ copies p (db.servers w' r')) db.servers w r
        (remove q (db.servers w r)) (ground (arith, e, copies-remove p q (db.servers w r)))
        (λ w' r'. refl);
}

pub insert-IsLeft : (q p : Ptr) (db : Db) → (p == q) ≡ false → IsLeft p db (insert q db)
unfolding insert
insert-IsLeft q p db e =
    let s = db.mem q in
    let old = db.servers s.weight s.role in
    record {
      server = refl;
      queues =
          set_queue-all (λ w r ps. copies p ps ≡ copies p (db.servers w r)) db.servers s.weight
            s.role (old ++ (q ∷ [])) (ground (arith, e, copies-append p old (q ∷ [])))
            (λ w r. refl);
    }

pub change_role-IsLeft :
    (role : Role) (q p : Ptr) (db : Db) → (p == q) ≡ false → IsLeft p db (change_role role q db)
unfolding change_role
change_role-IsLeft role q p db e =
    let s = db.mem q in
    let out = take_out s.weight s.role q db in
    let renamed = with_server out q (record s { role = role }) in
    elim (Bool-cases (role_eq s.role role)) [
      | inl k ↦ rw k (IsLeft-refl p db)
      | inr k ↦ rw k (
          IsLeft-trans p db out _ (take_out-IsLeft s.weight s.role q p db e) (
            IsLeft-trans p out renamed _ (with_server-IsLeft q p (record s { role = role }) out e)
              (insert-IsLeft q p renamed e)))
    ]

-- The server itself: its role is the one that was asked for, and nothing else of it changes.
pub change_role-mem :
    (role : Role) (p : Ptr) (db : Db)
    → (change_role role p db).mem p ≡ record (db.mem p) { role = role }
unfolding change_role take_out insert
change_role-mem role p db =
    let s = db.mem p in
    elim (Bool-cases (role_eq s.role role)) [
      | inl k ↦ rw k (ap (λ x. record s { role = x }) (role_eq→eq s.role role k))
      | inr k ↦ rw k (mem-with_server (take_out s.weight s.role p db) p (record s { role = role }))
    ]

module _ (clock : ℕ → ℕ) (inventory : List KnownServer) where
  pub update_found-IsLeft :
      (q p : Ptr) (o : Option KnownServer) (x : Timed)
      → (p == q) ≡ false
      → IsLeft p x.1 (update_found clock inventory q o x).1
  update_found-IsLeft q p none x e = IsLeft-refl p x.1
  update_found-IsLeft q p (some k) (ticks, db) e =
      let moved = change_role k.role q db in
      IsLeft-trans p db moved _ (change_role-IsLeft k.role q p db e)
        (with_server-IsLeft q p _ moved e)

  pub update_server-IsLeft :
      (q p : Ptr) (x : Timed)
      → (p == q) ≡ false
      → IsLeft p x.1 (update_server clock inventory q x).1
  unfolding update_server
  update_server-IsLeft q p x e =
      update_found-IsLeft q p (matching inventory (x.1.mem q).location) x e

  -- What a visit makes of the server.
  pub update_found-mem :
      (p : Ptr) (k : KnownServer) (ticks : ℕ) (db : Db)
      → (update_found clock inventory p (some k) (ticks, db)).1.mem p ≡ record (db.mem p) {
        role = k.role;
        sickness_exp = sickness (clock ticks) k.down (db.mem p).sickness_exp;
      }
  update_found-mem p k ticks db =
      let moved = change_role k.role p db in
      mem-with_server moved p _
      ∙ ap
          (λ (s : Server). record s { sickness_exp = sickness (clock ticks) k.down s.sickness_exp })
          (change_role-mem k.role p db)

  pub update_found-IsSynced :
      (p : Ptr) (o : Option KnownServer) (x : Timed)
      → matching inventory (x.1.mem p).location ≡ o
      → IsSynced inventory ((update_found clock inventory p o x).1.mem p)
  update_found-IsSynced p none x e = rw e refl
  update_found-IsSynced p (some k) (ticks, db) e =
      subst (IsSynced inventory) (sym (update_found-mem p k ticks db)) (rw e refl)

  pub update_server-IsSynced :
      (p : Ptr) (x : Timed) → IsSynced inventory ((update_server clock inventory p x).1.mem p)
  unfolding update_server
  update_server-IsSynced p x =
      update_found-IsSynced p (matching inventory (x.1.mem p).location) x refl

-- At a visit, a server that the inventory knows becomes sick, as the execution plans see it, exactly
-- when the inventory has it down.
pub update_found-sickness :
    (clock : ℕ → ℕ) (inventory : List KnownServer) (p : Ptr) (k : KnownServer) (ticks : ℕ) (db : Db)
    → clock ticks < forever
    → ltb (clock ticks) ((update_found clock inventory p (some k) (ticks, db)).1.mem p).sickness_exp
      ≡ not (k.down == 0)
update_found-sickness clock inventory p k ticks db h =
    ap (λ (s : Server). ltb (clock ticks) s.sickness_exp)
      (update_found-mem clock inventory p k ticks db)
    ∙ ground arith
