-- ===== src/Core/Registry/Others.antt =====
-- unsafe_add_redis_server() of src/core.c lists no server but the one it returns.
use libvmod_redis.Base.{
  ℕ, ◌<◌, ◌≡◌, ap, Bool, false, Option, none, some, List, [], ◌∷◌, ◌++◌, ◌==◌, ltb, if◌then◌else◌,
  arith, Bool-cases, Option-cases, inl, inr, Str,
}
use libvmod_redis.Core.Reply.{Reply}
use libvmod_redis.Core.Types.{Ptr, Role, tbd, role_eq, Server, Db, set_queue-all, inc}
use libvmod_redis.Core.Connect.{with_server}
use libvmod_redis.Core.Plan.Servers.{grid, remove}
use libvmod_redis.Core.Valid.{with_stats}
use libvmod_redis.Core.Registry.{
  is_socket, weigh, WeightRule, discover_role, create, update, insert, take_out, find_server,
  new_redis_server, unsafe_add_redis_server,
}
use libvmod_redis.Core.Registry.Invariant.{
  copies, copies-append, copies-remove, IsUnlisted, find_server-copies,
}
use libvmod_redis.Core.Registry.Adding.{maybe-IsSettled, settled-IsUnlisted}

insert-IsUnlisted :
    (p q : Ptr) (db : Db) → (p == q) ≡ false → IsUnlisted q db → IsUnlisted q (insert p db)
unfolding insert
insert-IsUnlisted p q db e u =
    let s = db.mem p in
    set_queue-all (λ w r ps. copies q ps ≡ 0) db.servers s.weight s.role
      (db.servers s.weight s.role ++ (p ∷ []))
      (ground (arith, e, u s.weight s.role, copies-append q (db.servers s.weight s.role) (p ∷ [])))
      u

take_out-others :
    (w : ℕ) (r : Role) (p q : Ptr) (db : Db) → IsUnlisted q db → IsUnlisted q (take_out w r p db)
unfolding take_out
take_out-others w r p q db u =
    set_queue-all (λ w' r' ps. copies q ps ≡ 0) db.servers w r (remove p (db.servers w r))
      (omega (arith, u w r, copies-remove q p (db.servers w r))) u

create-IsUnlisted :
    (re_match : Str → ℕ → Bool) (rules : List WeightRule) (now : ℕ) (dial : Option ℕ)
    (answer : Option Reply) (p q : Ptr) (o : Option Server) (db : Db)
    → (p == q) ≡ false
    → IsUnlisted q db
    → IsUnlisted q (create re_match rules now dial answer p o db).1
unfolding create
create-IsUnlisted re_match rules now dial answer p q none db e u = u
create-IsUnlisted re_match rules now dial answer p q (some s) db e u =
    let placed = with_server db p s in
    let call =
      if role_eq s.role tbd then discover_role now dial answer p placed else (s.role, placed) in
    let named = with_server call.1 p (record (call.1.mem p) {
      role = call.0;
      weight = if is_socket s.location then 0 else weigh re_match s.raw rules;
    }) in
    let counted =
      with_stats named (record (named.stats) { servers_total = inc named.stats.servers_total }) in
    insert-IsUnlisted p q counted e (
      settled-IsUnlisted q placed call.1
        (maybe-IsSettled now dial answer p placed s.role (role_eq s.role tbd)) u)

update-IsUnlisted :
    (now now2 : ℕ) (dial : Option ℕ) (answer : Option Reply) (role : Role) (p q : Ptr) (db : Db)
    → (p == q) ≡ false
    → IsUnlisted q db
    → IsUnlisted q (update now now2 dial answer role p db).1
unfolding update
update-IsUnlisted now now2 dial answer role p q db e u =
    let call = if role_eq role tbd then discover_role now dial answer p db else (role, db) in
    let x = call.1.mem p in
    let updated = with_server call.1 p (record x {
      role = if role_eq call.0 tbd then x.role else call.0;
      sickness_exp = if ltb now2 x.sickness_exp then now2 else x.sickness_exp;
    }) in
    insert-IsUnlisted p q updated e (
      settled-IsUnlisted q db call.1 (maybe-IsSettled now dial answer p db role (role_eq role tbd))
        u)

pub unsafe_add_redis_server-IsUnlisted :
    (re_match : Str → ℕ → Bool) (rules : List WeightRule) (now now2 : ℕ) (dial : Option ℕ)
    (answer : Option Reply) (fresh q : Ptr) (db : Db) (location : Str) (role : Role)
    → (fresh == q) ≡ false
    → IsUnlisted q db
    → IsUnlisted q
        (unsafe_add_redis_server re_match rules now now2 dial answer fresh db location role).1
unfolding unsafe_add_redis_server
unsafe_add_redis_server-IsUnlisted re_match rules now now2 dial answer fresh q db location role e
      u =
    elim (Option-cases (find_server db location grid)) [
      | inl h ↦ rw h (
          create-IsUnlisted re_match rules now dial answer fresh q
            (new_redis_server db location role) db e u)
      | inr (((w, r), p), h) ↦
          let listed = find_server-copies db location grid w r p h in
          let other : (p == q) ≡ false = different w r p listed in
          rw h (
            update-IsUnlisted now now2 dial answer role p q (take_out w r p db) other
              (take_out-others w r p q db u))
    ]
  where
    different : (w : ℕ) (r : Role) (p : Ptr) → 0 < copies p (db.servers w r) → (p == q) ≡ false
    different w r p k = elim (Bool-cases (p == q)) [
      | inl h ↦
          let same : p ≡ q = ground arith in
          absurd (omega (arith, u w r, ap (λ x. copies x (db.servers w r)) same, k))
      | inr h ↦ h
    ]
