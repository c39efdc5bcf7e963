-- ===== src/Core/Registry/Adding.antt =====
-- unsafe_add_redis_server() of src/core.c keeps the queues in order, and registers what it is given.
use libvmod_redis.Base.{
  Option-cases, ℕ, ◌≡◌, refl, ap, Bool, true, false, Option, none, some, List, if◌then◌else◌, arith,
  inl, inr, Str,
}
use libvmod_redis.Core.Reply.{Reply}
use libvmod_redis.Core.Types.{Ptr, Role, tbd, role_eq, Server, Db, set_mem}
use libvmod_redis.Core.Connect.{with_server, new_rcontext}
use libvmod_redis.Core.Plan.Servers.{grid}
use libvmod_redis.Core.Registry.{
  WeightRule, new_redis_server, discover_role, create, update, unsafe_add_redis_server, take_out,
  find_server,
}
use libvmod_redis.Core.Registry.Invariant.{
  IsRegistry, IsUnlisted, IsRegistry-mem, IsRegistry-with_server, insert-IsRegistry,
  take_out-IsRegistry, take_out-IsUnlisted, find_server-copies,
}

-- What a connection to a server leaves alone.
pub record IsSettled (db db' : Db) : Type 0 where
  pub queues : db'.servers ≡ db.servers
  pub weights : (q : Ptr) → (db'.mem q).weight ≡ (db.mem q).weight
  pub roles : (q : Ptr) → (db'.mem q).role ≡ (db.mem q).role
  pub names : (q : Ptr) → (db'.mem q).raw ≡ (db.mem q).raw
  pub slots : (q : Ptr) → (db'.mem q).slots ≡ (db.mem q).slots

new_rcontext-IsSettled :
    (now : ℕ) (dial : Option ℕ) (p : Ptr) (db : Db)
    → IsSettled db (new_rcontext now true dial p db).1
unfolding new_rcontext set_mem
new_rcontext-IsSettled now (some r) p db = record {
  queues = ground arith;
  weights = λ q. ground arith;
  roles = λ q. ground arith;
  names = λ q. ground arith;
  slots = λ q. ground arith;
}
new_rcontext-IsSettled now none p db = record {
  queues = ground arith;
  weights = λ q. ground arith;
  roles = λ q. ground arith;
  names = λ q. ground arith;
  slots = λ q. ground arith;
}

pub discover_role-IsSettled :
    (now : ℕ) (dial : Option ℕ) (answer : Option Reply) (p : Ptr) (db : Db)
    → IsSettled db (discover_role now dial answer p db).1
unfolding discover_role
discover_role-IsSettled now none answer p db = new_rcontext-IsSettled now none p db
discover_role-IsSettled now (some r) answer p db = new_rcontext-IsSettled now (some r) p db

settled-IsRegistry : (db db' : Db) → IsSettled db db' → IsRegistry db → IsRegistry db'
settled-IsRegistry db db' e v =
    IsRegistry-mem db db' e.queues (λ w r q k. (e.weights q, e.roles q)) v

pub settled-IsUnlisted :
    (p : Ptr) (db db' : Db) → IsSettled db db' → IsUnlisted p db → IsUnlisted p db'
settled-IsUnlisted p db db' e u w r = rw (ap (λ s. s w r) e.queues) (u w r)

-- A role that is asked for only when it is not known.
pub maybe-IsSettled :
    (now : ℕ) (dial : Option ℕ) (answer : Option Reply) (p : Ptr) (db : Db) (role : Role) (b : Bool)
    → IsSettled db (if b then discover_role now dial answer p db else (role, db)).1
maybe-IsSettled now dial answer p db role true = discover_role-IsSettled now dial answer p db
maybe-IsSettled now dial answer p db role false = record {
  queues = refl;
  weights = λ q. refl;
  roles = λ q. refl;
  names = λ q. refl;
  slots = λ q. refl;
}

create-IsRegistry :
    (re_match : Str → ℕ → Bool) (rules : List WeightRule) (now : ℕ) (dial : Option ℕ)
    (answer : Option Reply) (p : Ptr) (o : Option Server) (db : Db)
    → IsUnlisted p db
    → IsRegistry db
    → IsRegistry (create re_match rules now dial answer p o db).1
unfolding create
create-IsRegistry re_match rules now dial answer p none db u v =
    IsRegistry-mem db _ refl (λ w r q k. (refl, refl)) v
create-IsRegistry re_match rules now dial answer p (some s) db u v =
    let placed = with_server db p s in
    let call =
      if role_eq s.role tbd then discover_role now dial answer p placed else (s.role, placed) in
    let e : IsSettled placed call.1 =
      maybe-IsSettled now dial answer p placed s.role (role_eq s.role tbd) in
    let unlisted = settled-IsUnlisted p placed call.1 e u in
    insert-IsRegistry p _ unlisted (
      IsRegistry-mem (with_server call.1 p _) _ refl (λ w r q k. (refl, refl))
        (IsRegistry-with_server call.1 p _ unlisted
          (settled-IsRegistry placed call.1 e (IsRegistry-with_server db p s u v))))

update-IsRegistry :
    (now now2 : ℕ) (dial : Option ℕ) (answer : Option Reply) (role : Role) (p : Ptr) (db : Db)
    → IsUnlisted p db
    → IsRegistry db
    → IsRegistry (update now now2 dial answer role p db).1
unfolding update
update-IsRegistry now now2 dial answer role p db u v =
    let call = if role_eq role tbd then discover_role now dial answer p db else (role, db) in
    let e : IsSettled db call.1 = maybe-IsSettled now dial answer p db role (role_eq role tbd) in
    let unlisted = settled-IsUnlisted p db call.1 e u in
    insert-IsRegistry p _ unlisted
      (IsRegistry-with_server call.1 p _ unlisted (settled-IsRegistry db call.1 e v))

-- If a new server is at an address that no listed one has, unsafe_add_redis_server() keeps the queues
-- in order: every server in the queue of its own weight and role, and in it once.
pub unsafe_add_redis_server-IsRegistry :
    (re_match : Str → ℕ → Bool) (rules : List WeightRule) (now now2 : ℕ) (dial : Option ℕ)
    (answer : Option Reply) (fresh : Ptr) (db : Db) (location : Str) (role : Role)
    → IsUnlisted fresh db
    → IsRegistry db
    → IsRegistry
        (unsafe_add_redis_server re_match rules now now2 dial answer fresh db location role).1
unfolding unsafe_add_redis_server
unsafe_add_redis_server-IsRegistry re_match rules now now2 dial answer fresh db location role u v =
    elim (Option-cases (find_server db location grid)) [
      | inl h ↦ rw h (
          create-IsRegistry re_match rules now dial answer fresh (new_redis_server db location role)
            db u v)
      | inr (((w, r), p), h) ↦ rw h (
          update-IsRegistry now now2 dial answer role p (take_out w r p db)
            (take_out-IsUnlisted w r p db v (find_server-copies db location grid w r p h))
            (take_out-IsRegistry w r p db v))
    ]
