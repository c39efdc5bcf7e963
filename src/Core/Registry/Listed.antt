-- ===== src/Core/Registry/Listed.antt =====
-- unsafe_add_redis_server() of src/core.c: where the server stands afterwards.
use libvmod_redis.Base.{
  Option-cases, ℕ, ◌<◌, ◌≡◌, refl, sym, ap, ◌∙◌, Bool, true, Option, none, some, List, [], ◌∷◌,
  if◌then◌else◌, arith, Bool-cases, inl, inr, Str,
}
use libvmod_redis.Core.Reply.{Reply}
use libvmod_redis.Core.Types.{role_eq_refl, Ptr, Role, tbd, role_eq, Server, Db, set_queue}
use libvmod_redis.Core.Connect.{with_server}
use libvmod_redis.Core.Plan.Servers.{Cell, grid}
use libvmod_redis.Core.Pool.Invariant.{mem-with_server}
use libvmod_redis.Core.Registry.{
  WeightRule, new_redis_server, discover_role, create, update, unsafe_add_redis_server, take_out,
  insert, find_in, find_server, str_eq,
}
use libvmod_redis.Core.Registry.Invariant.{copies, copies-append}
use libvmod_redis.Core.Registry.Adding.{IsSettled, maybe-IsSettled}

-- A server with the location stands in the queue of its weight and role.
pub record IsListed (location : Str) (p : Ptr) (db : Db) : Type 0 where
  pub there : 0 < copies p (db.servers (db.mem p).weight (db.mem p).role)
  pub named : str_eq (db.mem p).raw location ≡ true

pub str_eq_refl : (s : Str) → str_eq s s ≡ true
unfolding str_eq
str_eq_refl [] = refl
str_eq_refl (c ∷ s) = ground (arith, str_eq_refl s)

insert-IsListed :
    (location : Str) (p : Ptr) (db : Db)
    → str_eq (db.mem p).raw location ≡ true
    → IsListed location p (insert p db)
unfolding insert set_queue
insert-IsListed location p db e =
    let s = db.mem p in
    record {
      there =
          rw (role_eq_refl s.role)
            (ground (arith, copies-append p (db.servers s.weight s.role) (p ∷ [])));
      named = e;
    }

new_redis_server-raw :
    (db : Db) (location : Str) (role : Role) (s : Server)
    → new_redis_server db location role ≡ some s
    → s.raw ≡ location
unfolding new_redis_server
new_redis_server-raw db location role s e = ground arith

with_server-named :
    (db : Db) (p : Ptr) (s : Server) (location : Str)
    → str_eq s.raw location ≡ true
    → str_eq ((with_server db p s).mem p).raw location ≡ true
with_server-named db p s location e = rw (mem-with_server db p s) e

create-IsListed :
    (re_match : Str → ℕ → Bool) (rules : List WeightRule) (now : ℕ) (dial : Option ℕ)
    (answer : Option Reply) (fresh p : Ptr) (o : Option Server) (db : Db) (location : Str)
    → ((s : Server) → o ≡ some s → s.raw ≡ location)
    → (create re_match rules now dial answer fresh o db).0 ≡ some p
    → IsListed location p (create re_match rules now dial answer fresh o db).1
unfolding create
create-IsListed re_match rules now dial answer fresh p none db location n e = absurd (ground arith)
create-IsListed re_match rules now dial answer fresh p (some s) db location n e =
    let placed = with_server db fresh s in
    let call =
      if role_eq s.role tbd then discover_role now dial answer fresh placed else (s.role, placed) in
    let c : IsSettled placed call.1 =
      maybe-IsSettled now dial answer fresh placed s.role (role_eq s.role tbd) in
    let raw : (call.1.mem fresh).raw ≡ location =
      c.names fresh ∙ ap (λ x. x.raw) (mem-with_server db fresh s) ∙ n s refl in
    let same : fresh ≡ p = ground arith in
    rw (sym same) (
      insert-IsListed location fresh _
        (with_server-named call.1 fresh _ location (rw raw (str_eq_refl location))))

update-IsListed :
    (now now2 : ℕ) (dial : Option ℕ) (answer : Option Reply) (role : Role) (p : Ptr) (db : Db)
    (location : Str)
    → str_eq (db.mem p).raw location ≡ true
    → IsListed location p (update now now2 dial answer role p db).1
unfolding update
update-IsListed now now2 dial answer role p db location n =
    let call = if role_eq role tbd then discover_role now dial answer p db else (role, db) in
    let e : IsSettled db call.1 = maybe-IsSettled now dial answer p db role (role_eq role tbd) in
    insert-IsListed location p _ (with_server-named call.1 p _ location (rw (e.names p) n))

find_in-named :
    (mem : Ptr → Server) (l : Str) (ps : List Ptr) (p : Ptr)
    → find_in mem l ps ≡ some p
    → str_eq (mem p).raw l ≡ true
unfolding find_in
find_in-named mem l [] p e = absurd (ground (arith, e))
find_in-named mem l (q ∷ qs) p e = elim (Bool-cases (str_eq (mem q).raw l)) [
  | inl h ↦ let same : q ≡ p = ground (arith, e, h) in rw (sym same) h
  | inr h ↦ find_in-named mem l qs p (ground (arith, e, h))
]

find_server-named :
    (db : Db) (l : Str) (cs : List Cell) (c : Cell) (p : Ptr)
    → find_server db l cs ≡ some (c, p)
    → str_eq (db.mem p).raw l ≡ true
unfolding find_server
find_server-named db l [] c p e = absurd (ground (arith, e))
find_server-named db l ((x, y) ∷ cs) c p e =
    elim (Option-cases (find_in db.mem l (db.servers x y))) [
      | inl h ↦ find_server-named db l cs c p (rw h at e)
      | inr (q, h) ↦
          let first : Option (Cell × Ptr) = some ((x, y), q) in
          let found : first ≡ some (c, p) = rw h at e in
          let server : q ≡ p = cc in rw (sym server) (find_in-named db.mem l (db.servers x y) q h)
    ]

update-server :
    (now now2 : ℕ) (dial : Option ℕ) (answer : Option Reply) (role : Role) (q p : Ptr) (db : Db)
    → (update now now2 dial answer role q db).0 ≡ some p
    → q ≡ p
unfolding update
update-server now now2 dial answer role q p db e = ground arith

take_out-named :
    (w : ℕ) (r : Role) (q : Ptr) (db : Db) (location : Str)
    → str_eq (db.mem q).raw location ≡ true
    → str_eq ((take_out w r q db).mem q).raw location ≡ true
unfolding take_out
take_out-named w r q db location e = e

-- The server that unsafe_add_redis_server() returns, be it new or known, has the location that was
-- asked for, and stands in the queue of its weight and its role.
pub unsafe_add_redis_server-IsListed :
    (re_match : Str → ℕ → Bool) (rules : List WeightRule) (now now2 : ℕ) (dial : Option ℕ)
    (answer : Option Reply) (fresh p : Ptr) (db : Db) (location : Str) (role : Role)
    → (unsafe_add_redis_server re_match rules now now2 dial answer fresh db location role).0
      ≡ some p
    → IsListed location p
        (unsafe_add_redis_server re_match rules now now2 dial answer fresh db location role).1
unfolding unsafe_add_redis_server
unsafe_add_redis_server-IsListed re_match rules now now2 dial answer fresh p db location role e =
    elim (Option-cases (find_server db location grid)) [
      | inl h ↦ rw h (
          create-IsListed re_match rules now dial answer fresh p (new_redis_server db location role)
            db location (new_redis_server-raw db location role) (rw h at e))
      | inr (((w, r), q), h) ↦
          let got : (update now now2 dial answer role q (take_out w r q db)).0 ≡ some p =
            rw h at e in
          let same : q ≡ p = update-server now now2 dial answer role q p (take_out w r q db) got in
          rw h (
            rw (sym same) (
              update-IsListed now now2 dial answer role q (take_out w r q db) location
                (take_out-named w r q db location (find_server-named db location grid (w, r) q h))))
    ]
