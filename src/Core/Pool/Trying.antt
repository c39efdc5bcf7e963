-- ===== src/Core/Pool/Trying.antt =====
-- A whole attempt to get a context from a shared pool of src/core.c: what comes out, and what it
-- does to the pool.
use libvmod_redis.Base.{
  ℕ, ◌+◌, ◌<◌, ◌≡◌, refl, ap, ◌∙◌, false, Option, none, some, List, [], ◌∷◌, ◌++◌, leb, length,
  arith, Bool-cases, inl, inr,
}
use libvmod_redis.Core.Types.{Ptr, Context, Server, Db, Env}
use libvmod_redis.Core.Valid.{is_valid_redis_context}
use libvmod_redis.Core.Connect.{new_rcontext, new_redis_context}
use libvmod_redis.Core.Pool.{
  mark_busy, drop_busy, take_free, Attempt, got, failed, waits, add_busy, opened, settled, attempt,
}
use libvmod_redis.Core.Pool.Lists.{count, count-append, add-IsPool}
use libvmod_redis.Core.Pool.Invariant.{
  Holds, Same, Holds-with_server, mem-with_server, valid-Same, new_rcontext-Same,
}
use libvmod_redis.Core.Pool.Taking.{
  Taken, Taken-trans, Taken-Same, drop_busy-free, mark_busy-free, take_free-Taken,
}

-- A context that is not handed out leaves no free ones behind.
pub take_free-none :
    (env : Env) (now : ℕ) (p : Ptr) (cs : List Context) (db : Db)
    → (db.mem p).free_contexts ≡ cs
    → (take_free env now p cs db).0 ≡ none
    → ((take_free env now p cs db).1.mem p).free_contexts ≡ []
unfolding take_free
take_free-none env now p [] db e n = e
take_free-none env now p (c ∷ rest) db e n =
    let marked = mark_busy p c rest db in
    let checked = (is_valid_redis_context env marked c now).1 in
    let free : ((drop_busy p c checked).mem p).free_contexts ≡ rest =
      drop_busy-free p c checked
      ∙ (valid-Same env p marked c now).free
      ∙ mark_busy-free p c rest db in
    elim (Bool-cases (is_valid_redis_context env marked c now).0) [
      | inl h ↦ absurd (ground (arith, n, h))
      | inr h ↦
          rw h (take_free-none env now p rest (drop_busy p c checked) free (ground (arith, n, h)))
    ]

-- How an attempt may end. Nothing is free, and all the contexts that there may be are busy, when it
-- waits.
pub data Tried (p : Ptr) (db : Db) : Attempt → Db → Type 0 where
  gets : (c : Context) (db' : Db) → Taken p db (some c) db' → Tried p db (got c) db'
  fails : (db' : Db) → Taken p db none db' → Tried p db failed db'
  blocks :
      (db' : Db)
      → Taken p db none db'
      → (db'.mem p).free_contexts ≡ []
      → length (db'.mem p).busy_contexts ≡ db'.max_connections
      → Tried p db waits db'

pub add-Taken :
    (p : Ptr) (c : Context) (db : Db)
    → (db.mem p).ncontexts < db.max_connections
    → count c.id (db.mem p).free_contexts + count c.id (db.mem p).busy_contexts ≡ 0
    → Holds p db
    → Taken p db (some c) (add_busy p c db)
unfolding add_busy
add-Taken p c db room fresh v =
    let s = db.mem p in
    let added : Server = record s {
      ncontexts = s.ncontexts + 1;
      busy_contexts = s.busy_contexts ++ (c ∷ []);
    } in
    record {
      holds = Holds-with_server db p added (
          add-IsPool db.max_connections s.ncontexts c s.free_contexts s.busy_contexts room fresh v);
      limit = refl;
      busy = λ i.
          ap (λ x. count i x.busy_contexts) (mem-with_server db p added)
          ∙ count-append i s.busy_contexts (c ∷ []);
    }

module _ (env : Env) (now : ℕ) (p : Ptr) (id : ℕ) (db : Db) (v : Holds p db) where
  pub opened-Tried :
      (r : Option ℕ) (db₁ db₂ : Db)
      → Taken p db none db₁
      → (db₁.mem p).free_contexts ≡ []
      → (db₁.mem p).ncontexts < db₁.max_connections
      → count id (db.mem p).busy_contexts ≡ 0
      → Same p db₁ db₂
      → let (a, db') = opened env now p id (r, db₂) in Tried p db a db'
  unfolding opened new_redis_context
  opened-Tried none db₁ db₂ t e room fresh same = fails db₂ (Taken-Same p db none db₁ db₂ same t)
  opened-Tried (some r) db₁ db₂ t e room fresh same =
      let c = new_redis_context env id p r now in
      let u = Taken-Same p db none db₁ db₂ same t in
      let unused : count id (db₂.mem p).free_contexts + count id (db₂.mem p).busy_contexts ≡ 0 =
        rw (same.free, e) (omega (arith, u.busy id, fresh)) in
      let free_room : (db₂.mem p).ncontexts < db₂.max_connections =
        rw (same.counter, same.limit) room in
      gets c (add_busy p c db₂) (
        Taken-trans p db db₂ (some c) (add_busy p c db₂) u
          (add-Taken p c db₂ free_room unused u.holds))

  pub settled-Tried :
      (dial : Option ℕ) (r : Option Context) (db₁ : Db)
      → Taken p db r db₁
      → (r ≡ none → (db₁.mem p).free_contexts ≡ [])
      → count id (db.mem p).busy_contexts ≡ 0
      → let (a, db') = settled env now p id dial (r, db₁) in Tried p db a db'
  unfolding settled
  settled-Tried dial (some c) db₁ t e fresh = gets c db₁ t
  settled-Tried dial none db₁ t e fresh =
      elim (Bool-cases (leb db₁.max_connections (db₁.mem p).ncontexts)) [
        | inl full ↦ rw full (
            blocks db₁ t (e refl) (
              let free = e refl in
              let counted = t.holds.counted in
              let capped = t.holds.capped in ground (arith, ap length free)))
        | inr h ↦
            let o = new_rcontext now false dial p db₁ in
            rw h (
              opened-Tried o.0 db₁ o.1 t (e refl) (ground arith) fresh
                (new_rcontext-Same now false dial p db₁))
      ]

  -- From a pool that is in order, and with an address for a new context that no busy one has, an
  -- attempt leaves the pool in order and adds to the busy contexts just the one that it gives; it
  -- waits only if nothing is free and as many contexts are busy as there may be.
  pub attempt-Tried :
      (dial : Option ℕ)
      → count id (db.mem p).busy_contexts ≡ 0
      → let (a, db') = attempt env now p id dial db in Tried p db a db'
  unfolding attempt
  attempt-Tried dial fresh =
      let free = (db.mem p).free_contexts in
      let o = take_free env now p free db in
      settled-Tried dial o.0 o.1 (take_free-Taken env now p free db refl v)
        (take_free-none env now p free db refl) fresh
