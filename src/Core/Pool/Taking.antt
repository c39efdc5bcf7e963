-- ===== src/Core/Pool/Taking.antt =====
-- What an attempt to get a context from a shared pool of src/core.c does to the pool.
use libvmod_redis.Base.{
  ℕ, ◌+◌, ◌-◌, ◌≡◌, refl, sym, ap, ◌∙◌, Option, none, some, List, [], ◌∷◌, ◌++◌, arith, Bool-cases,
  inl, inr,
}
use libvmod_redis.Core.Types.{Ptr, Context, Server, Db, Env}
use libvmod_redis.Core.Valid.{is_valid_redis_context}
use libvmod_redis.Core.Pool.{mark_busy, drop_busy, take_free}
use libvmod_redis.Core.Plan.Contexts.{remove_context}
use libvmod_redis.Core.Pool.Lists.{
  count, count-append, count-remove_context, IsPool, mark-IsPool, drop-IsPool,
}
use libvmod_redis.Core.Pool.Invariant.{
  Holds, Same, Holds-Same, Holds-with_server, mem-with_server, valid-Same,
}

-- The contexts that a caller gets.
abbrev pub handed : Option Context → List Context
handed none = []
handed (some c) = c ∷ []

-- The pool is as it should be, and the busy contexts are those from before and the one handed out.
pub record Taken (p : Ptr) (db : Db) (r : Option Context) (db' : Db) : Type 0 where
  pub holds : Holds p db'
  pub limit : db'.max_connections ≡ db.max_connections
  pub busy :
      (i : ℕ)
      → count i (db'.mem p).busy_contexts ≡ count i (db.mem p).busy_contexts + count i (handed r)

pub Taken-trans :
    (p : Ptr) (db₁ db₂ : Db) (r : Option Context) (db₃ : Db)
    → Taken p db₁ none db₂
    → Taken p db₂ r db₃
    → Taken p db₁ r db₃
Taken-trans p db₁ db₂ r db₃ u v = record {
  holds = v.holds;
  limit = v.limit ∙ u.limit;
  busy = λ i. omega (arith, u.busy i, v.busy i);
}

pub Taken-Same :
    (p : Ptr) (db : Db) (r : Option Context) (db₁ db₂ : Db)
    → Same p db₁ db₂
    → Taken p db r db₁
    → Taken p db r db₂
Taken-Same p db r db₁ db₂ e v = record {
  holds = Holds-Same p db₁ db₂ e v.holds;
  limit = e.limit ∙ v.limit;
  busy = λ i. ap (count i) e.busy ∙ v.busy i;
}

pub mark-Taken :
    (p : Ptr) (c : Context) (rest : List Context) (db : Db)
    → (db.mem p).free_contexts ≡ c ∷ rest
    → Holds p db
    → Taken p db (some c) (mark_busy p c rest db)
unfolding mark_busy
mark-Taken p c rest db e v =
    let s = db.mem p in
    let moved : Server = record s {
      free_contexts = rest;
      busy_contexts = s.busy_contexts ++ (c ∷ []);
    } in
    let pool : IsPool db.max_connections s.ncontexts (c ∷ rest) s.busy_contexts = rw (sym e) v in
    record {
      holds =
          Holds-with_server db p moved
            (mark-IsPool db.max_connections s.ncontexts c rest s.busy_contexts pool);
      limit = refl;
      busy = λ i.
          ap (λ x. count i x.busy_contexts) (mem-with_server db p moved)
          ∙ count-append i s.busy_contexts (c ∷ []);
    }

pub drop-Taken :
    (p : Ptr) (c : Context) (db₀ db : Db)
    → Taken p db₀ (some c) db
    → Taken p db₀ none (drop_busy p c db)
unfolding drop_busy
drop-Taken p c db₀ db t =
    let s = db.mem p in
    let dropped : Server = record s {
      ncontexts = s.ncontexts - 1;
      busy_contexts = remove_context c.id s.busy_contexts;
    } in
    record {
      holds = Holds-with_server db p dropped (
          drop-IsPool db.max_connections s.ncontexts c s.free_contexts s.busy_contexts
            (ground (arith, t.busy c.id)) t.holds);
      limit = t.limit;
      busy = λ i.
          ap (λ x. count i x.busy_contexts) (mem-with_server db p dropped)
          ∙ ground (arith, t.busy i, count-remove_context i c.id s.busy_contexts);
    }

pub drop_busy-free :
    (p : Ptr) (c : Context) (db : Db)
    → ((drop_busy p c db).mem p).free_contexts ≡ (db.mem p).free_contexts
unfolding drop_busy
drop_busy-free p c db =
    let s = db.mem p in
    ap (λ x. x.free_contexts)
      (mem-with_server db p (record s {
        ncontexts = s.ncontexts - 1;
        busy_contexts = remove_context c.id s.busy_contexts;
      }))

pub mark_busy-free :
    (p : Ptr) (c : Context) (rest : List Context) (db : Db)
    → ((mark_busy p c rest db).mem p).free_contexts ≡ rest
unfolding mark_busy
mark_busy-free p c rest db =
    let s = db.mem p in
    ap (λ x. x.free_contexts)
      (mem-with_server db p
        (record s { free_contexts = rest; busy_contexts = s.busy_contexts ++ (c ∷ []) }))

-- The loop over the free contexts.
pub take_free-Taken :
    (env : Env) (now : ℕ) (p : Ptr) (cs : List Context) (db : Db)
    → (db.mem p).free_contexts ≡ cs
    → Holds p db
    → let (r, db') = take_free env now p cs db in Taken p db r db'
unfolding take_free
take_free-Taken env now p [] db e v = record { holds = v; limit = refl; busy = λ i. omega arith }
take_free-Taken env now p (c ∷ rest) db e v =
    let marked = mark_busy p c rest db in
    let checked = (is_valid_redis_context env marked c now).1 in
    let same = valid-Same env p marked c now in
    let m = Taken-Same p db (some c) marked checked same (mark-Taken p c rest db e v) in
    let d = drop-Taken p c db checked m in
    let free : ((drop_busy p c checked).mem p).free_contexts ≡ rest =
      drop_busy-free p c checked ∙ same.free ∙ mark_busy-free p c rest db in
    let more = take_free env now p rest (drop_busy p c checked) in
    elim (Bool-cases (is_valid_redis_context env marked c now).0) [
      | inl h ↦ rw h m
      | inr h ↦ rw h (
          Taken-trans p db (drop_busy p c checked) more.0 more.1 d
            (take_free-Taken env now p rest (drop_busy p c checked) free d.holds))
    ]
