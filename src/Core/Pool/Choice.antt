-- ===== src/Core/Pool/Choice.antt =====
-- Which context a shared pool of src/core.c gives.
use libvmod_redis.Base.{
  ℕ, ◌≡◌, refl, sym, ap, ◌∙◌, Option, none, some, List, [], ◌∷◌, leb, arith, Bool-cases, inl, inr,
}
use libvmod_redis.Core.Types.{Ptr, Context, Db, Env, set_mem}
use libvmod_redis.Core.Valid.{
  is_valid_redis_context, IsUsable, valid→IsUsable, IsUsable→valid, valid-stats,
}
use libvmod_redis.Core.Connect.{new_rcontext, new_redis_context}
use libvmod_redis.Core.Pool.{
  mark_busy, drop_busy, take_free, Attempt, got, failed, waits, opened, settled, attempt,
}

-- The first context of a list that has a property, if one has.
pub data IsFirst {ℓ} (P : Context → Type ℓ) : List Context → Option Context → Type ℓ where
  nothing : IsFirst P [] none
  here : (c : Context) (cs : List Context) → P c → IsFirst P (c ∷ cs) (some c)
  later :
      (c : Context) (cs : List Context) (r : Option Context)
      → ¬ P c
      → IsFirst P cs r
      → IsFirst P (c ∷ cs) r

-- What the check of a connection reads is the same in both databases.
pub record IsAlike (db db' : Db) : Type 0 where
  pub lifetime : db'.connection_ttl ≡ db.connection_ttl
  pub sickness : db'.sickness_ttl ≡ db.sickness_ttl
  pub sick : (q : Ptr) → (db'.mem q).sickness_tst ≡ (db.mem q).sickness_tst

pub IsUsable-IsAlike :
    (env : Env) (db db' : Db) (c : Context) (now : ℕ)
    → IsAlike db db'
    → IsUsable env db c now
    → IsUsable env db' c now
IsUsable-IsAlike env db db' c now a u = record {
  sound = u.sound;
  current = u.current;
  young = rw (a.lifetime) u.young;
  healthy = rw (a.sickness, a.sick c.server) u.healthy;
  connected = u.connected;
}

IsAlike-sym : (db db' : Db) → IsAlike db db' → IsAlike db' db
IsAlike-sym db db' a = record {
  lifetime = sym a.lifetime;
  sickness = sym a.sickness;
  sick = λ q. sym (a.sick q);
}

mark-IsAlike :
    (p : Ptr) (c : Context) (rest : List Context) (db : Db) → IsAlike db (mark_busy p c rest db)
unfolding mark_busy set_mem
mark-IsAlike p c rest db = record { lifetime = refl; sickness = refl; sick = λ q. ground arith }

drop-IsAlike :
    (p : Ptr) (c : Context) (db db' : Db) → IsAlike db db' → IsAlike db (drop_busy p c db')
unfolding drop_busy set_mem
drop-IsAlike p c db db' a = record {
  lifetime = a.lifetime;
  sickness = a.sickness;
  sick = λ q. ground (arith, a.sick q, a.sick p);
}

checked-IsAlike :
    (env : Env) (now : ℕ) (c : Context) (db db' : Db)
    → IsAlike db db'
    → IsAlike db (is_valid_redis_context env db' c now).1
checked-IsAlike env now c db db' a =
    let e = valid-stats env db' c now in
    record {
      lifetime = ap (λ d. d.connection_ttl) e ∙ a.lifetime;
      sickness = ap (λ d. d.sickness_ttl) e ∙ a.sickness;
      sick = λ q. ap (λ d. (d.mem q).sickness_tst) e ∙ a.sick q;
    }

-- The loop over the free contexts takes the first one that may be used.
pub take_free-IsFirst :
    (env : Env) (now : ℕ) (p : Ptr) (db₀ : Db) (cs : List Context) (db : Db)
    → IsAlike db₀ db
    → IsFirst (λ c. IsUsable env db₀ c now) cs (take_free env now p cs db).0
unfolding take_free
take_free-IsFirst env now p db₀ [] db a = nothing
take_free-IsFirst env now p db₀ (c ∷ rest) db a =
    let marked = mark_busy p c rest db in
    let m = mark-IsAlike p c rest db in
    let am : IsAlike db₀ marked = record {
      lifetime = m.lifetime ∙ a.lifetime;
      sickness = m.sickness ∙ a.sickness;
      sick = λ q. m.sick q ∙ a.sick q;
    } in
    let checked = (is_valid_redis_context env marked c now).1 in
    elim (Bool-cases (is_valid_redis_context env marked c now).0) [
      | inl h ↦ rw h (
          here c rest (
            IsUsable-IsAlike env marked db₀ c now (IsAlike-sym db₀ marked am)
              (valid→IsUsable env marked c now h).0))
      | inr h ↦ rw h (
          later c rest (take_free env now p rest (drop_busy p c checked)).0
            (λ u. ground (
              arith,
              h,
              IsUsable→valid env marked c now (IsUsable-IsAlike env db₀ marked c now am u),
            ))
            (take_free-IsFirst env now p db₀ rest (drop_busy p c checked)
              (drop-IsAlike p c db₀ checked (checked-IsAlike env now c db₀ marked am))))
    ]

-- How an attempt may end: with the first free context that may be used, or, when there is none,
-- with a new one, with a failure to connect, or in a wait.
pub data Choice (env : Env) (now : ℕ) (p : Ptr) (id : ℕ) (dial : Option ℕ) (db : Db)
    : Attempt → Type 0 where
  reused :
      (c : Context)
      → IsFirst (λ x. IsUsable env db x now) (db.mem p).free_contexts (some c)
      → Choice env now p id dial db (got c)
  created :
      (r : ℕ)
      → IsFirst (λ x. IsUsable env db x now) (db.mem p).free_contexts none
      → dial ≡ some r
      → Choice env now p id dial db (got (new_redis_context env id p r now))
  refused :
      IsFirst (λ x. IsUsable env db x now) (db.mem p).free_contexts none
      → dial ≡ none
      → Choice env now p id dial db failed
  full :
      IsFirst (λ x. IsUsable env db x now) (db.mem p).free_contexts none
      → Choice env now p id dial db waits

module _ (env : Env) (now : ℕ) (p : Ptr) (id : ℕ) (db : Db) where
  settled-Choice :
      (dial : Option ℕ) (r : Option Context) (db₁ : Db)
      → IsFirst (λ x. IsUsable env db x now) (db.mem p).free_contexts r
      → Choice env now p id dial db (settled env now p id dial (r, db₁)).0
  unfolding settled opened new_rcontext
  settled-Choice dial (some c) db₁ f = reused c f
  settled-Choice none none db₁ f =
      elim (Bool-cases (leb db₁.max_connections (db₁.mem p).ncontexts)) [
        | inl h ↦ rw h (full f)
        | inr h ↦ rw h (refused f refl)
      ]
  settled-Choice (some r) none db₁ f =
      elim (Bool-cases (leb db₁.max_connections (db₁.mem p).ncontexts)) [
        | inl h ↦ rw h (full f)
        | inr h ↦ rw h (created r f refl)
      ]

  -- lock_shared_redis_context() gives the first free context that may be used. Only when no free
  -- context may be used does it connect to the server, and give the new context or fail, or wait.
  pub attempt-Choice :
      (dial : Option ℕ) → Choice env now p id dial db (attempt env now p id dial db).0
  unfolding attempt
  attempt-Choice dial =
      let o = take_free env now p (db.mem p).free_contexts db in
      settled-Choice dial o.0 o.1 (
        take_free-IsFirst env now p db (db.mem p).free_contexts db
          (record { lifetime = refl; sickness = refl; sick = λ q. refl }))
