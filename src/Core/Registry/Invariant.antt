-- ===== src/Core/Registry/Invariant.antt =====
-- The queues of servers of src/core.c: every server stands in one queue, once.
use libvmod_redis.Base.{
  Option-cases, ℕ, ◌+◌, ◌-◌, ◌≤◌, ◌<◌, ◌≡◌, refl, sym, ap, ◌∙◌, ◌&&◌, Option, some, List, [], ◌∷◌,
  ◌++◌, ◌==◌, if◌then◌else◌, All, arith, Bool-cases, inl, inr, Str,
}
use libvmod_redis.Core.Types.{
  role_eq_refl, Ptr, Role, role_eq, Server, Db, set_queue, set_queue-all, set_mem,
}
use libvmod_redis.Core.Connect.{with_server}
use libvmod_redis.Core.Plan.Servers.{Cell, remove}
use libvmod_redis.Core.Plan.Candidates.{IsFiled}
use libvmod_redis.Core.Registry.{take_out, insert, find_in, find_server, str_eq}

-- How often a server stands in a queue.
abbrev pub copies : Ptr → List Ptr → ℕ
copies p [] = 0
copies p (q ∷ qs) = (if q == p then 1 else 0) + copies p qs

pub copies-append : (p : Ptr) (qs rs : List Ptr) → copies p (qs ++ rs) ≡ copies p qs + copies p rs
copies-append p [] rs = omega arith
copies-append p (q ∷ qs) rs = omega (arith, copies-append p qs rs)

pub copies-remove :
    (p q : Ptr) (qs : List Ptr) → copies p (remove q qs) ≡ copies p qs - (if p == q then 1 else 0)
unfolding remove
copies-remove p q [] = ground arith
copies-remove p q (x ∷ qs) = ground (arith, copies-remove p q qs)

-- Each server stands at most once in a queue, and only in that of its weight and its role.
pub record IsRegistry (db : Db) : Type 0 where
  pub filed :
      (w : ℕ) (r : Role) (p : Ptr)
      → 0 < copies p (db.servers w r)
      → ((db.mem p).weight ≡ w) × ((db.mem p).role ≡ r)
  pub once : (w : ℕ) (r : Role) (p : Ptr) → copies p (db.servers w r) ≤ 1

-- A server in no queue.
abbrev pub IsUnlisted : Ptr → Db → Type 0
IsUnlisted p db = (w : ℕ) (r : Role) → copies p (db.servers w r) ≡ 0

All-copies : (P : Ptr → Type 0) (ps : List Ptr) → ((p : Ptr) → 0 < copies p ps → P p) → All P ps
All-copies P [] h = tt
All-copies P (q ∷ qs) h = (h q (ground arith), All-copies P qs (λ p k. h p (ground (arith, k))))

-- What the loops of the execution plans assert.
pub IsRegistry-IsFiled : (db : Db) → IsRegistry db → IsFiled db
IsRegistry-IsFiled db v w r =
    All-copies (λ p. ((db.mem p).weight ≡ w) × ((db.mem p).role ≡ r)) (db.servers w r)
      (λ p k. v.filed w r p k)

-- A change of the memory that no listed server notices.
pub IsRegistry-mem :
    (db db' : Db)
    → db'.servers ≡ db.servers
    → ((w : ℕ) (r : Role) (q : Ptr)
        → 0 < copies q (db.servers w r)
        → ((db'.mem q).weight ≡ (db.mem q).weight) × ((db'.mem q).role ≡ (db.mem q).role))
    → IsRegistry db
    → IsRegistry db'
IsRegistry-mem db db' e h v = record {
  filed = λ w r p k.
      let k' : 0 < copies p (db.servers w r) = rw (sym (ap (λ s. s w r) e)) k in
      ((h w r p k').0 ∙ (v.filed w r p k').0, (h w r p k').1 ∙ (v.filed w r p k').1);
  once = λ w r p. rw (ap (λ s. s w r) e) (v.once w r p);
}

pub IsRegistry-with_server :
    (db : Db) (p : Ptr) (s : Server)
    → IsUnlisted p db
    → IsRegistry db
    → IsRegistry (with_server db p s)
unfolding set_mem
IsRegistry-with_server db p s u v =
    IsRegistry-mem db (with_server db p s) refl (λ w r q k. ground (arith, u w r, k)) v

pub insert-IsRegistry :
    (p : Ptr) (db : Db) → IsUnlisted p db → IsRegistry db → IsRegistry (insert p db)
unfolding insert
insert-IsRegistry p db u v =
    let s = db.mem p in
    let q = db.servers s.weight s.role ++ (p ∷ []) in
    record {
      filed =
          set_queue-all
            (λ w r ps.
              (x : Ptr) → 0 < copies x ps → ((db.mem x).weight ≡ w) × ((db.mem x).role ≡ r))
            db.servers s.weight s.role q
            (λ x k. elim (Bool-cases (p == x)) [
              | inl e ↦ ground (arith, e)
              | inr e ↦
                  v.filed s.weight s.role x
                    (ground (arith, e, k, copies-append x (db.servers s.weight s.role) (p ∷ [])))
            ])
            v.filed;
      once =
          set_queue-all (λ w r ps. (x : Ptr) → copies x ps ≤ 1) db.servers s.weight s.role q
            (λ x. ground (
              arith,
              u s.weight s.role,
              v.once s.weight s.role x,
              copies-append x (db.servers s.weight s.role) (p ∷ []),
            ))
            v.once;
    }

module _ (w : ℕ) (r : Role) (p : Ptr) (db : Db) (v : IsRegistry db) where
  pub take_out-IsRegistry : IsRegistry (take_out w r p db)
  unfolding take_out
  take_out-IsRegistry = record {
    filed =
        set_queue-all
          (λ w' r' ps.
            (x : Ptr) → 0 < copies x ps → ((db.mem x).weight ≡ w') × ((db.mem x).role ≡ r'))
          db.servers w r (remove p (db.servers w r))
          (λ x k. v.filed w r x (omega (arith, k, copies-remove x p (db.servers w r)))) v.filed;
    once =
        set_queue-all (λ w' r' ps. (x : Ptr) → copies x ps ≤ 1) db.servers w r
          (remove p (db.servers w r))
          (λ x. omega (arith, v.once w r x, copies-remove x p (db.servers w r))) v.once;
  }

  pub take_out-IsUnlisted : 0 < copies p (db.servers w r) → IsUnlisted p (take_out w r p db)
  unfolding take_out set_queue
  take_out-IsUnlisted k w' r' = elim (Bool-cases (w' == w && role_eq r' r)) [
    | inl hit ↦ rw hit (ground (arith, v.once w r p, copies-remove p p (db.servers w r)))
    | inr miss ↦ rw miss (elim (Bool-cases (copies p (db.servers w' r') == 0)) [
      | inl e ↦ ground arith
      | inr e ↦
          let there : 0 < copies p (db.servers w' r') = ground arith in
          let same_weight : w' ≡ w = sym (v.filed w' r' p there).0 ∙ (v.filed w r p k).0 in
          let same_role : r' ≡ r = sym (v.filed w' r' p there).1 ∙ (v.filed w r p k).1 in
          absurd
            (ground (arith, miss, same_weight, ap (λ x. role_eq x r) same_role, role_eq_refl r))
    ])
  ]

find_in-copies :
    (mem : Ptr → Server) (l : Str) (ps : List Ptr) (p : Ptr)
    → find_in mem l ps ≡ some p
    → 0 < copies p ps
unfolding find_in
find_in-copies mem l [] p e = absurd (ground (arith, e))
find_in-copies mem l (q ∷ qs) p e = elim (Bool-cases (str_eq (mem q).raw l)) [
  | inl h ↦ ground (arith, e, h)
  | inr h ↦
      let more : find_in mem l qs ≡ some p = ground (arith, e, h) in
      ground (arith, find_in-copies mem l qs p more)
]

pub find_server-copies :
    (db : Db) (l : Str) (cs : List Cell) (w : ℕ) (r : Role) (p : Ptr)
    → find_server db l cs ≡ some ((w, r), p)
    → 0 < copies p (db.servers w r)
unfolding find_server
find_server-copies db l [] w r p e = absurd (ground (arith, e))
find_server-copies db l ((x, y) ∷ cs) w r p e =
    elim (Option-cases (find_in db.mem l (db.servers x y))) [
      | inl h ↦ find_server-copies db l cs w r p (rw h at e)
      | inr (q, h) ↦
          let first : Option (Cell × Ptr) = some ((x, y), q) in
          let found : first ≡ some ((w, r), p) = rw h at e in
          let weight : x ≡ w = cc in
          let role : y ≡ r = cc in
          let server : q ≡ p = cc in
          rw (sym weight, sym role, sym server) (find_in-copies db.mem l (db.servers x y) q h)
    ]
