-- ===== src/Core/Plan/Armed.antt =====
-- A plan of src/core.c never runs dry: what lock_private_redis_context() asserts when it has used up
-- the contexts of its plan.
use libvmod_redis.Base.{
  ℕ, zero, suc, ◌+◌, ◌-◌, ◌≤◌, ◌<◌, ◌≡◌, ◌≢◌, refl, ap, ◌∙◌, ◌⊎◌, Bool, true, false, List, [], ◌∷◌,
  if◌then◌else◌, length, All, All-always, Bool-cases, ltb, take, arith, inl, inr,
}
use libvmod_redis.Core.Types.{Ptr, Context, Stats, Task, Db, Env}
use libvmod_redis.Core.Valid.{with_stats}
use libvmod_redis.Core.Plan.{
  Outcome, empty_plan, populate_execution_plan, add_servers, general_match,
}
use libvmod_redis.Core.Plan.Contexts.{Scan, rotate_contexts, scan_task}
use libvmod_redis.Core.Plan.Servers.{Pick, populate_servers}
use libvmod_redis.Core.Plan.Candidates.{IsFiled, candidates}
use libvmod_redis.Core.Plan.Reference.{populate_servers-candidates}
use libvmod_redis.Core.Plan.Registered.{IsRegistered, candidates_served}
use libvmod_redis.Core.Plan.Reuse.{Inv, IsGood, scan_task-Inv, length-rotate_contexts}

-- The contexts of the plan and of the task after the first half of populate_execution_plan().
pub either :
    (Q : Outcome → Type 0) (b : Bool) {x y : Outcome}
    → (b ≡ true → Q x)
    → (b ≡ false → Q y)
    → Q (if b then x else y)
either Q true h k = h refl
either Q false h k = k refl

add_servers-keeps :
    (now ws2 : ℕ) (m : Bool) (slot max_size : ℕ) (o : Outcome)
    → let o' = add_servers now ws2 m slot max_size o in
      (o'.plan.contexts ≡ o.plan.contexts) × (o'.task ≡ o.task)
unfolding add_servers
add_servers-keeps now ws2 m slot max_size o = ground arith

second_half :
    (now ws2 : ℕ) (m : Bool) (slot max_size : ℕ) (o : Outcome)
    → length o.plan.contexts < max_size
    → (add_servers now ws2 m slot max_size o).plan.servers
      ≡ (populate_servers o.db m slot now ws2 (max_size - length o.plan.contexts)).pick.selected
unfolding add_servers
second_half now ws2 m slot max_size o h = ground arith

no_second_half :
    (now ws2 : ℕ) (m : Bool) (slot max_size : ℕ) (o : Outcome)
    → ltb (length o.plan.contexts) max_size ≡ false
    → (add_servers now ws2 m slot max_size o).plan.servers ≡ o.plan.servers
unfolding add_servers
no_second_half now ws2 m slot max_size o h = rw h refl

length-take-le : (n : ℕ) (ps : List Ptr) → length (take n ps) ≤ n
length-take-le zero ps = omega arith
length-take-le (suc n) [] = omega arith
length-take-le (suc n) (p ∷ ps) = omega (arith, length-take-le n ps)

selected-few :
    (ws : ℕ)
    → 8 ≤ ws
    → (db : Db) (slot now : ℕ) (m : Bool) (n : ℕ) → IsFiled db
    → length (populate_servers db m slot now ws n).pick.selected ≤ n
selected-few ws room db slot now m n f =
    rw (ap (λ (k : Pick). k.selected) (populate_servers-candidates ws room db slot now m n f))
      (length-take-le n (candidates db m slot now))

module _ (env : Env) (db : Db) (t : Task) (now ws1 ws2 max_size slot : ℕ) (m : Bool)
    (size : 0 < max_size) (counted : t.ncontexts ≡ length t.contexts)
    (private : db.shared_connections ≡ false) where
  unfoldable pub scanned : Scan
  scanned = scan_task (general_match db m slot) env now ws1 max_size db t

  scanned-Inv :
      (P : Context → Type 0)
      → All P t.contexts
      → Inv P (general_match db m slot) env now ws1 max_size db scanned 0
  unfolding scanned
  scanned-Inv P ps =
      scan_task-Inv P (general_match db m slot) env now ws1 max_size db t size counted ps

  unfoldable pub first_half : Outcome
  unfolding scanned
  first_half = record {
    plan = record empty_plan { contexts = scanned.selected };
    task = record t {
      contexts =
          if scanned.failed then scanned.kept else rotate_contexts scanned.selected scanned.kept;
      ncontexts = scanned.ncontexts;
    };
    db = scanned.db;
    failed = scanned.failed;
  }

  first_half-parts : (first_half.plan.contexts ≡ scanned.selected) × (first_half.db ≡ scanned.db)
  unfolding first_half
  first_half-parts = (refl, refl)

  pub two_halves :
      populate_execution_plan env now ws1 ws2 db t max_size m slot
      ≡ (if scanned.failed then first_half else add_servers now ws2 m slot max_size first_half)
  unfolding populate_execution_plan first_half
  two_halves = simp private

  -- What the plan takes from the task, and what it leaves.
  abbrev pub IsReuse : (Context → Type 0) → Outcome → Type 0
  IsReuse P o =
      All (IsGood P (general_match db m slot) env now ws1 max_size db) o.plan.contexts
      × (length o.plan.contexts ≤ max_size)
      × (o.task.ncontexts ≡ length o.task.contexts)

  first_half-IsReuse : (P : Context → Type 0) → All P t.contexts → IsReuse P first_half
  unfolding first_half
  first_half-IsReuse P ps =
      let i = scanned-Inv P ps in
      (
        i.good,
        i.bounded,
        ground (arith, i.counted, length-rotate_contexts scanned.selected scanned.kept i.present),
      )

  second_half-IsReuse :
      (P : Context → Type 0) (o : Outcome)
      → IsReuse P o
      → IsReuse P (add_servers now ws2 m slot max_size o)
  second_half-IsReuse P o h =
      let (same_plan, same_task) = add_servers-keeps now ws2 m slot max_size o in
      rw (same_plan, same_task) h

  -- For the private connections of a task: every context of a plan is one of the task's that fits the
  -- command and may be used (`P` is any property that all contexts of the task have), the plan has at
  -- most `max_size` of them, and the counter of the task is the number of contexts that it keeps.
  pub populate_execution_plan-IsReuse :
      (P : Context → Type 0)
      → All P t.contexts
      → IsReuse P (populate_execution_plan env now ws1 ws2 db t max_size m slot)
  populate_execution_plan-IsReuse P ps =
      let h = first_half-IsReuse P ps in
      rw two_halves
        (either (IsReuse P) scanned.failed (λ _. h) (λ _. second_half-IsReuse P first_half h))

  abbrev pub IsArmed : Outcome → Type 0
  IsArmed o = (o.plan.contexts ≡ []) ⊎ (length o.plan.contexts ≡ max_size) ⊎ (o.plan.servers ≢ [])

  second_half-IsArmed :
      (o : Outcome) (n : ℕ) (st : Stats) (c : Context) (cs : List Context)
      → 8 ≤ ws2
      → IsFiled db
      → IsRegistered db c
      → general_match db m slot c ≡ true
      → o.db ≡ with_stats db st
      → o.plan.contexts ≡ c ∷ cs
      → max_size ≡ length (c ∷ cs) + suc n
      → (add_servers now ws2 m slot max_size o).plan.servers ≢ []
  second_half-IsArmed o n st c cs room f r g e p k =
      let left : max_size - length o.plan.contexts ≡ suc n = omega (arith, ap length p) in
      let more : length o.plan.contexts < max_size = omega (arith, ap length p) in
      rw (second_half now ws2 m slot max_size o more, e, left)
        (candidates_served (with_stats db st) slot now c r m ws2 n room f
          (unfold general_match in g))

  -- The servers that add_servers() puts in a plan are no more than the tries.
  second_half-few :
      (o : Outcome) (st : Stats)
      → 8 ≤ ws2
      → IsFiled db
      → o.db ≡ with_stats db st
      → o.plan.servers ≡ []
      → length (add_servers now ws2 m slot max_size o).plan.servers ≤ max_size
  second_half-few o st room f e p = elim (Bool-cases (ltb (length o.plan.contexts) max_size)) [
    | inl k ↦
        let n = max_size - length o.plan.contexts in
        rw (second_half now ws2 m slot max_size o (ground (arith, k)), e)
          (omega (arith, selected-few ws2 room (with_stats db st) slot now m n f))
    | inr k ↦ omega (arith, ap length (no_second_half now ws2 m slot max_size o k ∙ p))
  ]

  first_half-servers : first_half.plan.servers ≡ []
  unfolding first_half empty_plan
  first_half-servers = refl

  -- A plan has no more contexts than its task, and no more servers than there are tries.
  pub populate_execution_plan-few :
      8 ≤ ws2
      → IsFiled db
      → let o = populate_execution_plan env now ws1 ws2 db t max_size m slot in
        (o.plan.contexts ≡ scanned.selected) × (length o.plan.servers ≤ max_size)
  populate_execution_plan-few room f =
      let i = scanned-Inv (λ c. Unit {0}) (All-always (λ c. Unit {0}) (λ c. tt) t.contexts) in
      rw two_halves (
        either (λ o. (o.plan.contexts ≡ scanned.selected) × (length o.plan.servers ≤ max_size))
          scanned.failed (λ _. (first_half-parts.0, omega (arith, ap length first_half-servers)))
          (λ _. (
            (add_servers-keeps now ws2 m slot max_size first_half).0 ∙ first_half-parts.0,
            second_half-few first_half scanned.db.stats room f (first_half-parts.1 ∙ i.stats_only)
                first_half-servers,
          )))

  -- For the private connections of a task, with room for a pointer in the workspace at both times, and
  -- with the servers of the task's contexts in their queues: a plan that has contexts has as many as
  -- there are tries, or else has servers for the tries that are left.
  pub populate_execution_plan-IsArmed :
      8 ≤ ws1
      → 8 ≤ ws2
      → IsFiled db
      → All (IsRegistered db) t.contexts
      → IsArmed (populate_execution_plan env now ws1 ws2 db t max_size m slot)
  populate_execution_plan-IsArmed room1 room2 f ps =
      let i = scanned-Inv (IsRegistered db) ps in
      rw two_halves (
        either IsArmed scanned.failed (λ bad. absurd (omega (arith, i.cramped bad)))
          (λ _.
            filled (max_size - length scanned.selected) scanned.selected refl i
              (omega (arith, i.bounded))))
    where
      same_contexts :
          (add_servers now ws2 m slot max_size first_half).plan.contexts ≡ scanned.selected
      same_contexts = (add_servers-keeps now ws2 m slot max_size first_half).0 ∙ first_half-parts.0

      filled :
          (n : ℕ) (cs : List Context)
          → scanned.selected ≡ cs
          → Inv (IsRegistered db) (general_match db m slot) env now ws1 max_size db scanned 0
          → max_size ≡ length cs + n
          → IsArmed (add_servers now ws2 m slot max_size first_half)
      filled n [] e i k = inl (same_contexts ∙ e)
      filled zero (c ∷ cs) e i k = inr (inl (ap length (same_contexts ∙ e) ∙ omega (arith, k)))
      filled (suc n) (c ∷ cs) e i k =
          let (reg, fits, usable) = (rw e at i.good).0 in
          inr (
            inr (
              second_half-IsArmed first_half n scanned.db.stats c cs room2 f reg fits
                (first_half-parts.1 ∙ i.stats_only) (first_half-parts.0 ∙ e) k))
