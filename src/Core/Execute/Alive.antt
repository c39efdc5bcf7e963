-- ===== src/Core/Execute/Alive.antt =====
-- redis_execute() of src/core.c does not run into a failed assertion, or into a wait, with the private
-- connections of a task: its plan lasts for all its tries.
use libvmod_redis.Base.{
  ℕ, zero, suc, ◌+◌, ◌-◌, ◌*◌, ◌^◌, ◌≤◌, ◌<◌, ◌≡◌, ◌≢◌, ◌⊎◌, refl, sym, ap, ◌∙◌, Bool, true, false,
  ◌||◌, Option, none, some, List, [], ◌∷◌, ltb, length, Str, All, arith, Bool-cases, inl, inr,
}
use native.Mathlib.Nat.{mod-eq_of_lt}
use libvmod_redis.Core.Types.{Ptr, Context, Task, Db}
use libvmod_redis.Core.Plan.{
  Outcome, plan_execution, populate_execution_plan, populate_simple_execution_plan,
}
use libvmod_redis.Core.Plan.Candidates.{IsFiled}
use libvmod_redis.Core.Plan.Registered.{IsRegistered}
use libvmod_redis.Core.Plan.Armed.{populate_execution_plan-IsArmed}
use libvmod_redis.Core.Plan.Sound.{
  populate_execution_plan-IsFresh, populate_execution_plan-short,
  populate_simple_execution_plan-IsFresh,
}
use libvmod_redis.Core.Private.Ready.{IsReady}
use libvmod_redis.Core.Script.{Try}
use libvmod_redis.Core.Execute.{
  going, is_going, Loop, Planning, fits, plan_size, one_try, run, execute_plan, redis_execute,
}
use libvmod_redis.Core.Execute.Ends.{is_going-true, one_try-IsRound}
use libvmod_redis.Core.Execute.Steps.{IsFit, IsAlive, one_try-IsFit}

-- A plan that serves all the tries that are left, or none.
record IsEnough (n : ℕ) (o : Outcome) : Type 0 where
  private : o.db.shared_connections ≡ false
  allowed : 0 < o.db.max_connections
  counted : o.task.ncontexts ≡ length o.task.contexts
  contexts_next : o.plan.contexts_next ≡ 0
  servers_next : o.plan.servers_next ≡ 0
  armed : (o.plan.contexts ≡ []) ⊎ (length o.plan.contexts ≡ n) ⊎ (o.plan.servers ≢ [])

enough-IsReady :
    (n : ℕ) (o : Outcome)
    → 0 < n
    → IsEnough n o
    → (ltb 0 (length o.plan.contexts) || ltb 0 (length o.plan.servers)) ≡ true
    → IsReady n o.plan
enough-IsReady n o z e k = record {
  lasts = lasts o.plan.contexts o.plan.servers e.armed k;
  in_turn = in_turn o.plan.servers;
}
  where
    in_turn : (ps : List Ptr) → (ps ≡ []) ⊎ (o.plan.servers_next < length ps)
    in_turn [] = inl refl
    in_turn (p ∷ ps) = inr (omega (arith, e.servers_next))

    turn : (ps : List Ptr) → ps ≢ [] → o.plan.servers_next < length ps
    turn [] ne = absurd (ne refl)
    turn (p ∷ ps) ne = omega (arith, e.servers_next)

    lasts :
        (cs : List Context) (ps : List Ptr)
        → (cs ≡ []) ⊎ (length cs ≡ n) ⊎ (ps ≢ [])
        → (ltb 0 (length cs) || ltb 0 (length ps)) ≡ true
        → (o.plan.contexts_next + n ≤ length cs) ⊎ (o.plan.servers_next < length ps)
    lasts cs (p ∷ ps) a h = inr (omega (arith, e.servers_next))
    lasts (c ∷ cs) [] (inl a) h = absurd (omega (arith, ap length a))
    lasts [] [] a h = absurd (ground arith)
    lasts cs ps (inr (inl a)) h = inl (omega (arith, e.contexts_next, a))
    lasts cs ps (inr (inr a)) h = inr (turn ps a)

module _ (sha1 : Str → Str) where
  run-IsAlive :
      (fuel : ℕ) (tries : ℕ → Try) (max_retries : ℕ) (asking : Bool) (n : ℕ) (l : Loop)
      → IsAlive l.status
      → l.retries ≤ max_retries
      → (l.status ≡ going → n + l.retries ≡ max_retries + 1)
      → IsFit n l
      → IsAlive (run sha1 fuel tries max_retries asking l).status
  unfolding run
  run-IsAlive zero tries max_retries asking n l a h k f = a
  run-IsAlive (suc fuel) tries max_retries asking zero l a h k f =
      elim (Bool-cases (is_going l.status)) [
        | inr stopped ↦ rw stopped a
        | inl more ↦ absurd (omega (arith, k (is_going-true l.status more), h))
      ]
  run-IsAlive (suc fuel) tries max_retries asking (suc n) l a h k f =
      elim (Bool-cases (is_going l.status)) [
        | inr stopped ↦ rw stopped a
        | inl more ↦
            let g = is_going-true l.status more in
            let (f', a') = one_try-IsFit sha1 (tries l.tried) max_retries asking n l g f in
            let (tried, bounded, continues, exhausted) =
              one_try-IsRound sha1 (tries l.tried) max_retries asking l h g in
            rw more (
              run-IsAlive fuel tries max_retries asking n
                (one_try sha1 (tries l.tried) max_retries asking l) a' bounded
                (λ g'. omega (arith, continues g', k g)) f')
      ]

  execute_plan-IsAlive :
      (tries : ℕ → Try) (max_retries : ℕ) (argv : List Str) (retries : ℕ) (asking : Bool)
      (o : Outcome) (t : Task) (db : Db)
      → retries ≤ max_retries
      → IsEnough (max_retries - retries + 1) o
      → IsAlive (execute_plan sha1 tries max_retries argv retries asking (some o) t db).status
  unfolding execute_plan
  execute_plan-IsAlive tries max_retries argv retries asking o t db h e =
      elim (Bool-cases (ltb 0 (length o.plan.contexts) || ltb 0 (length o.plan.servers))) [
        | inr k ↦ rw k ((λ e. ground arith), (λ e. ground arith))
        | inl k ↦ rw k (
            run-IsAlive (max_retries - retries + 1) tries max_retries asking
              (max_retries - retries + 1) _ ((λ e. ground arith), (λ e. ground arith)) h
              (λ g. omega (arith, h))
              (record {
                private = e.private;
                allowed = e.allowed;
                counted = e.counted;
                ready = enough-IsReady (max_retries - retries + 1) o (omega arith) e k;
              }))
      ]

  -- The plan of the first round.
  general_plan-IsEnough :
      (p : Planning) (db : Db) (t : Task) (n : ℕ) (m : Bool) (slot : ℕ)
      → 0 < n
      → db.shared_connections ≡ false
      → 0 < db.max_connections
      → t.ncontexts ≡ length t.contexts
      → 8 ≤ p.ws1
      → 8 ≤ p.ws2
      → IsFiled db
      → All (IsRegistered db) t.contexts
      → IsEnough n (populate_execution_plan p.env p.now p.ws1 p.ws2 db t n m slot)
  general_plan-IsEnough p db t n m slot size private allowed counted room1 room2 filed registered =
      let fresh =
        populate_execution_plan-IsFresh p.env db t p.now p.ws1 p.ws2 n slot m size counted
          private in
      record {
        private = fresh.mode.sharing ∙ private;
        allowed = omega (arith, fresh.mode.limit, allowed);
        counted = fresh.counted;
        contexts_next = fresh.contexts_next;
        servers_next = fresh.servers_next;
        armed =
            populate_execution_plan-IsArmed p.env db t p.now p.ws1 p.ws2 n slot m size counted
              private room1 room2 filed registered;
      }

  -- The plan of a round with a given server.
  simple_plan-IsEnough :
      (p : Planning) (db : Db) (t : Task) (n max_size : ℕ) (server : Ptr)
      → db.shared_connections ≡ false
      → 0 < db.max_connections
      → t.ncontexts ≡ length t.contexts
      → 8 ≤ p.ws1
      → 8 ≤ p.ws2
      → IsEnough n (populate_simple_execution_plan p.env p.now p.ws1 p.ws2 db t max_size server)
  simple_plan-IsEnough p db t n max_size server private allowed counted room1 room2 =
      let (fresh, s, c) =
        populate_simple_execution_plan-IsFresh p.env p.now p.ws1 p.ws2 db t max_size server counted
          private room1 room2 in
      record {
        private = fresh.mode.sharing ∙ private;
        allowed = omega (arith, fresh.mode.limit, allowed);
        counted = fresh.counted;
        contexts_next = fresh.contexts_next;
        servers_next = fresh.servers_next;
        armed = inr (inr (λ e. omega (arith, ap length (sym s ∙ e))));
      }

  -- Room for a list.
  fits-lists :
      (p : Planning) (o : Outcome)
      → 8 * length o.plan.contexts ≤ p.ws1
      → 8 * length o.plan.servers ≤ p.ws2
      → fits p.ws1 p.ws2 (some o) ≡ true
  fits-lists p o h k = ground (arith, h, k)

  general_plan-fits :
      (p : Planning) (db : Db) (t : Task) (n : ℕ) (m : Bool) (slot : ℕ)
      → 0 < n
      → db.shared_connections ≡ false
      → t.ncontexts ≡ length t.contexts
      → 8 * length t.contexts ≤ p.ws1
      → 8 * n ≤ p.ws2
      → IsFiled db
      → fits p.ws1 p.ws2 (some (populate_execution_plan p.env p.now p.ws1 p.ws2 db t n m slot))
        ≡ true
  general_plan-fits p db t n m slot size private counted room1 room2 filed =
      let (c, s) =
        populate_execution_plan-short p.env db t p.now p.ws1 p.ws2 n slot m size counted private
          (omega (arith, size, room2)) filed in
      fits-lists p (populate_execution_plan p.env p.now p.ws1 p.ws2 db t n m slot)
        (omega (arith, c, room1)) (omega (arith, s, room2))

  simple_plan-fits :
      (p : Planning) (db : Db) (t : Task) (max_size : ℕ) (server : Ptr)
      → db.shared_connections ≡ false
      → t.ncontexts ≡ length t.contexts
      → 8 ≤ p.ws1
      → 8 * length t.contexts ≤ p.ws1
      → 8 ≤ p.ws2
      → fits p.ws1 p.ws2
          (some (populate_simple_execution_plan p.env p.now p.ws1 p.ws2 db t max_size server))
        ≡ true
  simple_plan-fits p db t max_size server private counted roomy room1 room2 =
      let (fresh, s, c) =
        populate_simple_execution_plan-IsFresh p.env p.now p.ws1 p.ws2 db t max_size server counted
          private roomy room2 in
      fits-lists p (populate_simple_execution_plan p.env p.now p.ws1 p.ws2 db t max_size server)
        (omega (arith, c, room1)) (omega (arith, ap length s, room2))

  plan_size-first :
      (max_retries retries : ℕ)
      → retries ≡ 0
      → max_retries + 1 < 2 ^ 32
      → plan_size max_retries retries ≡ max_retries - retries + 1
  unfolding plan_size
  plan_size-first max_retries retries z small =
      rw z
        (omega (arith, mod-eq_of_lt {n = 1 + max_retries - 0} {m = 2 ^ 32} (omega (arith, small))))

  -- With private connections, at least one of them allowed, and room in the workspace for the contexts of
  -- the task and for as many servers as there may be tries, redis_execute() neither runs into a failed assertion nor waits: its plan lasts for all its tries. The
  -- command goes to a given server, or it is the first round, the servers of the task's contexts being
  -- in their queues, and the number of tries an unsigned.
  pub redis_execute-IsAlive :
      (p : Planning) (tries : ℕ → Try) (db : Db) (t : Task) (max_retries : ℕ) (argv : List Str)
      (retries : ℕ) (server : Option Ptr) (asking m : Bool) (slot : ℕ)
      → db.shared_connections ≡ false
      → 0 < db.max_connections
      → t.ncontexts ≡ length t.contexts
      → 8 ≤ p.ws1
      → 8 * length t.contexts ≤ p.ws1
      → 8 * (max_retries + 1) ≤ p.ws2
      → retries ≤ max_retries
      → (server ≢ none)
        ⊎ ((retries ≡ 0)
            × (max_retries + 1 < 2 ^ 32)
            × IsFiled db
            × All (IsRegistered db) t.contexts)
      → IsAlive
          (redis_execute sha1 p tries db t max_retries argv retries server asking m slot).status
  unfolding redis_execute plan_execution
  redis_execute-IsAlive p tries db t max_retries argv retries none asking m slot private allowed
        counted room1 room2 room3 h (inl s) =
      absurd (s refl)
  redis_execute-IsAlive p tries db t max_retries argv retries none asking m slot private allowed
        counted room1 room2 room3 h (inr (z, small, filed, registered)) =
      elim (Bool-cases p.has_room) [
        | inr k ↦ rw k ((λ e. ground arith), (λ e. ground arith))
        | inl k ↦
            rw
              (
                k,
                plan_size-first max_retries retries z small,
                general_plan-fits p db t (max_retries - retries + 1) m slot (omega arith) private
                    counted room2 (omega (arith, room3, h)) filed,
              )
              (execute_plan-IsAlive tries max_retries argv retries asking _ t db h (
                general_plan-IsEnough p db t (max_retries - retries + 1) m slot (omega arith)
                  private allowed counted room1 (omega (arith, room3)) filed registered))
      ]
  redis_execute-IsAlive p tries db t max_retries argv retries (some server) asking m slot private
        allowed counted room1 room2 room3 h e =
      elim (Bool-cases p.has_room) [
        | inr k ↦ rw k ((λ e. ground arith), (λ e. ground arith))
        | inl k ↦
            rw
              (
                k,
                simple_plan-fits p db t (plan_size max_retries retries) server private counted room1
                    room2 (omega (arith, room3)),
              )
              (execute_plan-IsAlive tries max_retries argv retries asking _ t db h (
                simple_plan-IsEnough p db t (max_retries - retries + 1)
                  (plan_size max_retries retries) server private allowed counted room1
                  (omega (arith, room3))))
      ]
