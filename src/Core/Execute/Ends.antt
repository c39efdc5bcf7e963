-- ===== src/Core/Execute/Ends.antt =====
-- The tries of the loop of redis_execute() of src/core.c, and what it has counted after them.
use libvmod_redis.Base.{
  ℕ, zero, suc, ◌+◌, ◌-◌, ◌≤◌, ◌<◌, ◌≡◌, ◌≢◌, refl, sym, ap, ◌∙◌, Bool, true, false, ◌||◌, Option,
  none, some, List, ltb, length, Str, arith, Bool-cases, inl, inr,
}
use libvmod_redis.Core.Reply.{Reply}
use libvmod_redis.Core.Types.{Ptr, Context, Task, Db}
use libvmod_redis.Core.Plan.{Outcome, plan_execution}
use libvmod_redis.Core.Private.{Lock, locked, refused, aborted, blocked}
use libvmod_redis.Core.Locking.{lock_redis_context, unlock_redis_context}
use libvmod_redis.Core.Script.{Try, Talk, talk}
use libvmod_redis.Core.Execute.{
  Status, going, done, is_going, Loop, Planning, plan_size, try_again, conclude_talk, with_lock,
  one_try, run, fits, execute_plan, redis_execute,
}

pub is_going-true : (s : Status) → is_going s ≡ true → s ≡ going
is_going-true s e = ground arith

pub is_going-false : (s : Status) → is_going s ≡ false → s ≢ going
is_going-false s e g = ground (arith, ap is_going g)

-- A round from `l` to `l'`.
record IsRound (max_retries : ℕ) (l l' : Loop) : Type 0 where
  tried : l'.tried ≡ l.tried
  bounded : l'.retries ≤ max_retries
  continues : l'.status ≡ going → l'.retries ≡ l.retries + 1
  exhausted : l'.status ≡ done → l'.result ≡ none → l'.retries ≡ max_retries

try_again-IsRound :
    (max_retries : ℕ) (o : Option Reply) (l : Loop)
    → l.retries ≤ max_retries
    → l.status ≡ going
    → IsRound max_retries l (try_again max_retries o l)
unfolding try_again
try_again-IsRound max_retries (some r) l h g = record {
  tried = refl;
  bounded = h;
  continues = λ e. ground arith;
  exhausted = λ e f. ground arith;
}
try_again-IsRound max_retries none l h g = elim (Bool-cases (ltb l.retries max_retries)) [
  | inl k ↦ rw k (record {
    tried = refl;
    bounded = ground arith;
    continues = λ e. refl;
    exhausted = λ e f. ground (arith, sym g ∙ e);
  })
  | inr k ↦ rw k (record {
    tried = refl;
    bounded = h;
    continues = λ e. ground arith;
    exhausted = λ e f. ground arith;
  })
]

conclude_talk-IsRound :
    (max_retries : ℕ) (c : Context) (s : Talk) (l : Loop)
    → l.retries ≤ max_retries
    → l.status ≡ going
    → IsRound max_retries l (conclude_talk max_retries c s l)
unfolding conclude_talk
conclude_talk-IsRound max_retries c s l h g = elim (Bool-cases s.failed_ws) [
  | inl k ↦ rw k (record {
    tried = refl;
    bounded = omega arith;
    continues = λ e. ground arith;
    exhausted = λ e f. ground arith;
  })
  | inr k ↦ rw k (
      let r =
        try_again-IsRound max_retries s.reply
          (record l { argv = s.argv; db = unlock_redis_context c s.db }) h g in
      record {
        tried = r.tried;
        bounded = r.bounded;
        continues = r.continues;
        exhausted = r.exhausted;
      })
]

-- No more tries follow, the tries were those that were left, and without a reply no retry is left.
pub record IsOver (max_retries left : ℕ) (l : Loop) : Type 0 where
  pub over : l.status ≢ going
  pub few : l.tried ≤ left
  pub bounded : l.retries ≤ max_retries
  pub exhausted : l.status ≡ done → l.result ≡ none → l.retries ≡ max_retries

module _ (sha1 : Str → Str) where
  with_lock-IsRound :
      (t : Try) (max_retries : ℕ) (asking : Bool) (l : Loop) (k : Lock)
      → l.retries ≤ max_retries
      → l.status ≡ going
      → IsRound max_retries l (with_lock sha1 t max_retries asking l k)
  unfolding with_lock
  with_lock-IsRound t max_retries asking l (locked c) h g =
      conclude_talk-IsRound max_retries c (talk sha1 t asking c l.argv l.db) l h g
  with_lock-IsRound t max_retries asking l refused h g = try_again-IsRound max_retries none l h g
  with_lock-IsRound t max_retries asking l aborted h g = record {
    tried = refl;
    bounded = h;
    continues = λ e. ground arith;
    exhausted = λ e f. ground arith;
  }
  with_lock-IsRound t max_retries asking l blocked h g = record {
    tried = refl;
    bounded = h;
    continues = λ e. ground arith;
    exhausted = λ e f. ground arith;
  }

  run_stops :
      (fuel : ℕ) (tries : ℕ → Try) (max_retries : ℕ) (asking : Bool) (l : Loop)
      → is_going l.status ≡ false
      → run sha1 fuel tries max_retries asking l ≡ l
  unfolding run
  run_stops zero tries max_retries asking l e = refl
  run_stops (suc fuel) tries max_retries asking l e = rw e refl

  pub one_try-IsRound :
      (t : Try) (max_retries : ℕ) (asking : Bool) (l : Loop)
      → l.retries ≤ max_retries
      → l.status ≡ going
      → let l' = one_try sha1 t max_retries asking l in
        (l'.tried ≡ l.tried + 1)
        × (l'.retries ≤ max_retries)
        × (l'.status ≡ going → l'.retries ≡ l.retries + 1)
        × (l'.status ≡ done → l'.result ≡ none → l'.retries ≡ max_retries)
  unfolding one_try
  one_try-IsRound t max_retries asking l h g =
      let k = lock_redis_context t.env t.now t.dial t.id t.others l.plan l.task l.db in
      let r =
        with_lock-IsRound t max_retries asking
          (record l { plan = k.plan; task = k.task; db = k.db; tried = l.tried + 1 }) k.result h
          g in
      (r.tried, r.bounded, r.continues, r.exhausted)

  pub run-IsOver :
      (fuel : ℕ) (tries : ℕ → Try) (max_retries : ℕ) (asking : Bool) (l : Loop)
      → l.status ≡ going
      → l.retries ≤ max_retries
      → max_retries - l.retries < fuel
      → IsOver max_retries
          (l.tried + (max_retries - l.retries + 1))
          (run sha1 fuel tries max_retries asking l)
  unfolding run
  run-IsOver zero tries max_retries asking l g h f = absurd (omega arith)
  run-IsOver (suc fuel) tries max_retries asking l g h f =
      let l' = one_try sha1 (tries l.tried) max_retries asking l in
      let r = one_try-IsRound (tries l.tried) max_retries asking l h g in
      let going_on : is_going l.status ≡ true = ap is_going g in
      rw going_on (elim (Bool-cases (is_going l'.status)) [
        | inl more ↦
            let g' = is_going-true l'.status more in
            let one_more = r.2 g' in
            let o =
              run-IsOver fuel tries max_retries asking l' g' r.1 (omega (arith, one_more, r.1)) in
            record {
              over = o.over;
              few = omega (arith, o.few, one_more, r.0, r.1);
              bounded = o.bounded;
              exhausted = o.exhausted;
            }
        | inr stopped ↦ rw (run_stops fuel tries max_retries asking l' stopped) (record {
          over = is_going-false l'.status stopped;
          few = omega (arith, r.0);
          bounded = r.1;
          exhausted = r.3;
        })
      ])

  -- The loop of redis_execute() stops, or it has come to a failed assertion or to a wait for a connection,
  -- after at most one try more than there are retries left. If it is done without a reply, no retry is
  -- left.
  pub redis_execute-IsOver :
      (p : Planning) (tries : ℕ → Try) (db : Db) (t : Task) (max_retries : ℕ) (argv : List Str)
      (retries : ℕ) (server : Option Ptr) (asking m : Bool) (slot : ℕ)
      → retries ≤ max_retries
      → IsOver max_retries
          (max_retries - retries + 1)
          (redis_execute sha1 p tries db t max_retries argv retries server asking m slot)
  unfolding redis_execute
  redis_execute-IsOver p tries db t max_retries argv retries server asking m slot h =
      let o =
        plan_execution p.env p.now p.has_room p.ws1 p.ws2 db t (plan_size max_retries retries)
          server m slot in
      elim (Bool-cases (fits p.ws1 p.ws2 o)) [
        | inl k ↦ rw k (executed o)
        | inr k ↦ rw k (record {
          over = λ e. ground arith;
          few = omega arith;
          bounded = h;
          exhausted = λ e f. ground arith;
        })
      ]
    where
      ended :
          (l : Loop)
          → l.status ≡ done
          → l.retries ≡ max_retries
          → l.tried ≡ 0
          → IsOver max_retries (max_retries - retries + 1) l
      ended l d r n = record {
        over = λ e. ground (arith, sym d ∙ e);
        few = omega (arith, n);
        bounded = omega (arith, r);
        exhausted = λ _ _. r;
      }

      started : Outcome → Loop
      started o = record {
        plan = o.plan;
        task = o.task;
        db = o.db;
        argv = argv;
        retries = retries;
        result = none;
        status = going;
        tried = 0;
      }

      executed :
          (o : Option Outcome)
          → IsOver max_retries
              (max_retries - retries + 1)
              (execute_plan sha1 tries max_retries argv retries asking o t db)
      executed none = ended _ refl refl refl
      executed (some o) =
          elim (Bool-cases (ltb 0 (length o.plan.contexts) || ltb 0 (length o.plan.servers))) [
            | inl k ↦
                let v =
                  run-IsOver (max_retries - retries + 1) tries max_retries asking (started o) refl h
                    (omega arith) in
                rw k (record {
                  over = v.over;
                  few = omega (arith, v.few);
                  bounded = v.bounded;
                  exhausted = v.exhausted;
                })
            | inr k ↦ rw k (ended _ refl refl refl)
          ]
