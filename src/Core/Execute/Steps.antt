-- ===== src/Core/Execute/Steps.antt =====
-- What a try of redis_execute() of src/core.c does to its loop, with the private connections of a task.
use libvmod_redis.Base.{
  ℕ, suc, ◌+◌, ◌<◌, ◌≡◌, ◌≢◌, refl, sym, ap, ◌∙◌, Bool, false, ◌||◌, not, Option, none, some, List,
  [], ◌∷◌, ltb, length, Str, arith, Bool-cases, inl, inr,
}
use libvmod_redis.Core.Reply.{Reply}
use libvmod_redis.Core.Types.{Env, Context, Task, Db}
use libvmod_redis.Core.Plan.{Plan}
use libvmod_redis.Core.Private.{Lock, locked, refused, aborted, blocked, lock_private_redis_context}
use libvmod_redis.Core.Private.Ready.{
  KeepsMode, KeepsMode-refl, KeepsMode-trans, IsReady, ready-IsLocked,
  lock_private_redis_context-KeepsMode, lock_private_redis_context-IsReady,
}
use libvmod_redis.Core.Locking.{lock_redis_context, unlock_redis_context}
use libvmod_redis.Core.Script.{
  Try, Talk, talk, send_plain, send_eval, send_evalsha, is_noscript, str_case_eq, eval_word,
  evalsha_word,
}
use libvmod_redis.Core.Execute.{
  Status, going, crashed, waiting, Loop, try_again, conclude_talk, with_lock, one_try,
}

-- The loop may make `n` more tries.
pub record IsFit (n : ℕ) (l : Loop) : Type 0 where
  pub private : l.db.shared_connections ≡ false
  pub allowed : 0 < l.db.max_connections
  pub counted : l.task.ncontexts ≡ length l.task.contexts
  pub ready : IsReady n l.plan

-- No assertion has failed, and nothing waits.
abbrev pub IsAlive : Status → Type 0
IsAlive s = (s ≢ crashed) × (s ≢ waiting)

-- What follows the lock leaves the plan, the task and the options alone.
record IsAfter (l l' : Loop) : Type 0 where
  same_plan : l'.plan ≡ l.plan
  same_task : l'.task ≡ l.task
  mode : KeepsMode l.db l'.db
  alive : IsAlive l'.status

send_eval-KeepsMode :
    (t : Try) (asking : Bool) (c : Context) (script : Str) (args : List Str) (db : Db)
    → KeepsMode db (send_eval t asking c script args db).db
unfolding send_eval send_plain
send_eval-KeepsMode t asking c script args db = elim (Bool-cases t.room_eval) [
  | inl h ↦ rw h (record { sharing = refl; limit = refl })
  | inr h ↦ rw h (KeepsMode-refl db)
]

module _ (sha1 : Str → Str) where
  send_evalsha-KeepsMode :
      (t : Try) (asking : Bool) (c : Context) (script : Str) (args : List Str) (db : Db)
      → KeepsMode db (send_evalsha sha1 t asking c script args db).db
  unfolding send_evalsha send_plain
  send_evalsha-KeepsMode t asking c script args db =
      let said = send_plain t.first asking c (evalsha_word ∷ sha1 script ∷ args) db in
      elim (Bool-cases (not t.room_evalsha || not t.room_sha1)) [
        | inl h ↦ rw h (KeepsMode-refl db)
        | inr h ↦ elim (Bool-cases (is_noscript t.first_err said.reply)) [
          | inl k ↦ rw (h, k) (send_eval-KeepsMode t asking c script args db)
          | inr k ↦ rw (h, k) (KeepsMode-refl db)
        ]
      ]

  talk-KeepsMode :
      (t : Try) (asking : Bool) (c : Context) (argv : List Str) (db : Db)
      → KeepsMode db (talk sha1 t asking c argv db).db
  unfolding talk send_plain
  talk-KeepsMode t asking c [] db = KeepsMode-refl db
  talk-KeepsMode t asking c (command ∷ []) db = KeepsMode-refl db
  talk-KeepsMode t asking c (command ∷ script ∷ args) db =
      elim (Bool-cases (str_case_eq command eval_word)) [
        | inl k ↦ rw k (send_evalsha-KeepsMode t asking c script args db)
        | inr k ↦ rw k (KeepsMode-refl db)
      ]

try_again-IsAfter :
    (max_retries : ℕ) (o : Option Reply) (l : Loop)
    → l.status ≡ going
    → IsAfter l (try_again max_retries o l)
unfolding try_again
try_again-IsAfter max_retries (some r) l g = record {
  same_plan = refl;
  same_task = refl;
  mode = record { sharing = refl; limit = refl };
  alive = (λ e. ground arith, λ e. ground arith);
}
try_again-IsAfter max_retries none l g = elim (Bool-cases (ltb l.retries max_retries)) [
  | inl k ↦ rw k (record {
    same_plan = refl;
    same_task = refl;
    mode = record { sharing = refl; limit = refl };
    alive = (λ e. ground (arith, sym g ∙ e), λ e. ground (arith, sym g ∙ e));
  })
  | inr k ↦ rw k (record {
    same_plan = refl;
    same_task = refl;
    mode = record { sharing = refl; limit = refl };
    alive = (λ e. ground arith, λ e. ground arith);
  })
]

unlock_private :
    (c : Context) (db : Db) → db.shared_connections ≡ false → unlock_redis_context c db ≡ db
unfolding unlock_redis_context
unlock_private c db private = simp private

unlock_redis_context-KeepsMode :
    (c : Context) (db : Db)
    → db.shared_connections ≡ false
    → KeepsMode db (unlock_redis_context c db)
unlock_redis_context-KeepsMode c db private = rw (unlock_private c db private) (KeepsMode-refl db)

conclude_talk-IsAfter :
    (max_retries : ℕ) (c : Context) (s : Talk) (l : Loop)
    → l.status ≡ going
    → l.db.shared_connections ≡ false
    → KeepsMode l.db s.db
    → IsAfter l (conclude_talk max_retries c s l)
unfolding conclude_talk
conclude_talk-IsAfter max_retries c s l g private mode =
    let released =
      KeepsMode-trans l.db s.db (unlock_redis_context c s.db) mode
        (unlock_redis_context-KeepsMode c s.db (mode.sharing ∙ private)) in
    elim (Bool-cases s.failed_ws) [
      | inl k ↦ rw k (record {
        same_plan = refl;
        same_task = refl;
        mode = released;
        alive = (λ e. ground arith, λ e. ground arith);
      })
      | inr k ↦
          let l' = record l { argv = s.argv; db = unlock_redis_context c s.db } in
          let a = try_again-IsAfter max_retries s.reply l' g in
          rw k (record {
            same_plan = a.same_plan;
            same_task = a.same_task;
            mode = KeepsMode-trans l.db l'.db _ released a.mode;
            alive = a.alive;
          })
    ]

module _ (sha1 : Str → Str) where
  with_lock-IsAfter :
      (t : Try) (max_retries : ℕ) (asking : Bool) (l : Loop) (k : Lock)
      → l.status ≡ going
      → l.db.shared_connections ≡ false
      → k ≢ aborted
      → k ≢ blocked
      → IsAfter l (with_lock sha1 t max_retries asking l k)
  unfolding with_lock
  with_lock-IsAfter t max_retries asking l (locked c) g private a b =
      conclude_talk-IsAfter max_retries c (talk sha1 t asking c l.argv l.db) l g private
        (talk-KeepsMode sha1 t asking c l.argv l.db)
  with_lock-IsAfter t max_retries asking l refused g private a b =
      try_again-IsAfter max_retries none l g
  with_lock-IsAfter t max_retries asking l aborted g private a b = absurd (a refl)
  with_lock-IsAfter t max_retries asking l blocked g private a b = absurd (b refl)

  lock_redis_context-private :
      (env : Env) (now : ℕ) (dial : Option ℕ) (id : ℕ) (others : List (Db → Db)) (plan : Plan)
      (t : Task) (db : Db)
      → db.shared_connections ≡ false
      → lock_redis_context env now dial id others plan t db
        ≡ lock_private_redis_context env now dial id plan t db
  unfolding lock_redis_context
  lock_redis_context-private env now dial id others plan t db private = simp private

  -- A try uses up one of the tries that the loop may make, and the loop stays alive.
  pub one_try-IsFit :
      (t : Try) (max_retries : ℕ) (asking : Bool) (n : ℕ) (l : Loop)
      → l.status ≡ going
      → IsFit (suc n) l
      → let l' = one_try sha1 t max_retries asking l in IsFit n l' × IsAlive l'.status
  unfolding one_try
  one_try-IsFit t max_retries asking n l g f =
      let k = lock_private_redis_context t.env t.now t.dial t.id l.plan l.task l.db in
      let e =
        ready-IsLocked t.env t.now t.dial t.id l.plan l.task l.db n f.ready f.allowed f.counted in
      let m = lock_private_redis_context-KeepsMode t.env t.now t.dial t.id l.plan l.task l.db in
      let r =
        lock_private_redis_context-IsReady t.env t.now t.dial t.id l.plan l.task l.db n f.ready
          f.allowed f.counted in
      let l' = record l { plan = k.plan; task = k.task; db = k.db; tried = l.tried + 1 } in
      let a =
        with_lock-IsAfter t max_retries asking l' k.result g (m.sharing ∙ f.private) e.alive
          e.moving in
      rw (lock_redis_context-private t.env t.now t.dial t.id t.others l.plan l.task l.db f.private)
        (
          record {
            private = a.mode.sharing ∙ m.sharing ∙ f.private;
            allowed = omega (arith, a.mode.limit, m.limit, f.allowed);
            counted =
                ap (λ x. x.ncontexts) a.same_task
                ∙ e.counted
                ∙ sym (ap (λ x. length x.contexts) a.same_task);
            ready = rw a.same_plan r;
          },
          a.alive,
        )
