-- ===== src/Vmod/Command/Arguments.antt =====
-- The arguments that .command() and .push() of src/vmod_redis.c enqueue.
use libvmod_redis.Base.{
  ℕ, zero, suc, ◌<◌, ◌≡◌, refl, sym, ap, ◌∙◌, Bool, true, false, Option, none, some, List, [], ◌∷◌,
  ◌++◌, ltb, ◌==◌, if◌then◌else◌, length, length-append, take, take-nil, arith, Bool-cases, inl,
  inr, Str,
}
use mathlib.Core.List.{append-nil, append_assoc}
use libvmod_redis.Core.Reply.{ℤ}
use libvmod_redis.Core.Types.{Ptr, Task, Db}
use libvmod_redis.Vmod.Command.{
  max_redis_command_args, validate_command_state, owned_by, vmod_db_command, vmod_db_timeout,
  vmod_db_retries, vmod_db_push,
}

-- The arguments of a command of VCL, one call of .push() for each.
abbrev pub push_all : Db → List Str → Option Task → Option Task
push_all db [] priv = priv
push_all db (a ∷ args) priv = push_all db args (vmod_db_push db priv true (some a))

-- The task has a command of the database, with these arguments.
abbrev pub HasArgv : Db → List Str → Option Task → Type 0
HasArgv db argv none = ⊥
HasArgv db argv (some t) = (t.command.argv ≡ argv) × (t.command.db ≡ some db.id)

is_valid :
    (db : Db) (t : Task) (argv : List Str)
    → 0 < length argv
    → t.command.argv ≡ argv
    → t.command.db ≡ some db.id
    → validate_command_state t db ≡ true
unfolding validate_command_state
is_valid db t argv h e d =
    let long : ltb (length t.command.argv) 1 ≡ false = ground (arith, ap length e) in
    rw (long, ap (owned_by db.id) d) (ground arith)

not_valid :
    (db : Db) (t : Task) (p : Ptr)
    → t.command.db ≡ some p
    → (p == db.id) ≡ false
    → validate_command_state t db ≡ false
unfolding validate_command_state
not_valid db t p d other =
    let foreign : owned_by db.id t.command.db ≡ false = ap (owned_by db.id) d ∙ other in
    rw foreign (ground arith)

take-snoc :
    (n : ℕ) (xs : List Str) (a : Str)
    → (if ltb (length (take n xs)) n then take n xs ++ (a ∷ []) else take n xs)
      ≡ take n (xs ++ (a ∷ []))
take-snoc zero xs a = ground arith
take-snoc (suc n) [] a = ground (arith, take-nil {A = Str} n)
take-snoc (suc n) (x ∷ xs) a = ground (arith, take-snoc n xs a)

length-take_pos : (n : ℕ) (xs : List Str) → 0 < length xs → 0 < length (take (suc n) xs)
length-take_pos n [] h = absurd (omega arith)
length-take_pos n (x ∷ xs) h = omega arith

push-HasArgv :
    (db : Db) (argv : List Str) (a : Str) (priv : Option Task)
    → 0 < length argv
    → HasArgv db argv priv
    → HasArgv db
        (if ltb (length argv) max_redis_command_args then argv ++ (a ∷ []) else argv)
        (vmod_db_push db priv true (some a))
unfolding vmod_db_push
push-HasArgv db argv a none h v = elim v [ ]
push-HasArgv db argv a (some t) h v =
    let valid : validate_command_state t db ≡ true = is_valid db t argv h v.0 v.1 in
    elim (Bool-cases (ltb (length argv) max_redis_command_args)) [
      | inl k ↦
          let k' : ltb (length t.command.argv) max_redis_command_args ≡ true =
            ap (λ x. ltb (length x) max_redis_command_args) v.0 ∙ k in
          rw (valid, k, k') (ap (λ x. x ++ (a ∷ [])) v.0, v.1)
      | inr k ↦
          let k' : ltb (length t.command.argv) max_redis_command_args ≡ false =
            ap (λ x. ltb (length x) max_redis_command_args) v.0 ∙ k in
          rw (valid, k, k') v
    ]

push_all-HasArgv :
    (db : Db) (args before : List Str) (priv : Option Task)
    → 0 < length before
    → HasArgv db (take 128 before) priv
    → HasArgv db (take 128 (before ++ args)) (push_all db args priv)
push_all-HasArgv db [] before priv h v = rw (append-nil before) v
push_all-HasArgv db (a ∷ args) before priv h v =
    let one = push-HasArgv db (take 128 before) a priv (length-take_pos 127 before h) v in
    let step : HasArgv db (take 128 (before ++ (a ∷ []))) (vmod_db_push db priv true (some a)) =
      rw (sym (take-snoc 128 before a)) one in
    let rest =
      push_all-HasArgv db args (before ++ (a ∷ [])) (vmod_db_push db priv true (some a))
        (omega (arith, length-append before (a ∷ []))) step in
    rw (append_assoc before (a ∷ []) args) at rest

command-HasArgv :
    (db : Db) (priv : Option Task) (c : ℕ) (cs : Str)
    → HasArgv db ((c ∷ cs) ∷ []) (vmod_db_command db priv (some (c ∷ cs)))
unfolding vmod_db_command
command-HasArgv db priv c cs = (refl, refl)

-- Whatever was enqueued before, .command() with a name that is not empty and then .push() for each
-- argument enqueue for the database the name and the arguments, the first 128 of them.
pub push_all-vmod_db_command :
    (db : Db) (priv : Option Task) (c : ℕ) (cs : Str) (args : List Str)
    → HasArgv db
        (take max_redis_command_args ((c ∷ cs) ∷ args))
        (push_all db args (vmod_db_command db priv (some (c ∷ cs))))
push_all-vmod_db_command db priv c cs args =
    push_all-HasArgv db args ((c ∷ cs) ∷ []) (vmod_db_command db priv (some (c ∷ cs))) (omega arith)
      (command-HasArgv db priv c cs)

-- While the command in a task is of another database, .timeout(), .retries() and .push() leave the task
-- as it is.
pub other_db_lem :
    (db : Db) (t : Task) (p : Ptr) (ms : ℕ) (n : ℤ) (has_room : Bool) (arg : Option Str)
    → t.command.db ≡ some p
    → (p == db.id) ≡ false
    → (vmod_db_timeout db (some t) ms ≡ some t)
      × (vmod_db_retries db (some t) n ≡ some t)
      × (vmod_db_push db (some t) has_room arg ≡ some t)
unfolding vmod_db_timeout vmod_db_retries vmod_db_push
other_db_lem db t p ms n has_room arg e other =
    let invalid : validate_command_state t db ≡ false = not_valid db t p e other in
    (rw invalid refl, rw invalid refl, rw invalid refl)
