-- ===== src/Vmod/Execute/Served.antt =====
-- What .execute() of src/vmod_redis.c promises.
use libvmod_redis.Base.{
  ℕ, ◌+◌, ◌*◌, ◌^◌, ◌≤◌, ◌<◌, ◌≡◌, refl, Bool, true, false, Option, none, length, Str, All, arith,
  Bool-cases, inl, inr,
}
use libvmod_redis.Core.Types.{Ptr, Task, Db}
use libvmod_redis.Core.Plan.Candidates.{IsFiled}
use libvmod_redis.Core.Plan.Registered.{IsRegistered}
use libvmod_redis.Core.Execute.{done, Loop, redis_execute}
use libvmod_redis.Core.Execute.Completes.{HasReturned, redis_execute-completes}
use libvmod_redis.Cluster.Hops.{Around}
use libvmod_redis.Cluster.Hops.Final.{IsPlain, cluster_execute-IsFinal}
use libvmod_redis.Vmod.Command.{get_task_state, validate_command_state}
use libvmod_redis.Vmod.Execute.{
  forces_master, execute_standalone, execute_clustered, vmod_db_execute,
}

-- A task that may use private connections to a database: room in the workspace for its contexts and for a
-- server for each try, a counter that is right, contexts of registered servers, and a number of tries that
-- is an unsigned.
pub record IsEquipped (a : Around) (db : Db) (t : Task) : Type 0 where
  pub private : db.shared_connections ≡ false
  pub allowed : 0 < db.max_connections
  pub counted : t.ncontexts ≡ length t.contexts
  pub room1 : 8 ≤ a.planning.ws1
  pub room2 : 8 * length t.contexts ≤ a.planning.ws1
  pub room3 : 8 * (t.command.max_retries + 1) ≤ a.planning.ws2
  pub few : t.command.max_retries + 1 < 2 ^ 32
  pub filed : IsFiled db
  pub registered : All (IsRegistered db) t.contexts

module _ (sha1 : Str → Str) (crc16 : Str → ℕ) where
  standalone_run :
      (around : ℕ → Around) (db : Db) (next : Ptr) (priv : Option Task) (m : Bool)
      → validate_command_state (get_task_state priv false) db ≡ true
      → db.enabled ≡ false
      → let t = get_task_state priv false in
        vmod_db_execute sha1 crc16 around db next priv m
        ≡ execute_standalone sha1 crc16 (around 0) db next t (forces_master db t.command.argv m)
  unfolding vmod_db_execute
  standalone_run around db next priv m k standalone = simp (k, standalone)

  clustered_run :
      (around : ℕ → Around) (db : Db) (next : Ptr) (priv : Option Task) (m : Bool)
      → validate_command_state (get_task_state priv false) db ≡ true
      → db.enabled ≡ true
      → let t = get_task_state priv false in
        vmod_db_execute sha1 crc16 around db next priv m
        ≡ execute_clustered sha1 crc16 around db next t (forces_master db t.command.argv m)
  unfolding vmod_db_execute
  clustered_run around db next priv m k clustered = simp (k, clustered)

  not_run :
      (around : ℕ → Around) (db : Db) (next : Ptr) (priv : Option Task) (m : Bool)
      → validate_command_state (get_task_state priv false) db ≡ false
      → vmod_db_execute sha1 crc16 around db next priv m
        ≡ record { task = get_task_state priv false; db = db; next = next; status = done }
  unfolding vmod_db_execute
  not_run around db next priv m k = simp k

  -- The first round of a command.
  first_round : Around → Db → Task → Bool → ℕ → Loop
  first_round a db t m slot =
      redis_execute sha1 a.planning a.tries db t t.command.max_retries t.command.argv 0 none false m
        slot

  first_round-returns :
      (a : Around) (db : Db) (t : Task) (m : Bool) (slot : ℕ)
      → IsEquipped a db t
      → HasReturned (first_round a db t m slot).status
  unfolding first_round
  first_round-returns a db t m slot e =
      let complete =
        redis_execute-completes sha1 a.planning a.tries db t t.command.max_retries t.command.argv 0
          none false m slot e.private e.allowed e.counted e.room1 e.room2 e.room3 (omega arith)
          (inr (refl, e.few, e.filed, e.registered)) in
      complete.returns

  -- Without clustering, for a task that is equipped for private connections as above, with room in the
  -- workspace for its plan, .execute() returns, whatever the servers answer: it is done, with or without a reply, or it fails the task for want of room.
  pub vmod_db_execute-completes :
      (around : ℕ → Around) (db : Db) (next : Ptr) (priv : Option Task) (m : Bool)
      → db.enabled ≡ false
      → IsEquipped (around 0) db (get_task_state priv false)
      → HasReturned (vmod_db_execute sha1 crc16 around db next priv m).status
  unfolding execute_standalone first_round
  vmod_db_execute-completes around db next priv m standalone e =
      let t = get_task_state priv false in
      elim (Bool-cases (validate_command_state t db)) [
        | inr k ↦ rw (not_run around db next priv m k) (inl refl)
        | inl k ↦
            rw (standalone_run around db next priv m k standalone)
              (first_round-returns (around 0) db t (forces_master db t.command.argv m) 0 e)
      ]

  -- With clustering, .execute() of a command of the database stores no redirection as the reply,
  -- whatever the servers answer.
  pub vmod_db_execute-IsPlain :
      (around : ℕ → Around) (db : Db) (next : Ptr) (priv : Option Task) (m : Bool)
      → db.enabled ≡ true
      → validate_command_state (get_task_state priv false) db ≡ true
      → IsPlain (vmod_db_execute sha1 crc16 around db next priv m).task.command.reply
  unfolding execute_clustered
  vmod_db_execute-IsPlain around db next priv m clustered k =
      let t = get_task_state priv false in
      let v =
        cluster_execute-IsFinal sha1 crc16 around db next t t.command.max_retries t.command.argv 0
          (forces_master db t.command.argv m) (omega arith) in
      rw (clustered_run around db next priv m k clustered) v.plain
