-- ===== src/Core/Execute/Completes.antt =====
-- redis_execute() of src/core.c comes to an end, with the private connections of a task.
use libvmod_redis.Base.{
  ℕ, ◌+◌, ◌-◌, ◌*◌, ◌^◌, ◌≤◌, ◌<◌, ◌≡◌, ◌≢◌, ◌⊎◌, refl, Bool, false, Option, none, List, length,
  Str, All, inl, inr,
}
use libvmod_redis.Core.Types.{Ptr, Task, Db}
use libvmod_redis.Core.Plan.Candidates.{IsFiled}
use libvmod_redis.Core.Plan.Registered.{IsRegistered}
use libvmod_redis.Core.Script.{Try}
use libvmod_redis.Core.Execute.{
  Status, going, done, out_of_room, crashed, waiting, Loop, Planning, redis_execute,
}
use libvmod_redis.Core.Execute.Ends.{redis_execute-IsOver}
use libvmod_redis.Core.Execute.Alive.{redis_execute-IsAlive}

-- The function has returned, and not from a failed assertion.
abbrev pub HasReturned : Status → Type 0
HasReturned s = (s ≡ done) ⊎ (s ≡ out_of_room)

returned : (s : Status) → s ≢ going → s ≢ crashed → s ≢ waiting → HasReturned s
returned going a b c = absurd (a refl)
returned done a b c = inl refl
returned out_of_room a b c = inr refl
returned crashed a b c = absurd (b refl)
returned waiting a b c = absurd (c refl)

-- It has returned after at most `left` tries; if it is done without a reply, no retry is left.
pub record IsComplete (max_retries left : ℕ) (l : Loop) : Type 0 where
  pub returns : HasReturned l.status
  pub few : l.tried ≤ left
  pub exhausted : l.status ≡ done → l.result ≡ none → l.retries ≡ max_retries

-- With private connections, at least one of them allowed, and room in the workspace for the contexts of
-- the task and for as many servers as there may be tries, redis_execute() returns, whatever the servers
-- answer: it is done, or the task is failed for want of room, and neither an assertion has failed nor is
-- it waiting. There is at most one try more than there are retries left, and no retry is left if it is
-- done without a reply. The command goes to a given server, or it is the first round, the servers of the
-- task's contexts being in their queues, and the number of tries an unsigned.
pub redis_execute-completes :
    (sha1 : Str → Str) (p : Planning) (tries : ℕ → Try) (db : Db) (t : Task) (max_retries : ℕ)
    (argv : List Str) (retries : ℕ) (server : Option Ptr) (asking m : Bool) (slot : ℕ)
    → db.shared_connections ≡ false
    → 0 < db.max_connections
    → t.ncontexts ≡ length t.contexts
    → 8 ≤ p.ws1
    → 8 * length t.contexts ≤ p.ws1
    → 8 * (max_retries + 1) ≤ p.ws2
    → retries ≤ max_retries
    → (server ≢ none)
      ⊎ ((retries ≡ 0) × (max_retries + 1 < 2 ^ 32) × IsFiled db × All (IsRegistered db) t.contexts)
    → IsComplete max_retries
        (max_retries - retries + 1)
        (redis_execute sha1 p tries db t max_retries argv retries server asking m slot)
redis_execute-completes sha1 p tries db t max_retries argv retries server asking m slot private
      allowed counted room1 room2 room3 h e =
    let o =
      redis_execute-IsOver sha1 p tries db t max_retries argv retries server asking m slot h in
    let a =
      redis_execute-IsAlive sha1 p tries db t max_retries argv retries server asking m slot private
        allowed counted room1 room2 room3 h e in
    record { returns = returned _ o.over a.0 a.1; few = o.few; exhausted = o.exhausted }
