-- ===== src/Core/Plan/Sound.antt =====
-- What a plan of src/core.c leaves of the task and the database, of whatever size it is.
use libvmod_redis.Base.{
  ℕ, ◌+◌, ◌≤◌, ◌<◌, ◌≡◌, refl, ap, ◌∙◌, Bool, true, false, ◌||◌, not, List, [], ◌∷◌, ◌++◌, leb, ltb,
  if◌then◌else◌, length, length-append, All-always, arith, Bool-cases, inl, inr,
}
use libvmod_redis.Core.Types.{Ptr, Context, Task, Db, Env}
use libvmod_redis.Core.Valid.{is_valid_redis_context, valid-stats}
use libvmod_redis.Core.Plan.{
  Outcome, empty_plan, add_server, add_servers, simple_match, general_match,
  populate_simple_execution_plan, populate_execution_plan,
}
use libvmod_redis.Core.Plan.Contexts.{Scan, visit_context, scan_contexts, scan_task}
use libvmod_redis.Core.Plan.Candidates.{IsFiled}
use libvmod_redis.Core.Plan.Armed.{
  first_half, scanned, two_halves, either, populate_execution_plan-IsReuse,
  populate_execution_plan-few,
}
use libvmod_redis.Core.Private.Ready.{KeepsMode, KeepsMode-refl, KeepsMode-trans}

-- The loop over the `total` contexts of a task, `rest` of which are still to come.
pub record IsSoundScan (db : Db) (free_ws total : ℕ) (s : Scan) (rest : ℕ) : Type 0 where
  counted : s.ncontexts ≡ length s.kept + rest
  mode : KeepsMode db s.db
  roomy : 8 ≤ free_ws → s.failed ≡ false
  pub few : length s.selected + rest ≤ total

valid-KeepsMode :
    (env : Env) (db : Db) (c : Context) (now : ℕ)
    → KeepsMode db (is_valid_redis_context env db c now).1
valid-KeepsMode env db c now = record {
  sharing = ap (λ d. d.shared_connections) (valid-stats env db c now);
  limit = ap (λ d. d.max_connections) (valid-stats env db c now);
}

module _ (matches : Context → Bool) (env : Env) (now free_ws max_size : ℕ) (db : Db) where
  visit_context-IsSoundScan :
      (total : ℕ) (c : Context) (s : Scan) (rest : ℕ)
      → IsSoundScan db free_ws total s (rest + 1)
      → IsSoundScan db free_ws total (visit_context matches env now free_ws max_size c s) rest
  unfolding visit_context
  visit_context-IsSoundScan total c s rest v =
      let mode' : KeepsMode db (is_valid_redis_context env s.db c now).1 =
        KeepsMode-trans db s.db _ v.mode (valid-KeepsMode env s.db c now) in
      let longer : s.ncontexts ≡ length (s.kept ++ (c ∷ [])) + rest =
        omega (arith, v.counted, length-append s.kept (c ∷ [])) in
      elim (Bool-cases (s.stopped || not (matches c))) [
        | inl out ↦ rw out (record {
          counted = longer;
          mode = v.mode;
          roomy = v.roomy;
          few = omega (arith, v.few);
        })
        | inr enter ↦ elim (Bool-cases (is_valid_redis_context env s.db c now).0) [
          | inr bad ↦
              rw (enter, bad)
                (record {
                  counted = omega (arith, v.counted);
                  mode = mode';
                  roomy = v.roomy;
                  few = omega (arith, v.few);
                })
          | inl ok ↦ elim (Bool-cases (leb 8 free_ws)) [
            | inl room ↦
                rw (enter, ok, room)
                  (record {
                    counted = longer;
                    mode = mode';
                    roomy = v.roomy;
                    few = omega (arith, v.few, length-append s.selected (c ∷ []));
                  })
            | inr tight ↦
                rw (enter, ok, tight)
                  (record {
                    counted = longer;
                    mode = mode';
                    roomy = λ h. absurd (ground (arith, tight, h));
                    few = omega (arith, v.few);
                  })
          ]
        ]
      ]

  scan_contexts-IsSoundScan :
      (total : ℕ) (cs : List Context) (s : Scan)
      → IsSoundScan db free_ws total s (length cs)
      → IsSoundScan db free_ws total (scan_contexts matches env now free_ws max_size cs s) 0
  unfolding scan_contexts
  scan_contexts-IsSoundScan total [] s v = v
  scan_contexts-IsSoundScan total (c ∷ cs) s v =
      scan_contexts-IsSoundScan total cs (visit_context matches env now free_ws max_size c s) (
        visit_context-IsSoundScan total c s (length cs) (record {
          counted = omega (arith, v.counted);
          mode = v.mode;
          roomy = v.roomy;
          few = omega (arith, v.few);
        }))

  pub scan_task-IsSoundScan :
      (t : Task)
      → t.ncontexts ≡ length t.contexts
      → IsSoundScan db free_ws
          (length t.contexts)
          (scan_task matches env now free_ws max_size db t)
          0
  unfolding scan_task
  scan_task-IsSoundScan t counted =
      scan_contexts-IsSoundScan (length t.contexts) t.contexts _ (record {
        counted = omega (arith, counted);
        mode = KeepsMode-refl db;
        roomy = λ h. refl;
        few = omega arith;
      })

-- A plan that is new: the task counts its contexts, the options of the database are as they were, and
-- the turns have not begun.
pub record IsFresh (db : Db) (o : Outcome) : Type 0 where
  pub counted : o.task.ncontexts ≡ length o.task.contexts
  pub mode : KeepsMode db o.db
  pub contexts_next : o.plan.contexts_next ≡ 0
  pub servers_next : o.plan.servers_next ≡ 0

-- The plan for one server, with private connections.
module _ (env : Env) (now ws1 ws2 : ℕ) (db : Db) (t : Task) (max_size : ℕ) (server : Ptr)
    (counted : t.ncontexts ≡ length t.contexts) (private : db.shared_connections ≡ false)
    (room1 : 8 ≤ ws1) (room2 : 8 ≤ ws2) where
  simple_scan : Scan
  simple_scan = scan_task (simple_match db server) env now ws1 max_size db t

  simple_half : Outcome
  unfolding simple_scan
  simple_half = record {
    plan = record empty_plan { contexts = simple_scan.selected };
    task = record t { contexts = simple_scan.kept; ncontexts = simple_scan.ncontexts };
    db = simple_scan.db;
    failed = simple_scan.failed;
  }

  simple_halves :
      populate_simple_execution_plan env now ws1 ws2 db t max_size server
      ≡ (if simple_scan.failed then simple_half else add_server ws2 server simple_half)
  unfolding populate_simple_execution_plan simple_half
  simple_halves = simp private

  -- It has the server, whatever contexts it has.
  pub populate_simple_execution_plan-IsFresh :
      let o = populate_simple_execution_plan env now ws1 ws2 db t max_size server in
      IsFresh db o × (o.plan.servers ≡ server ∷ []) × (length o.plan.contexts ≤ length t.contexts)
  unfolding simple_half simple_scan add_server empty_plan
  populate_simple_execution_plan-IsFresh =
      let v = scan_task-IsSoundScan (simple_match db server) env now ws1 max_size db t counted in
      let enough : leb 8 ws2 ≡ true = ground arith in
      let counted' = v.counted in
      let few = v.few in
      rw (simple_halves, v.roomy room1, enough)
        (
          record {
            counted = omega (arith, counted');
            mode = v.mode;
            contexts_next = refl;
            servers_next = refl;
          },
          refl,
          omega (arith, few),
        )

add_servers-turns :
    (now ws2 : ℕ) (m : Bool) (slot max_size : ℕ) (o : Outcome)
    → let o' = add_servers now ws2 m slot max_size o in
      KeepsMode o.db o'.db
      × (o'.plan.contexts_next ≡ o.plan.contexts_next)
      × (o'.plan.servers_next ≡ o.plan.servers_next)
unfolding add_servers
add_servers-turns now ws2 m slot max_size o =
    elim (Bool-cases (ltb (length o.plan.contexts) max_size)) [
      | inl h ↦ rw h (record { sharing = refl; limit = refl }, refl, refl)
      | inr h ↦ rw h (KeepsMode-refl o.db, refl, refl)
    ]

-- The general plan, with private connections.
module _ (env : Env) (db : Db) (t : Task) (now ws1 ws2 max_size slot : ℕ) (m : Bool)
    (size : 0 < max_size) (counted : t.ncontexts ≡ length t.contexts)
    (private : db.shared_connections ≡ false) where
  -- The turns have not begun, and the options are the database's.
  abbrev HasBegun : Outcome → Type 0
  HasBegun o = KeepsMode db o.db × (o.plan.contexts_next ≡ 0) × (o.plan.servers_next ≡ 0)

  first : Outcome
  first = first_half env db t now ws1 ws2 max_size slot m size counted private

  first-HasBegun : HasBegun first
  unfolding first first_half scanned empty_plan
  first-HasBegun = (
    (scan_task-IsSoundScan (general_match db m slot) env now ws1 max_size db t counted).mode,
    refl,
    refl,
  )

  second-HasBegun : HasBegun (add_servers now ws2 m slot max_size first)
  second-HasBegun =
      let (mode, contexts_next, servers_next) = add_servers-turns now ws2 m slot max_size first in
      let (mode₁, contexts_next₁, servers_next₁) = first-HasBegun in
      (
        KeepsMode-trans db first.db _ mode₁ mode,
        contexts_next ∙ contexts_next₁,
        servers_next ∙ servers_next₁,
      )

  general-HasBegun : HasBegun (populate_execution_plan env now ws1 ws2 db t max_size m slot)
  unfolding first
  general-HasBegun = rw (two_halves env db t now ws1 ws2 max_size slot m size counted private) (
      either HasBegun (scanned env db t now ws1 ws2 max_size slot m size counted private).failed
        (λ _. first-HasBegun) (λ _. second-HasBegun))

  -- It has no more contexts than the task, and no more servers than there are tries.
  pub populate_execution_plan-short :
      8 ≤ ws2
      → IsFiled db
      → let o = populate_execution_plan env now ws1 ws2 db t max_size m slot in
        (length o.plan.contexts ≤ length t.contexts) × (length o.plan.servers ≤ max_size)
  unfolding scanned
  populate_execution_plan-short room f =
      let (e, k) =
        populate_execution_plan-few env db t now ws1 ws2 max_size slot m size counted private room
          f in
      let v = scan_task-IsSoundScan (general_match db m slot) env now ws1 max_size db t counted in
      (omega (arith, ap length e, v.few), k)

  pub populate_execution_plan-IsFresh :
      IsFresh db (populate_execution_plan env now ws1 ws2 db t max_size m slot)
  populate_execution_plan-IsFresh =
      let reuse =
        populate_execution_plan-IsReuse env db t now ws1 ws2 max_size slot m size counted private
          (λ c. Unit {0}) (All-always (λ c. Unit {0}) (λ c. tt) t.contexts) in
      let (mode, contexts_next, servers_next) = general-HasBegun in
      record {
        counted = reuse.2;
        mode = mode;
        contexts_next = contexts_next;
        servers_next = servers_next;
      }
