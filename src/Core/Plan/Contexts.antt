-- ===== src/Core/Plan/Contexts.antt =====
-- The first half of populate_simple_execution_plan() and populate_execution_plan() of src/core.c:
-- the selection of private contexts. `free_ws` is the room in the workspace, in bytes.
use libvmod_redis.Base.{
  ℕ, ◌+◌, ◌-◌, Bool, true, false, ◌||◌, List, [], ◌∷◌, ◌++◌, leb, ◌==◌, not, if◌then◌else◌, length,
}
use libvmod_redis.Core.Types.{Context, Task, Db, Env}
use libvmod_redis.Core.Valid.{is_valid_redis_context}

-- sizeof(redis_context_t *) and sizeof(redis_server_t *).
abbrev pub sizeof_ptr : ℕ
sizeof_ptr = 8

-- The loop over the private contexts of a task: those selected for the plan, those that stay in the
-- task, their counter, the database, and whether the loop has ended, by `break` or by a failure.
pub record Scan : Type 0 where
  pub selected : List Context
  pub kept : List Context
  pub ncontexts : ℕ
  pub db : Db
  pub stopped : Bool
  pub failed : Bool

unfoldable pub visit_context : (Context → Bool) → Env → ℕ → ℕ → ℕ → Context → Scan → Scan
visit_context matches env now free_ws max_size c s =
    if s.stopped || not (matches c)
    then record s { kept = s.kept ++ (c ∷ []) }
    else let (valid, db) = is_valid_redis_context env s.db c now in
      if not valid
      then record s { ncontexts = s.ncontexts - 1; db = db }
      else if leb sizeof_ptr free_ws
      then record s {
        selected = s.selected ++ (c ∷ []);
        kept = s.kept ++ (c ∷ []);
        db = db;
        stopped = length s.selected + 1 == max_size;
      }
      else record s { kept = s.kept ++ (c ∷ []); db = db; stopped = true; failed = true }

unfoldable pub scan_contexts : (Context → Bool) → Env → ℕ → ℕ → ℕ → List Context → Scan → Scan
unfolding visit_context
scan_contexts matches env now free_ws max_size [] s = s
scan_contexts matches env now free_ws max_size (c ∷ cs) s =
    scan_contexts matches env now free_ws max_size cs
      (visit_context matches env now free_ws max_size c s)

-- VTAILQ_REMOVE and VTAILQ_INSERT_TAIL of the first selected context.
unfoldable pub remove_context : ℕ → List Context → List Context
remove_context i [] = []
remove_context i (c ∷ cs) = if c.id == i then cs else c ∷ remove_context i cs

unfoldable pub rotate_contexts : List Context → List Context → List Context
unfolding remove_context
rotate_contexts [] cs = cs
rotate_contexts (c ∷ _) cs = remove_context c.id cs ++ (c ∷ [])

unfoldable pub scan_task : (Context → Bool) → Env → ℕ → ℕ → ℕ → Db → Task → Scan
unfolding scan_contexts
scan_task matches env now free_ws max_size db t =
    scan_contexts matches env now free_ws max_size t.contexts (record {
      selected = [];
      kept = [];
      ncontexts = t.ncontexts;
      db = db;
      stopped = false;
      failed = false;
    })
