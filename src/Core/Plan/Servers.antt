-- ===== src/Core/Plan/Servers.antt =====
-- The second half of populate_execution_plan() of src/core.c: the rounds over the queues of servers.
-- `free_ws` is the room in the workspace, in bytes. The loops do not reduce it; whether what they have
-- written fits is asked in Core/Execute, where a plan that does not fit aborts the worker.
use libvmod_redis.Base.{
  ℕ, ◌-◌, Bool, true, false, ◌&&◌, ◌||◌, Option, none, some, List, [], ◌∷◌, ◌++◌, ltb, leb, ◌==◌,
  not, if◌then◌else◌, length,
}
use libvmod_redis.Core.Types.{Ptr, Role, slave, master, tbd, role_eq, Db, Queues, set_queue}
use libvmod_redis.Core.Plan.Contexts.{sizeof_ptr}

-- The loops over a queue of servers: those selected, how many may still be, and whether the
-- workspace has failed.
pub record Pick : Type 0 where
  pub selected : List Ptr
  pub remaining : ℕ
  pub failed : Bool

unfoldable pub visit_server : (Ptr → Bool) → ℕ → Ptr → Pick → Pick
visit_server eligible free_ws p s =
    if s.failed || s.remaining == 0 || not (eligible p)
    then s
    else if leb sizeof_ptr free_ws
    then record s { selected = s.selected ++ (p ∷ []); remaining = s.remaining - 1 }
    else record s { failed = true }

unfoldable pub scan_servers : (Ptr → Bool) → ℕ → List Ptr → Pick → Pick
unfolding visit_server
scan_servers eligible free_ws [] s = s
scan_servers eligible free_ws (p ∷ ps) s =
    scan_servers eligible free_ws ps (visit_server eligible free_ws p s)

-- VTAILQ_REMOVE of the element `p`.
unfoldable pub remove : Ptr → List Ptr → List Ptr
remove p [] = []
remove p (q ∷ qs) = if q == p then qs else q ∷ remove p qs

-- VTAILQ_REMOVE, then VTAILQ_INSERT_TAIL.
unfoldable pub move_to_tail : Ptr → List Ptr → List Ptr
unfolding remove
move_to_tail p qs = remove p qs ++ (p ∷ [])

-- The first server that a queue added to the plan, which held `n` servers before.
unfoldable pub first_added : ℕ → List Ptr → Option Ptr
first_added n [] = none
first_added n (p ∷ ps) = if n == 0 then some p else first_added (n - 1) ps

unfoldable pub rotate : Option Ptr → List Ptr → List Ptr
unfolding move_to_tail
rotate none qs = qs
rotate (some p) qs = move_to_tail p qs

-- Which queues a round looks at, and which of their servers it takes.
unfoldable pub round_role : Bool → ℕ → Role → Bool
round_role false round r = true
round_role true round r =
    (round == 1 && role_eq r master) || (round == 2 && (role_eq r master || role_eq r tbd))

unfoldable pub round_server : Db → Bool → ℕ → ℕ → ℕ → Ptr → Bool
round_server db m slot now round p =
    (not db.enabled || (db.mem p).slots slot)
    && ((round == 1 && leb (db.mem p).sickness_exp now)
        || (round == 2 && ((m && role_eq (db.mem p).role tbd) || ltb now (db.mem p).sickness_exp)))

unfoldable pub last_round_server : Db → ℕ → ℕ → Ptr → Bool
last_round_server db now round p =
    (round == 3 && leb (db.mem p).sickness_exp now)
    || (round == 4 && ltb now (db.mem p).sickness_exp)

-- The order of the two loops, by weight and by role.
abbrev pub Cell : Type 0
Cell = ℕ × Role

abbrev pub row : ℕ → List Cell
row w = (w, slave) ∷ (w, master) ∷ (w, tbd) ∷ []

unfoldable pub grid : List Cell
grid = row 0 ++ (row 1 ++ (row 2 ++ row 3))

-- The queues, and what has been selected so far.
pub record Walk : Type 0 where
  pub queues : Queues
  pub pick : Pick

-- One queue of a round. When `rotates`, the first server taken from it goes to its end.
unfoldable pub visit_queue : (Role → Bool) → (Ptr → Bool) → Bool → ℕ → Cell → Walk → Walk
unfolding scan_servers rotate first_added set_queue
visit_queue wanted eligible rotates free_ws (w, r) s =
    if s.pick.failed || s.pick.remaining == 0 || not (wanted r)
    then s
    else let pick = scan_servers eligible free_ws (s.queues w r) s.pick in
      if pick.failed || not rotates then record s { pick = pick } else record {
        queues =
            set_queue s.queues w r
              (rotate (first_added (length s.pick.selected) pick.selected) (s.queues w r));
        pick = pick;
      }

unfoldable pub visit_queues : (Role → Bool) → (Ptr → Bool) → Bool → ℕ → List Cell → Walk → Walk
unfolding visit_queue
visit_queues wanted eligible rotates free_ws [] s = s
visit_queues wanted eligible rotates free_ws (c ∷ cs) s =
    visit_queues wanted eligible rotates free_ws cs
      (visit_queue wanted eligible rotates free_ws c s)

-- One of the first two rounds.
unfoldable pub early_round : Db → Bool → ℕ → ℕ → ℕ → ℕ → Walk → Walk
early_round db m slot now free_ws round =
    visit_queues (round_role m round) (round_server db m slot now round) (round == 1) free_ws grid

-- One of the last two rounds.
unfoldable pub late_round : Db → ℕ → ℕ → ℕ → Walk → Walk
late_round db now free_ws round =
    visit_queues (λ r. true) (last_round_server db now round) false free_ws grid

abbrev pub is_empty {ℓ} : {A : Type ℓ} → List A → Bool
is_empty [] = true
is_empty (_ ∷ _) = false

-- The selection of servers, on a database whose lock is held.
unfoldable pub populate_servers : Db → Bool → ℕ → ℕ → ℕ → ℕ → Walk
populate_servers db m slot now free_ws remaining =
    let start : Walk = record {
      queues = db.servers;
      pick = record { selected = []; remaining = remaining; failed = false };
    } in
    let first = early_round db m slot now free_ws 1 start in
    let early = if db.enabled then first else early_round db m slot now free_ws 2 first in
    if db.enabled && not early.pick.failed && is_empty early.pick.selected
    then late_round db now free_ws 4 (late_round db now free_ws 3 early)
    else early
