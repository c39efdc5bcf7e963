-- ===== src/Core/Plan/Candidates.antt =====
-- Which servers populate_execution_plan() of src/core.c may put in a plan, and in which order, said
-- without its loops.
use libvmod_redis.Base.{
  ℕ, ◌≡◌, Bool, true, false, ◌&&◌, ◌||◌, List, ◌++◌, ltb, leb, if◌then◌else◌, All,
}
use libvmod_redis.Core.Types.{Ptr, Role, master, tbd, role_eq, Db}
use libvmod_redis.Core.Plan.Servers.{grid, is_empty}
use libvmod_redis.Core.Plan.Order.{listed}

-- The servers that pass a test, those of lower weight first, and for each weight the slaves first,
-- then the masters, then those of unknown role.
abbrev pub by_priority : Db → (Role → Bool) → (Ptr → Bool) → List Ptr
by_priority db wanted test = listed wanted test db.servers grid

abbrev pub is_sick : Db → ℕ → Ptr → Bool
is_sick db now p = ltb now (db.mem p).sickness_exp

abbrev pub is_healthy : Db → ℕ → Ptr → Bool
is_healthy db now p = leb (db.mem p).sickness_exp now

abbrev pub any_role : Role → Bool
any_role r = true

abbrev pub only_master : Role → Bool
only_master r = role_eq r master

abbrev pub not_slave : Role → Bool
not_slave r = role_eq r master || role_eq r tbd

-- Standalone: the healthy servers, then the sick ones; for a command that needs a master, the
-- healthy masters, then the sick masters and whatever has an unknown role.
abbrev pub standalone_servers : Db → Bool → ℕ → List Ptr
standalone_servers db false now =
    by_priority db any_role (is_healthy db now) ++ by_priority db any_role (is_sick db now)
standalone_servers db true now =
    by_priority db only_master (is_healthy db now)
    ++ by_priority db not_slave (λ p. role_eq (db.mem p).role tbd || is_sick db now p)

-- Clustered: the healthy owners of the slot (masters only, if a master is needed); if there is
-- none, every healthy server, then every sick one.
abbrev pub owners : Db → Bool → ℕ → ℕ → List Ptr
owners db m slot now =
    by_priority db (if m then only_master else any_role)
      (λ p. (db.mem p).slots slot && is_healthy db now p)

abbrev pub clustered_servers : Db → Bool → ℕ → ℕ → List Ptr
clustered_servers db m slot now =
    if is_empty (owners db m slot now)
    then by_priority db any_role (is_healthy db now) ++ by_priority db any_role (is_sick db now)
    else owners db m slot now

abbrev pub candidates : Db → Bool → ℕ → ℕ → List Ptr
candidates db m slot now =
    if db.enabled then clustered_servers db m slot now else standalone_servers db m now

-- Each server stands in the queue of its own weight and role: what the two assert() of the loops
-- check.
abbrev pub IsFiled : Db → Type 0
IsFiled db =
    (w : ℕ) (r : Role) → All (λ p. ((db.mem p).weight ≡ w) × ((db.mem p).role ≡ r)) (db.servers w r)
