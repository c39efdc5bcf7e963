-- ===== src/Cluster/Discover/Once.antt =====
-- unsafe_discover_slots() of src/cluster.c asks no server twice, when none answers.
use libvmod_redis.Base.{
  ℕ, ◌+◌, ◌≤◌, ◌<◌, ◌≡◌, refl, ap, ◌&&◌, List, [], ◌∷◌, ◌==◌, if◌then◌else◌, length, arith,
  Bool-cases, inl, inr,
}
use libvmod_redis.Core.Types.{Ptr, Role, slave, master, tbd, role_eq, role_eq_refl, Db}
use libvmod_redis.Core.Plan.Servers.{Cell, grid}
use libvmod_redis.Core.Registry.Invariant.{copies, copies-append, IsRegistry}
use libvmod_redis.Cluster.Topology.{Setting}
use libvmod_redis.Cluster.Discover.{Answers, unsafe_discover_slots}
use libvmod_redis.Cluster.Discover.Silent.{
  others, all_others, IsSilent, IsQuiet, unsafe_discover_slots-IsQuiet,
}

copies-others : (server p : Ptr) (qs : List Ptr) → copies p (others server qs) ≤ copies p qs
copies-others server p [] = omega arith
copies-others server p (q ∷ qs) = ground (arith, copies-others server p qs)

copies-others-same : (server : Ptr) (qs : List Ptr) → copies server (others server qs) ≡ 0
copies-others-same server [] = refl
copies-others-same server (q ∷ qs) = ground (arith, copies-others-same server qs)

copies-all_others-same :
    (servers : ℕ → Role → List Ptr) (server : Ptr) (cs : List Cell)
    → copies server (all_others servers server cs) ≡ 0
copies-all_others-same servers server [] = refl
copies-all_others-same servers server ((w, r) ∷ cs) = omega (
  arith,
  copies-append server (others server (servers w r)) (all_others servers server cs),
  copies-others-same server (servers w r),
  copies-all_others-same servers server cs,
)

-- How often a cell stands in a list of cells.
abbrev cells : ℕ → Role → List Cell → ℕ
cells w r [] = 0
cells w r ((w', r') ∷ cs) = (if w == w' && role_eq r r' then 1 else 0) + cells w r cs

cells-grid : (w : ℕ) (r : Role) → cells w r grid ≤ 1
unfolding grid
cells-grid w slave = ground arith
cells-grid w master = ground arith
cells-grid w tbd = ground arith

module _ (db : Db) (v : IsRegistry db) (server : Ptr) where
  here_only :
      (p : Ptr) (w : ℕ) (r : Role)
      → copies p (others server (db.servers w r))
        ≤ (if (db.mem p).weight == w && role_eq (db.mem p).role r then 1 else 0)
  here_only p w r = elim (Bool-cases (copies p (db.servers w r) == 0)) [
    | inl k ↦ ground (arith, k, copies-others server p (db.servers w r))
    | inr k ↦
        let there = v.filed w r p (ground (arith, k)) in
        rw (there.0, there.1, role_eq_refl r)
          (ground (arith, copies-others server p (db.servers w r), v.once w r p))
  ]

  copies-all_others :
      (p : Ptr) (cs : List Cell)
      → copies p (all_others db.servers server cs) ≤ cells (db.mem p).weight (db.mem p).role cs
  copies-all_others p [] = omega arith
  copies-all_others p ((w, r) ∷ cs) = omega (
    arith,
    copies-append p (others server (db.servers w r)) (all_others db.servers server cs),
    here_only p w r,
    copies-all_others p cs,
  )

  -- The given server and all others, each once.
  pub all_others-once : (p : Ptr) → copies p (server ∷ all_others db.servers server grid) ≤ 1
  all_others-once p = elim (Bool-cases (server == p)) [
    | inl k ↦
        let e : p ≡ server = ground (arith, k) in
        rw k (
          omega (
            arith,
            ap (λ q. copies q (all_others db.servers server grid)) e,
            copies-all_others-same db.servers server grid,
          ))
    | inr k ↦
        rw k (omega (arith, copies-all_others p grid, cells-grid (db.mem p).weight (db.mem p).role))
  ]

-- If no server answers, and every server has a host and a port, the search ends after it has asked the
-- given server and then the others, in the order of the weights, the roles and the queues, and none of them
-- twice, and it leaves all servers as they are.
pub unsafe_discover_slots-once :
    (g : Setting) (answers : Answers) (server : Ptr) (db : Db)
    → IsRegistry db
    → IsSilent answers db
    → (fuel : ℕ) (next : Ptr) → ((w : ℕ) (r : Role) → length (db.servers w r) < fuel)
    → let s = unsafe_discover_slots fuel g answers next server db in
      IsQuiet db (server ∷ all_others db.servers server grid) s × ((p : Ptr) → copies p s.asked ≤ 1)
unsafe_discover_slots-once g answers server db v u fuel next h =
    let q = unsafe_discover_slots-IsQuiet g answers server db v u fuel next h in
    (q, λ p. omega (arith, ap (copies p) q.asked, all_others-once db v server p))
