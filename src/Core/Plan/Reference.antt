-- ===== src/Core/Plan/Reference.antt =====
-- The loops of populate_execution_plan() of src/core.c against the list of candidates.
use mathlib.Core.Path.{fun_ext, subst}
use libvmod_redis.Base.{
  ℕ, zero, suc, ◌-◌, ◌≤◌, ◌≡◌, refl, sym, ap, ◌∙◌, Bool, true, false, ◌&&◌, ◌||◌, not, List, [],
  ◌∷◌, ◌++◌, ltb, leb, if◌then◌else◌, length, take, All-always, All-map, arith, Bool-cases, inl,
  inr,
}
use libvmod_redis.Core.Types.{Ptr, Role, tbd, role_eq, Db}
use libvmod_redis.Core.Plan.Servers.{
  Pick, round_role, round_server, last_round_server, grid, Walk, visit_queues, early_round,
  late_round, is_empty, populate_servers,
}
use libvmod_redis.Core.Plan.Order.{picked, visit_queues-pick}
use libvmod_redis.Core.Plan.Rotation.{visit_queues-none, visit_queues-full}
use libvmod_redis.Core.Plan.Candidates.{
  by_priority, is_sick, is_healthy, any_role, only_master, not_slave, standalone_servers, owners,
  clustered_servers, candidates, IsFiled,
}
use libvmod_redis.Core.Plan.Rounds.{grid-distinct, two_rounds}

start : Db → ℕ → Walk
start db n = record { queues = db.servers; pick = picked [] n }

healthy_not_sick : (now exp : ℕ) → leb exp now ≡ true → ltb now exp ≡ false
healthy_not_sick now exp h = ground arith

module _ (db : Db) (slot now : ℕ) where
  role_any : (round : ℕ) → round_role false round ≡ any_role
  unfolding round_role
  role_any round = fun_ext λ r. refl

  role_first : round_role true 1 ≡ only_master
  unfolding round_role
  role_first = fun_ext λ r. ground arith

  role_second : round_role true 2 ≡ not_slave
  unfolding round_role
  role_second = fun_ext λ r. ground arith

  test_first : (m : Bool) → db.enabled ≡ false → round_server db m slot now 1 ≡ is_healthy db now
  unfolding round_server
  test_first m e = fun_ext λ p. ground arith

  test_second : db.enabled ≡ false → round_server db false slot now 2 ≡ is_sick db now
  unfolding round_server
  test_second e = fun_ext λ p. ground arith

  test_second_master :
      db.enabled ≡ false
      → round_server db true slot now 2 ≡ (λ p. role_eq (db.mem p).role tbd || is_sick db now p)
  unfolding round_server
  test_second_master e = fun_ext λ p. ground arith

  test_owner :
      (m : Bool)
      → db.enabled ≡ true
      → round_server db m slot now 1 ≡ (λ p. (db.mem p).slots slot && is_healthy db now p)
  unfolding round_server
  test_owner m e = fun_ext λ p. ground arith

  test_third : last_round_server db now 3 ≡ is_healthy db now
  unfolding last_round_server
  test_third = fun_ext λ p. ground arith

  test_fourth : last_round_server db now 4 ≡ is_sick db now
  unfolding last_round_server
  test_fourth = fun_ext λ p. ground arith

module _ (free_ws : ℕ) (room : 8 ≤ free_ws) (db : Db) (slot now : ℕ) where
  standalone_order :
      (m : Bool) (n : ℕ)
      → db.enabled ≡ false
      → IsFiled db
      → let all = standalone_servers db m now in
        (populate_servers db m slot now free_ws n).pick ≡ picked (take n all) (n - length all)
  unfolding populate_servers early_round late_round start
  standalone_order false n e f =
      rw
        (
          role_any db slot now 1,
          role_any db slot now 2,
          test_first db slot now false e,
          test_second db slot now e,
          e,
        )
        (two_rounds free_ws room db any_role any_role (is_healthy db now) (is_sick db now) true
          false (start db n) n refl refl
          (λ w r _.
            All-always _ (λ p. healthy_not_sick now (db.mem p).sickness_exp) (db.servers w r)))
  standalone_order true n e f =
      rw
        (
          role_first db slot now,
          role_second db slot now,
          test_first db slot now true e,
          test_second_master db slot now e,
          e,
        )
        (two_rounds free_ws room db only_master not_slave (is_healthy db now) _ true false
          (start db n) n refl refl
          (λ w r h. All-map _ _ (db.servers w r) (λ p filed. masters p r h filed.1) (f w r)))
    where
      masters :
          (p : Ptr) (r : Role)
          → only_master r ≡ true
          → (db.mem p).role ≡ r
          → is_healthy db now p ≡ true
          → (role_eq (db.mem p).role tbd || is_sick db now p) ≡ false
      masters p r h e k = ground arith

  -- The later rounds of a clustered plan, after a first one that found nobody.
  late_order :
      (s : Walk) (n : ℕ)
      → s.queues ≡ db.servers
      → s.pick ≡ picked [] n
      → let all =
          by_priority db any_role (is_healthy db now) ++ by_priority db any_role (is_sick db now) in
        (late_round db now free_ws 4 (late_round db now free_ws 3 s)).pick
        ≡ picked (take n all) (n - length all)
  unfolding late_round
  late_order s n q e =
      rw (test_third db slot now, test_fourth db slot now)
        (two_rounds free_ws room db any_role any_role (is_healthy db now) (is_sick db now) false
          false s n q e
          (λ w r _.
            All-always _ (λ p. healthy_not_sick now (db.mem p).sickness_exp) (db.servers w r)))

  -- The first round of a clustered plan, and what follows it.
  owner_round : Bool → ℕ → Walk
  owner_round m n =
      visit_queues (if m then only_master else any_role)
        (λ p. (db.mem p).slots slot && is_healthy db now p) true free_ws grid (start db n)

  clustered_lem :
      (m : Bool) (n : ℕ)
      → db.enabled ≡ true
      → populate_servers db m slot now free_ws n ≡ (
          if not (owner_round m n).pick.failed && is_empty (owner_round m n).pick.selected
          then late_round db now free_ws 4 (late_round db now free_ws 3 (owner_round m n))
          else owner_round m n)
  unfolding populate_servers early_round owner_round start
  clustered_lem false n e = rw (role_any db slot now 1, test_owner db slot now false e, e)
  clustered_lem true n e = rw (role_first db slot now, test_owner db slot now true e, e)

  owner_round-pick :
      (m : Bool) (n : ℕ)
      → (owner_round m n).pick
        ≡ picked (take n (owners db m slot now)) (n - length (owners db m slot now))
  unfolding owner_round start
  owner_round-pick m n =
      visit_queues-pick (if m then only_master else any_role)
        (λ p. (db.mem p).slots slot && is_healthy db now p) true free_ws room grid (start db n) [] n
        (grid-distinct free_ws room db) refl

  late_round-full : (round : ℕ) → late_round db now free_ws round (start db 0) ≡ start db 0
  unfolding late_round start
  late_round-full round =
      visit_queues-full (λ r. true) (last_round_server db now round) false free_ws room grid
        (start db 0) [] refl

  owner_round-full : (m : Bool) → owner_round m 0 ≡ start db 0
  unfolding owner_round start
  owner_round-full m =
      visit_queues-full (if m then only_master else any_role)
        (λ p. (db.mem p).slots slot && is_healthy db now p) true free_ws room grid (start db 0) []
        refl

  owner_round-none :
      (m : Bool) (n : ℕ) → owners db m slot now ≡ [] → (owner_round m n).queues ≡ db.servers
  unfolding owner_round start
  owner_round-none m n o =
      visit_queues-none (if m then only_master else any_role)
        (λ p. (db.mem p).slots slot && is_healthy db now p) true free_ws room grid (start db n) [] n
        refl o

  none_found :
      (s : Walk) (n : ℕ)
      → s.pick ≡ picked [] n
      → (not s.pick.failed && is_empty s.pick.selected) ≡ true
  none_found s n e = rw e

  none_left : (k : ℕ) → picked [] 0 ≡ picked [] (0 - k)
  none_left k = ground arith

  all_left : (n : ℕ) → n - 0 ≡ n
  all_left n = omega arith

  clustered_order :
      (m : Bool) (n : ℕ) (os : List Ptr)
      → db.enabled ≡ true
      → owners db m slot now ≡ os
      → let all = clustered_servers db m slot now in
        (populate_servers db m slot now free_ws n).pick ≡ picked (take n all) (n - length all)
  unfolding start
  clustered_order m zero os e o =
      rw (clustered_lem m 0 e, owner_round-full m)
        (rw (late_round-full 3, late_round-full 4) (none_left _))
  clustered_order m (suc n) [] e o =
      let found = (rw o at (owner_round-pick m (suc n))) ∙ ap (picked []) (all_left (suc n)) in
      rw (clustered_lem m (suc n) e, none_found (owner_round m (suc n)) (suc n) found, o)
        (late_order (owner_round m (suc n)) (suc n) (owner_round-none m (suc n) o) found)
  clustered_order m (suc n) (p ∷ os) e o =
      rw (clustered_lem m (suc n) e, rw o at (owner_round-pick m (suc n)), o)

  pick_of : Bool → ℕ → Pick
  pick_of m n = (populate_servers db m slot now free_ws n).pick

  chosen :
      (m : Bool) {b : Bool}
      → db.enabled ≡ b
      → candidates db m slot now
        ≡ (if b then clustered_servers db m slot now else standalone_servers db m now)
  chosen m e =
      ap (λ b. if b then clustered_servers db m slot now else standalone_servers db m now) e

  -- With room for a pointer in the workspace, and each server in the queue of its weight and role,
  -- the rounds put in the plan the first `n` of the candidates, in their order.
  pub populate_servers-candidates :
      (m : Bool) (n : ℕ)
      → IsFiled db
      → let all = candidates db m slot now in
        (populate_servers db m slot now free_ws n).pick ≡ picked (take n all) (n - length all)
  unfolding pick_of
  populate_servers-candidates m n f = elim (Bool-cases db.enabled) [
    | inl on ↦
        subst (λ all. pick_of m n ≡ picked (take n all) (n - length all)) (sym (chosen m on))
          (clustered_order m n _ on refl)
    | inr off ↦
        subst (λ all. pick_of m n ≡ picked (take n all) (n - length all)) (sym (chosen m off))
          (standalone_order m n off f)
  ]
