-- ===== src/Core/Plan/Rounds.antt =====
-- Two rounds of the loops of populate_execution_plan() of src/core.c, one after the other.
use libvmod_redis.Base.{
  ℕ, ◌-◌, ◌≤◌, ◌≡◌, refl, ap, ◌∙◌, Bool, true, false, List, [], ◌∷◌, ◌++◌, length, take, select,
  All, length-append, take-split,
}
use libvmod_redis.Core.Types.{Ptr, Role, Db, Queues}
use libvmod_redis.Core.Plan.Servers.{grid, Cell, Walk, visit_queues}
use libvmod_redis.Core.Plan.Order.{picked, listed, distinct, visit_queues-pick, sub_sub}
use libvmod_redis.Core.Plan.Rotation.{visit_queues-keeps}
use libvmod_redis.Core.Plan.Candidates.{by_priority}

module _ (free_ws : ℕ) (room : 8 ≤ free_ws) (db : Db) where
  pub grid-distinct : distinct grid ≡ true
  unfolding grid
  grid-distinct = refl

  listed-same :
      (wanted : Role → Bool) (test : Ptr → Bool) (qs qs' : Queues)
      → ((w : ℕ) (r : Role) → select test (qs' w r) ≡ select test (qs w r))
      → (cs : List Cell) → listed wanted test qs' cs ≡ listed wanted test qs cs
  listed-same wanted test qs qs' h [] = refl
  listed-same wanted test qs qs' h ((w, r) ∷ cs) = rw (h w r, listed-same wanted test qs qs' h cs)

  -- A round after the servers `before` have been listed.
  next_round :
      (wanted : Role → Bool) (test : Ptr → Bool) (rotates : Bool) (s : Walk) (before : List Ptr)
      (n : ℕ)
      → s.pick ≡ picked (take n before) (n - length before)
      → ((w : ℕ) (r : Role) → select test (s.queues w r) ≡ select test (db.servers w r))
      → let all = before ++ by_priority db wanted test in
        (visit_queues wanted test rotates free_ws grid s).pick
        ≡ picked (take n all) (n - length all)
  next_round wanted test rotates s before n e h =
      let new = by_priority db wanted test in
      visit_queues-pick wanted test rotates free_ws room grid s _ _ grid-distinct e
      ∙ rw
          (
            listed-same wanted test db.servers s.queues h grid,
            take-split n before new,
            length-append before new,
          )
          (ap (λ (k : ℕ). picked (take n before ++ take (n - length before) new) k)
            (sub_sub n (length before) (length new)))

  -- A round from the start, then another one.
  pub two_rounds :
      (w1 w2 : Role → Bool) (t1 t2 : Ptr → Bool) (rotates1 rotates2 : Bool) (s : Walk) (n : ℕ)
      → s.queues ≡ db.servers
      → s.pick ≡ picked [] n
      → ((w : ℕ) (r : Role) → w1 r ≡ true → All (λ p. t1 p ≡ true → t2 p ≡ false) (db.servers w r))
      → let all = by_priority db w1 t1 ++ by_priority db w2 t2 in
        (visit_queues w2 t2 rotates2 free_ws grid (visit_queues w1 t1 rotates1 free_ws grid s)).pick
        ≡ picked (take n all) (n - length all)
  two_rounds w1 w2 t1 t2 rotates1 rotates2 s n q e apart =
      let first = visit_queues w1 t1 rotates1 free_ws grid s in
      let kept = visit_queues-keeps w1 t1 t2 rotates1 free_ws room grid s [] n e (rw q apart) in
      next_round w2 t2 rotates2 first (by_priority db w1 t1) n
        (rw (← q) (visit_queues-pick w1 t1 rotates1 free_ws room grid s [] n grid-distinct e))
        (λ w r. kept w r ∙ ap (λ (qs : Queues). select t2 (qs w r)) q)
