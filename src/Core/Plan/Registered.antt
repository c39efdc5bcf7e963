-- ===== src/Core/Plan/Registered.antt =====
-- A server that stands in a queue of its database is a candidate of the plans of src/core.c.
use libvmod_redis.Base.{
  ℕ, suc, ◌≤◌, ◌<◌, ◌≡◌, ◌≢◌, refl, sym, ap, ◌∙◌, ◌⊎◌, Bool, true, false, ◌&&◌, ◌||◌, List, [], ◌∷◌,
  ◌++◌, ◌==◌, select, take, arith, Bool-cases, inl, inr,
}
use libvmod_redis.Core.Types.{Ptr, Role, master, tbd, role_eq, role_eq→eq, Context, Db, Queues}
use libvmod_redis.Core.Plan.{general_match}
use libvmod_redis.Core.Plan.Servers.{Pick, Cell, grid, populate_servers, is_empty}
use libvmod_redis.Core.Plan.Order.{listed}
use libvmod_redis.Core.Plan.Candidates.{
  by_priority, is_sick, is_healthy, any_role, only_master, not_slave, standalone_servers, owners,
  clustered_servers, candidates, IsFiled,
}
use libvmod_redis.Core.Plan.Reference.{populate_servers-candidates}

abbrev pub In : Ptr → List Ptr → Type 0
In p [] = ⊥
In p (q ∷ qs) = (p ≡ q) ⊎ In p qs

In-select :
    (test : Ptr → Bool) (p : Ptr) (qs : List Ptr) → In p qs → test p ≡ true → select test qs ≢ []
In-select test p [] i h e = i
In-select test p (q ∷ qs) (inl same) h e = ground (arith, ap test same)
In-select test p (q ∷ qs) (inr i) h e = ground (arith, In-select test p qs i h)

append-ne-nil : (xs ys : List Ptr) → (xs ≢ []) ⊎ (ys ≢ []) → xs ++ ys ≢ []
append-ne-nil [] ys (inl h) e = h refl
append-ne-nil [] ys (inr h) e = h e
append-ne-nil (x ∷ xs) ys h e = cc

abbrev has_cell : ℕ → Role → List Cell → Bool
has_cell w r [] = false
has_cell w r ((w', r') ∷ cs) = (w' == w && role_eq r' r) || has_cell w r cs

listed-ne-nil :
    (wanted : Role → Bool) (test : Ptr → Bool) (qs : Queues) (w : ℕ) (r : Role) (p : Ptr)
    (cs : List Cell)
    → has_cell w r cs ≡ true
    → wanted r ≡ true
    → In p (qs w r)
    → test p ≡ true
    → listed wanted test qs cs ≢ []
listed-ne-nil wanted test qs w r p [] c h i t = λ e. cc
listed-ne-nil wanted test qs w r p ((w', r') ∷ cs) c h i t =
    append-ne-nil _ (listed wanted test qs cs) (elim (Bool-cases (w' == w && role_eq r' r)) [
      | inr other ↦ inr (listed-ne-nil wanted test qs w r p cs (rw other at c) h i t)
      | inl here ↦
          let ew : w' ≡ w = ground arith in
          let er : r' ≡ r = role_eq→eq r' r (ground arith) in
          inl (rw (ew, er, h) (In-select test p (qs w r) i t))
    ])

grid_full : (w : ℕ) (r : Role) → w < 4 → has_cell w r grid ≡ true
unfolding grid
grid_full w r h = ground arith

-- The server of a context stands in a queue of its database.
abbrev pub IsRegistered : Db → Context → Type 0
IsRegistered db c =
    ((db.mem c.server).weight < 4)
    × In c.server (db.servers (db.mem c.server).weight (db.mem c.server).role)

take-eq-nil : (n : ℕ) (xs : List Ptr) → take (suc n) xs ≡ [] → xs ≡ []
take-eq-nil n [] e = refl
take-eq-nil n (x ∷ xs) e = cc

module _ (db : Db) (slot now : ℕ) (c : Context) (reg : IsRegistered db c) where
  by_priority-ne-nil :
      (wanted : Role → Bool) (test : Ptr → Bool)
      → wanted (db.mem c.server).role ≡ true
      → test c.server ≡ true
      → by_priority db wanted test ≢ []
  by_priority-ne-nil wanted test h t =
      listed-ne-nil wanted test db.servers (db.mem c.server).weight (db.mem c.server).role c.server
        grid (grid_full _ _ reg.0) h reg.1 t

  not_healthy_sick : is_healthy db now c.server ≡ false → is_sick db now c.server ≡ true
  not_healthy_sick h = ground arith

  anyone :
      by_priority db any_role (is_healthy db now) ++ by_priority db any_role (is_sick db now) ≢ []
  anyone =
      append-ne-nil (by_priority db any_role (is_healthy db now))
        (by_priority db any_role (is_sick db now))
        (elim (Bool-cases (is_healthy db now c.server)) [
          | inl h ↦ inl (by_priority-ne-nil any_role (is_healthy db now) refl h)
          | inr h ↦ inr (by_priority-ne-nil any_role (is_sick db now) refl (not_healthy_sick h))
        ])

  masters : (db.mem c.server).role ≡ master → standalone_servers db true now ≢ []
  masters e =
      append-ne-nil (by_priority db only_master (is_healthy db now))
        (by_priority db not_slave (λ p. role_eq (db.mem p).role tbd || is_sick db now p))
        (elim (Bool-cases (is_healthy db now c.server)) [
          | inl h ↦ inl (by_priority-ne-nil only_master (is_healthy db now) (ground arith) h)
          | inr h ↦ inr (
              by_priority-ne-nil not_slave (λ p. role_eq (db.mem p).role tbd || is_sick db now p)
                (ground arith) (ground (arith, not_healthy_sick h)))
        ])

  clustered : (m : Bool) → clustered_servers db m slot now ≢ []
  clustered m = elim (Bool-cases (is_empty (owners db m slot now))) [
    | inl none_owns ↦ rw none_owns anyone
    | inr some_own ↦ λ e. ground arith
  ]

  candidates-ne-nil : (m : Bool) → general_match db m slot c ≡ true → candidates db m slot now ≢ []
  unfolding general_match
  candidates-ne-nil false g = elim (Bool-cases db.enabled) [
    | inl on ↦ λ e. clustered false (ground arith)
    | inr off ↦ λ e. anyone (ground arith)
  ]
  candidates-ne-nil true g = elim (Bool-cases db.enabled) [
    | inl on ↦ λ e. clustered true (ground arith)
    | inr off ↦ λ e. masters (role_eq→eq _ master (ground arith)) (ground arith)
  ]

  pub candidates_served :
      (m : Bool) (ws n : ℕ)
      → 8 ≤ ws
      → IsFiled db
      → general_match db m slot c ≡ true
      → (populate_servers db m slot now ws (suc n)).pick.selected ≢ []
  candidates_served m ws n room f g e = candidates-ne-nil m g (
      take-eq-nil n _ (
        sym (
          ap (λ (k : Pick). k.selected)
            (populate_servers-candidates ws room db slot now m (suc n) f))
        ∙ e))
