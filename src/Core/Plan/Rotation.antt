-- ===== src/Core/Plan/Rotation.antt =====
-- What the rotation of the queues leaves alone: the order of the servers that a later round takes.
use libvmod_redis.Base.{
  ℕ, zero, suc, take-nil, ◌≤◌, ◌≡◌, refl, ap, ◌∙◌, inl, inr, Bool, true, false, Option, none, some,
  List, [], ◌∷◌, ◌++◌, ◌==◌, if◌then◌else◌, length, take, select, select-append, All, All-append,
  arith, Bool-cases, Option-cases,
}
use mathlib.Core.List.{append-nil}
use mathlib.Core.Path.{fun_ext}
use libvmod_redis.Core.Types.{Ptr, Role, Queues, set_queue, set_queue-all}
use libvmod_redis.Core.Plan.Servers.{
  remove, move_to_tail, first_added, rotate, Cell, Walk, visit_queue, visit_queues,
}
use libvmod_redis.Core.Plan.Order.{
  visit_queue-pick, visit_queue-others, turned, picked, listed, scan_servers-picked,
}

append-eq-nil : (xs ys : List Ptr) → xs ++ ys ≡ [] → (xs ≡ []) × (ys ≡ [])
append-eq-nil [] ys e = (refl, e)
append-eq-nil (x ∷ xs) ys e = cc

-- The first of the new servers of a plan.
abbrev head_or_none : List Ptr → Option Ptr
head_or_none [] = none
head_or_none (p ∷ _) = some p

first_added-append : (out new : List Ptr) → first_added (length out) (out ++ new) ≡ head_or_none new
unfolding first_added
first_added-append [] [] = refl
first_added-append [] (p ∷ new) = refl
first_added-append (x ∷ out) new = ground (arith, first_added-append out new)

module _ (test : Ptr → Bool) where
  select-remove :
      (p : Ptr) (qs : List Ptr) → test p ≡ false → select test (remove p qs) ≡ select test qs
  unfolding remove
  select-remove p [] f = refl
  select-remove p (q ∷ qs) f = ground (arith, select-remove p qs f)

  select-move_to_tail :
      (p : Ptr) (qs : List Ptr) → test p ≡ false → select test (move_to_tail p qs) ≡ select test qs
  unfolding move_to_tail
  select-move_to_tail p qs f =
      rw (select-append test (remove p qs) (p ∷ []), select-remove p qs f, f)
        (append-nil (select test qs))

module _ (P : Ptr → Type 0) where
  All-remove : (p : Ptr) (qs : List Ptr) → All P qs → All P (remove p qs)
  unfolding remove
  All-remove p [] h = h
  All-remove p (q ∷ qs) h = elim (Bool-cases (q == p)) [
    | inl e ↦ rw e h.1
    | inr e ↦ rw e (h.0, All-remove p qs h.1)
  ]

  All-rotate :
      (o : Option Ptr) (qs : List Ptr)
      → All P qs
      → ((p : Ptr) → o ≡ some p → P p)
      → All P (rotate o qs)
  unfolding rotate move_to_tail
  All-rotate none qs h k = h
  All-rotate (some p) qs h k =
      All-append P (remove p qs) (p ∷ []) (All-remove p qs h) (k p refl, tt)

  All-take-select :
      (test : Ptr → Bool) (n : ℕ) (qs : List Ptr)
      → All P qs
      → (p : Ptr) → head_or_none (take n (select test qs)) ≡ some p
      → P p × (test p ≡ true)
  All-take-select test zero qs h p e = cc
  All-take-select test (suc n) [] h p e = cc
  All-take-select test (suc n) (q ∷ qs) h p e = elim (Bool-cases (test q)) [
    | inl hit ↦ ground arith
    | inr miss ↦ All-take-select test (suc n) qs h.1 p (rw miss at e)
  ]

-- A round that takes `eligible` servers keeps the order of those that pass `later`, if no server of
-- the queues that it looks at is both.
module _ (wanted : Role → Bool) (eligible later : Ptr → Bool) (rotates : Bool) (free_ws : ℕ)
    (room : 8 ≤ free_ws) where
  abbrev Apart : Ptr → Type 0
  Apart p = eligible p ≡ true → later p ≡ false

  abbrev AllApart : Queues → Type 0
  AllApart qs = (w : ℕ) (r : Role) → wanted r ≡ true → All Apart (qs w r)

  abbrev SameOrder : Queues → Queues → Type 0
  SameOrder qs qs' = (w : ℕ) (r : Role) → select later (qs' w r) ≡ select later (qs w r)

  turned_queue :
      (q : List Ptr) (n : ℕ)
      → All Apart q
      → let t = rotate (head_or_none (take n (select eligible q))) q in
        All Apart t × (select later t ≡ select later q)
  turned_queue q n h = elim (Option-cases (head_or_none (take n (select eligible q)))) [
    | inl e ↦ rw e (unfold rotate in (h, refl))
    | inr (p, e) ↦
        let (apart, hit) = All-take-select Apart eligible n q h p e in
        (
          All-rotate Apart _ q h (λ x ex. (All-take-select Apart eligible n q h x ex).0),
          rw e (unfold rotate in select-move_to_tail later p q (apart hit)),
        )
  ]

  set_queue-keeps :
      (qs : Queues) (w : ℕ) (r : Role) (q : List Ptr)
      → AllApart qs
      → All Apart q
      → select later q ≡ select later (qs w r)
      → AllApart (set_queue qs w r q) × SameOrder qs (set_queue qs w r q)
  set_queue-keeps qs w r q h a e = (
    set_queue-all (λ w' r' l. wanted r' ≡ true → All Apart l) qs w r q (λ _. a) h,
    λ w' r'.
        set_queue-all (λ w' r' l. select later l ≡ select later (qs w' r')) qs w r q e
          (λ w' r'. refl) w' r',
  )

  visit_queue-unwanted :
      (w : ℕ) (r : Role) (s : Walk)
      → wanted r ≡ false
      → visit_queue wanted eligible rotates free_ws (w, r) s ≡ s
  unfolding visit_queue
  visit_queue-unwanted w r s off = ground arith

  turned_lem :
      (w : ℕ) (r : Role) (s : Walk) (out : List Ptr) (n : ℕ)
      → s.pick ≡ picked out n
      → turned wanted eligible rotates free_ws room w r s
        ≡ rotate (head_or_none (take n (select eligible (s.queues w r)))) (s.queues w r)
  turned_lem w r s out n e = rw (
    e,
    scan_servers-picked eligible free_ws room (s.queues w r) out n,
    first_added-append out (take n (select eligible (s.queues w r))),
  )

  visit_queue-keeps :
      (w : ℕ) (r : Role) (s : Walk) (out : List Ptr) (n : ℕ)
      → s.pick ≡ picked out n
      → AllApart s.queues
      → let t = visit_queue wanted eligible rotates free_ws (w, r) s in
        AllApart t.queues × SameOrder s.queues t.queues
  visit_queue-keeps w r s out n e h = elim (Bool-cases (wanted r)) [
    | inr off ↦ rw (visit_queue-unwanted w r s off) (h, λ w' r'. refl)
    | inl on ↦ elim (visit_queue-others wanted eligible rotates free_ws room w r s) [
      | inl same ↦ rw same (h, λ w' r'. refl)
      | inr turns ↦
          let (apart, order) = turned_queue (s.queues w r) n (h w r on) in
          rw (turns, turned_lem w r s out n e) (set_queue-keeps s.queues w r _ h apart order)
    ]
  ]

  pub visit_queues-keeps :
      (cs : List Cell) (s : Walk) (out : List Ptr) (n : ℕ)
      → s.pick ≡ picked out n
      → AllApart s.queues
      → SameOrder s.queues (visit_queues wanted eligible rotates free_ws cs s).queues
  unfolding visit_queues
  visit_queues-keeps [] s out n e h = λ w r. refl
  visit_queues-keeps ((w, r) ∷ cs) s out n e h =
      let (apart, order) = visit_queue-keeps w r s out n e h in
      let rest =
        visit_queues-keeps cs (visit_queue wanted eligible rotates free_ws (w, r) s) _ _
          (visit_queue-pick wanted eligible rotates free_ws room w r s out n e) apart in
      λ w' r'. rest w' r' ∙ order w' r'

-- A round that finds nobody, or that has no place left, changes nothing.
module _ (wanted : Role → Bool) (eligible : Ptr → Bool) (rotates : Bool) (free_ws : ℕ)
    (room : 8 ≤ free_ws) where
  visit_queue-none :
      (w : ℕ) (r : Role) (s : Walk) (out : List Ptr) (n : ℕ)
      → s.pick ≡ picked out n
      → (if wanted r then select eligible (s.queues w r) else []) ≡ []
      → (visit_queue wanted eligible rotates free_ws (w, r) s).queues ≡ s.queues
  unfolding rotate
  visit_queue-none w r s out n e z = elim (Bool-cases (wanted r)) [
    | inr off ↦
        ap (λ (t : Walk). t.queues)
          (visit_queue-unwanted wanted eligible eligible rotates free_ws room w r s off)
    | inl on ↦ elim (visit_queue-others wanted eligible rotates free_ws room w r s) [
      | inl same ↦ same
      | inr turns ↦
          let still : turned wanted eligible rotates free_ws room w r s ≡ s.queues w r =
            turned_lem wanted eligible eligible rotates free_ws room w r s out n e
            ∙ rw (rw on at z, take-nil {A = Ptr} n, rotate) in
          turns
          ∙ fun_ext λ w'. fun_ext λ r'.
            set_queue-all (λ w' r' l. l ≡ s.queues w' r') s.queues w r _ still (λ w' r'. refl) w' r'
    ]
  ]

  pub visit_queues-none :
      (cs : List Cell) (s : Walk) (out : List Ptr) (n : ℕ)
      → s.pick ≡ picked out n
      → listed wanted eligible s.queues cs ≡ []
      → (visit_queues wanted eligible rotates free_ws cs s).queues ≡ s.queues
  unfolding visit_queues
  visit_queues-none [] s out n e z = refl
  visit_queues-none ((w, r) ∷ cs) s out n e z =
      let (here, there) =
        append-eq-nil (if wanted r then select eligible (s.queues w r) else []) _ z in
      let same = visit_queue-none w r s out n e here in
      visit_queues-none cs _ _ _
        (visit_queue-pick wanted eligible rotates free_ws room w r s out n e) (rw same there)
      ∙ same

  visit_queue-full :
      (w : ℕ) (r : Role) (s : Walk) (out : List Ptr)
      → s.pick ≡ picked out 0
      → visit_queue wanted eligible rotates free_ws (w, r) s ≡ s
  unfolding visit_queue
  visit_queue-full w r s out e = ground arith

  pub visit_queues-full :
      (cs : List Cell) (s : Walk) (out : List Ptr)
      → s.pick ≡ picked out 0
      → visit_queues wanted eligible rotates free_ws cs s ≡ s
  unfolding visit_queues
  visit_queues-full [] s out e = refl
  visit_queues-full ((w, r) ∷ cs) s out e =
      rw (visit_queue-full w r s out e) (visit_queues-full cs s out e)
