-- ===== src/Core/Plan/Order.antt =====
-- The servers of a plan in the order of the plan, without the loops.
use mathlib.Core.List.{append-nil, append_assoc}
use libvmod_redis.Base.{
  ℕ, zero, suc, ◌+◌, ◌-◌, ◌≤◌, ◌≡◌, refl, ap, ◌∙◌, Bool, true, false, ◌&&◌, not, List, [], ◌∷◌,
  ◌++◌, ◌==◌, if◌then◌else◌, length, take, select, arith, Bool-cases, inl, inr, ◌⊎◌, take-split,
  take-nil, length-append, le→leb,
}
use libvmod_redis.Core.Types.{Ptr, Role, role_eq, Queues, set_queue}
use libvmod_redis.Core.Plan.Servers.{
  Pick, visit_server, scan_servers, first_added, rotate, Cell, Walk, visit_queue, visit_queues,
}

abbrev pub picked : List Ptr → ℕ → Pick
picked out n = record { selected = out; remaining = n; failed = false }

module _ (eligible : Ptr → Bool) (free_ws : ℕ) (room : 8 ≤ free_ws) where
  visit_full :
      (p : Ptr) (out : List Ptr) → visit_server eligible free_ws p (picked out 0) ≡ picked out 0
  unfolding visit_server
  visit_full p out = refl

  visit_skipped :
      (p : Ptr) (out : List Ptr) (n : ℕ)
      → eligible p ≡ false
      → visit_server eligible free_ws p (picked out n) ≡ picked out n
  unfolding visit_server
  visit_skipped p out n e = ground arith

  visit_taken :
      (p : Ptr) (out : List Ptr) (n : ℕ)
      → eligible p ≡ true
      → visit_server eligible free_ws p (picked out (suc n)) ≡ picked (out ++ p ∷ []) n
  unfolding visit_server
  visit_taken p out n e = rw (e, le→leb 8 free_ws room) (ground arith)

  -- With room in the workspace, a loop takes the first eligible servers.
  pub scan_servers-picked :
      (ps out : List Ptr) (n : ℕ)
      → scan_servers eligible free_ws ps (picked out n)
        ≡ picked (out ++ take n (select eligible ps)) (n - length (select eligible ps))
  unfolding scan_servers
  scan_servers-picked [] out zero = ground (arith, append-nil out)
  scan_servers-picked [] out (suc n) = ground (arith, append-nil out)
  scan_servers-picked (p ∷ ps) out zero =
      rw (visit_full p out) (scan_servers-picked ps out zero ∙ ground arith)
  scan_servers-picked (p ∷ ps) out (suc n) = elim (Bool-cases (eligible p)) [
    | inl e ↦
        rw (visit_taken p out n e, e)
          (scan_servers-picked ps (out ++ p ∷ []) n
            ∙ ground (arith, append_assoc out (p ∷ []) (take n (select eligible ps))))
    | inr e ↦ rw (visit_skipped p out (suc n) e, e) (scan_servers-picked ps out (suc n))
  ]

pub sub_sub : (n a b : ℕ) → n - a - b ≡ n - (a + b)
sub_sub n a b = omega arith

abbrev cell_eq : Cell → Cell → Bool
cell_eq (w, r) (w', r') = w' == w && role_eq r' r

abbrev fresh : Cell → List Cell → Bool
fresh c [] = true
fresh c (d ∷ ds) = not (cell_eq c d) && fresh c ds

abbrev pub distinct : List Cell → Bool
distinct [] = true
distinct (c ∷ cs) = fresh c cs && distinct cs

-- The eligible servers of the queues, in the order of the loops.
abbrev pub listed : (Role → Bool) → (Ptr → Bool) → Queues → List Cell → List Ptr
listed wanted eligible qs [] = []
listed wanted eligible qs ((w, r) ∷ cs) =
    (if wanted r then select eligible (qs w r) else []) ++ listed wanted eligible qs cs

module _ (wanted : Role → Bool) (eligible : Ptr → Bool) where
  listed-set_queue :
      (qs : Queues) (w : ℕ) (r : Role) (q : List Ptr) (cs : List Cell)
      → fresh (w, r) cs ≡ true
      → listed wanted eligible (set_queue qs w r q) cs ≡ listed wanted eligible qs cs
  unfolding set_queue
  listed-set_queue qs w r q [] f = refl
  listed-set_queue qs w r q ((w', r') ∷ cs) f = ground (arith, listed-set_queue qs w r q cs)

module _ (wanted : Role → Bool) (eligible : Ptr → Bool) (rotates : Bool) (free_ws : ℕ)
    (room : 8 ≤ free_ws) where
  pub visit_queue-pick :
      (w : ℕ) (r : Role) (s : Walk) (out : List Ptr) (n : ℕ)
      → s.pick ≡ picked out n
      → let taken = if wanted r then select eligible (s.queues w r) else [] in
        (visit_queue wanted eligible rotates free_ws (w, r) s).pick
        ≡ picked (out ++ take n taken) (n - length taken)
  unfolding visit_queue
  visit_queue-pick w r s out zero e = ground (arith, e, append-nil out)
  visit_queue-pick w r s out (suc n) e = elim (Bool-cases (wanted r)) [
    | inr off ↦ rw off (ground (arith, e, append-nil out))
    | inl on ↦
        rw
          (on, e, visit_queue, scan_servers-picked eligible free_ws room (s.queues w r) out (suc n))
          (ground arith)
  ]

  -- The queue that is visited, if its first new server goes to its end.
  abbrev pub turned : ℕ → Role → Walk → List Ptr
  turned w r s =
      rotate
        (first_added (length s.pick.selected)
          (scan_servers eligible free_ws (s.queues w r) s.pick).selected)
        (s.queues w r)

  -- A queue that is visited leaves the other queues alone.
  pub visit_queue-others :
      (w : ℕ) (r : Role) (s : Walk)
      → ((visit_queue wanted eligible rotates free_ws (w, r) s).queues ≡ s.queues)
        ⊎ ((visit_queue wanted eligible rotates free_ws (w, r) s).queues
            ≡ set_queue s.queues w r (turned w r s))
  unfolding visit_queue
  visit_queue-others w r s = ground arith

  listed-visit_queue :
      (w : ℕ) (r : Role) (s : Walk) (cs : List Cell)
      → fresh (w, r) cs ≡ true
      → listed wanted eligible (visit_queue wanted eligible rotates free_ws (w, r) s).queues cs
        ≡ listed wanted eligible s.queues cs
  listed-visit_queue w r s cs f = elim (visit_queue-others w r s) [
    | inl e ↦ rw e
    | inr e ↦ rw e (listed-set_queue wanted eligible s.queues w r (turned w r s) cs f)
  ]

  pub visit_queues-pick :
      (cs : List Cell) (s : Walk) (out : List Ptr) (n : ℕ)
      → distinct cs ≡ true
      → s.pick ≡ picked out n
      → let all = listed wanted eligible s.queues cs in
        (visit_queues wanted eligible rotates free_ws cs s).pick
        ≡ picked (out ++ take n all) (n - length all)
  unfolding visit_queues
  visit_queues-pick [] s out n d e = e ∙ ground (arith, append-nil out, take-nil {A = Ptr} n)
  visit_queues-pick ((w, r) ∷ cs) s out n d e =
      let t = visit_queue wanted eligible rotates free_ws (w, r) s in
      let here = if wanted r then select eligible (s.queues w r) else [] in
      let there = listed wanted eligible s.queues cs in
      rw
        (
          take-split n here there,
          length-append here there,
          ← append_assoc out (take n here) (take (n - length here) there),
        )
        (rw (← listed-visit_queue w r s cs (ground arith)) (
          visit_queues-pick cs t (out ++ take n here) (n - length here) (ground arith)
            (visit_queue-pick w r s out n e)
          ∙ ap
              (λ (k : ℕ).
                picked
                  (out
                    ++ take n here
                    ++ take (n - length here) (listed wanted eligible t.queues cs))
                  k)
              (sub_sub n (length here) (length (listed wanted eligible t.queues cs)))))
