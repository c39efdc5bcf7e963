-- ===== src/Cluster/Discover/Silent.antt =====
-- unsafe_discover_slots() of src/cluster.c when no server answers.
use mathlib.Core.List.{append-nil, append_assoc}
use libvmod_redis.Base.{
  ℕ, zero, suc, ◌≤◌, ◌<◌, ◌≡◌, refl, sym, ap, ◌∙◌, false, none, some, List, [], ◌∷◌, ◌++◌, ◌==◌,
  not, length, select, arith, Bool-cases, inl, inr,
}
use libvmod_redis.Core.Types.{Ptr, Role, Db}
use libvmod_redis.Core.Plan.Servers.{Cell, grid}
use libvmod_redis.Core.Registry.{is_socket}
use libvmod_redis.Core.Registry.Invariant.{copies, copies-append, IsRegistry}
use libvmod_redis.Cluster.Topology.{Setting, unsafe_discover_slots_aux}
use libvmod_redis.Cluster.Discover.{
  Answers, Search, missed, ask, visit, walk, walk_queues, is_missed, head, successor, next_in,
  unsafe_discover_slots,
}

-- Nobody answers, and no server has a socket.
pub record IsSilent (answers : Answers) (db : Db) : Type 0 where
  pub silent : (n : ℕ) (p : Ptr) → answers n p ≡ none
  pub hosts : (p : Ptr) → is_socket (db.mem p).location ≡ false

-- The servers of a queue, and of all of them, that are not the given one.
abbrev pub others : Ptr → List Ptr → List Ptr
others server ps = select (λ p. not (p == server)) ps

abbrev pub all_others : (ℕ → Role → List Ptr) → Ptr → List Cell → List Ptr
all_others servers server [] = []
all_others servers server ((w, r) ∷ cs) =
    others server (servers w r) ++ all_others servers server cs

-- The search has found nothing in its requests to the servers `n`, and has left the servers where they were.
pub record IsQuiet (db : Db) (n : List Ptr) (s : Search) : Type 0 where
  pub servers : s.db.servers ≡ db.servers
  pub mem : s.db.mem ≡ db.mem
  pub asked : s.asked ≡ n
  pub ending : s.ending ≡ missed

IsQuiet-at : (db : Db) (s : Search) (n n' : List Ptr) → n ≡ n' → IsQuiet db n s → IsQuiet db n' s
IsQuiet-at db s n n' e q = record {
  servers = q.servers;
  mem = q.mem;
  asked = q.asked ∙ e;
  ending = q.ending;
}

-- The links depend on the queues only.
next_in-servers :
    (db db' : Db) (p : Ptr) (cs : List Cell)
    → db'.servers ≡ db.servers
    → next_in db' p cs ≡ next_in db p cs
unfolding next_in
next_in-servers db db' p [] e = refl
next_in-servers db db' p ((w, r) ∷ cs) e =
    rw (ap (λ q. successor p (q w r)) e, next_in-servers db db' p cs e) refl

successor-none : (p : Ptr) (ps : List Ptr) → copies p ps ≡ 0 → successor p ps ≡ none
successor-none p [] e = refl
successor-none p (q ∷ qs) e = elim (Bool-cases (q == p)) [
  | inl k ↦ absurd (ground (arith, e, k))
  | inr k ↦ rw k (successor-none p qs (ground (arith, e, k)))
]

successor-once :
    (p : Ptr) (ps qs : List Ptr)
    → copies p (ps ++ (p ∷ qs)) ≤ 1
    → successor p (ps ++ (p ∷ qs)) ≡ some (head qs)
successor-once p [] qs h = ground arith
successor-once p (x ∷ ps) qs h = elim (Bool-cases (x == p)) [
  | inl k ↦ absurd (ground (arith, h, k, copies-append p ps (p ∷ qs)))
  | inr k ↦ rw k (successor-once p ps qs (ground (arith, h, k)))
]

module _ (db : Db) (v : IsRegistry db) where
  here :
      (w : ℕ) (r : Role) (p : Ptr) (ps qs : List Ptr)
      → db.servers w r ≡ ps ++ (p ∷ qs)
      → successor p (db.servers w r) ≡ some (head qs)
  here w r p ps qs e =
      ap (successor p) e ∙ successor-once p ps qs (omega (arith, ap (copies p) e, v.once w r p))

  -- A server in the queue of one cell is in no other.
  next_in-here :
      (w : ℕ) (r : Role) (p : Ptr) (ps qs : List Ptr) (before cs : List Cell)
      → db.servers w r ≡ ps ++ (p ∷ qs)
      → next_in db p (before ++ ((w, r) ∷ cs)) ≡ head qs
  unfolding next_in
  next_in-here w r p ps qs [] cs e = rw (here w r p ps qs e) refl
  next_in-here w r p ps qs ((w', r') ∷ before) cs e =
      elim (Bool-cases (copies p (db.servers w' r') == 0)) [
        | inl k ↦
            rw (successor-none p (db.servers w' r') (ground (arith, k)))
              (next_in-here w r p ps qs before cs e)
        | inr k ↦
            let there = v.filed w r p (ground (arith, e', copies-append p ps (p ∷ qs))) in
            let there' = v.filed w' r' p (ground (arith, k)) in
            rw (sym there'.0 ∙ there.0, sym there'.1 ∙ there.1, here w r p ps qs e) refl
      ]
    where
      e' : copies p (db.servers w r) ≡ copies p (ps ++ (p ∷ qs))
      e' = ap (copies p) e

module _ (g : Setting) (answers : Answers) (server : Ptr) (db : Db) (v : IsRegistry db)
    (u : IsSilent answers db) where
  ask-IsQuiet :
      (p : Ptr) (n : List Ptr) (s : Search)
      → IsQuiet db n s
      → IsQuiet db (n ++ (p ∷ [])) (ask g answers p s)
  unfolding ask unsafe_discover_slots_aux
  ask-IsQuiet p n s q =
      let host : is_socket (s.db.mem p).location ≡ false =
        ap (λ m. is_socket (m p).location) q.mem ∙ u.hosts p in
      rw (host, u.silent (length s.asked) p)
        (record {
          servers = q.servers;
          mem = q.mem;
          asked = ap (λ k. k ++ (p ∷ [])) q.asked;
          ending = refl;
        })

  visit-IsQuiet :
      (p : Ptr) (n : List Ptr) (s : Search)
      → IsQuiet db n s
      → IsQuiet db (n ++ others server (p ∷ [])) (visit g answers server p s)
  unfolding visit
  visit-IsQuiet p n s q = elim (Bool-cases (p == server)) [
    | inl k ↦ rw k (IsQuiet-at db s n _ (sym (append-nil n)) q)
    | inr k ↦ rw k (ask-IsQuiet p n s q)
  ]

  count :
      (p : Ptr) (qs n : List Ptr)
      → (n ++ others server (p ∷ [])) ++ others server qs ≡ n ++ others server (p ∷ qs)
  count p qs n = elim (Bool-cases (p == server)) [
    | inl k ↦ rw k (ap (λ x. x ++ others server qs) (append-nil n))
    | inr k ↦ rw k (append_assoc n (p ∷ []) (others server qs))
  ]

  -- The rest of a queue.
  walk-IsQuiet :
      (fuel : ℕ) (w : ℕ) (r : Role) (ps qs : List Ptr) (before cs : List Cell) (n : List Ptr)
      (s : Search)
      → grid ≡ before ++ ((w, r) ∷ cs)
      → db.servers w r ≡ ps ++ qs
      → length qs < fuel
      → IsQuiet db n s
      → IsQuiet db (n ++ others server qs) (walk fuel g answers server (head qs) s)
  unfolding walk
  walk-IsQuiet fuel w r ps [] before cs n s c e h q = IsQuiet-at db s n _ (sym (append-nil n)) q
  walk-IsQuiet zero w r ps (p ∷ qs) before cs n s c e h q = absurd (omega arith)
  walk-IsQuiet (suc fuel) w r ps (p ∷ qs) before cs n s c e h q =
      let s' = visit g answers server p s in
      let q' = visit-IsQuiet p n s q in
      let link : next_in s'.db p grid ≡ head qs =
        next_in-servers db s'.db p grid q'.servers
        ∙ ap (next_in db p) c
        ∙ next_in-here db v w r p ps qs before cs e in
      rw (ap is_missed q'.ending, link)
        (IsQuiet-at db _ _ _ (count p qs n) (
          walk-IsQuiet fuel w r (ps ++ (p ∷ [])) qs before cs (n ++ others server (p ∷ [])) s' c
            (e ∙ sym (append_assoc ps (p ∷ []) qs)) (omega (arith, h)) q'))

  walk_queues-IsQuiet :
      (fuel : ℕ) (before cs : List Cell) (n : List Ptr) (s : Search)
      → grid ≡ before ++ cs
      → ((w : ℕ) (r : Role) → length (db.servers w r) < fuel)
      → IsQuiet db n s
      → IsQuiet db (n ++ all_others db.servers server cs) (walk_queues fuel g answers server cs s)
  unfolding walk_queues
  walk_queues-IsQuiet fuel before [] n s c h q = IsQuiet-at db s n _ (sym (append-nil n)) q
  walk_queues-IsQuiet fuel before ((w, r) ∷ cs) n s c h q =
      let q' = walk-IsQuiet fuel w r [] (db.servers w r) before cs n s c refl (h w r) q in
      let first : head (s.db.servers w r) ≡ head (db.servers w r) =
        ap (λ x. head (x w r)) q.servers in
      rw (first, ap is_missed q'.ending)
        (IsQuiet-at db _ _ _
          (append_assoc n (others server (db.servers w r)) (all_others db.servers server cs))
          (walk_queues-IsQuiet fuel (before ++ ((w, r) ∷ [])) cs
            (n ++ others server (db.servers w r)) _ (c ∙ sym (append_assoc before ((w, r) ∷ []) cs))
            h q'))

  -- If no server answers, and every server has a host and a port, the search ends. It has asked
  -- the given server, then the other servers, in the order of the weights, the roles and the queues, in
  -- which each server stands at most once, and leaves all servers as they are.
  pub unsafe_discover_slots-IsQuiet :
      (fuel : ℕ) (next : Ptr)
      → ((w : ℕ) (r : Role) → length (db.servers w r) < fuel)
      → IsQuiet db
          (server ∷ all_others db.servers server grid)
          (unsafe_discover_slots fuel g answers next server db)
  unfolding unsafe_discover_slots
  unsafe_discover_slots-IsQuiet fuel next h =
      let s : Search = record { db = db; next = next; asked = []; ending = missed } in
      let q =
        ask-IsQuiet server [] s
          (record { servers = refl; mem = refl; asked = refl; ending = refl }) in
      rw (ap is_missed q.ending)
        (walk_queues-IsQuiet fuel [] grid (server ∷ []) (ask g answers server s) refl h q)
