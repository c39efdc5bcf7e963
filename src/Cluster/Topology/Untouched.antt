-- ===== src/Cluster/Topology/Untouched.antt =====
-- A discovery of src/cluster.c that registers no range of slots leaves the slots of the servers alone.
use libvmod_redis.Base.{
  ℕ, ◌+◌, ◌≤◌, ◌<◌, ◌≡◌, ◌⊎◌, refl, sym, ap, ◌∙◌, Bool, false, ◌&&◌, Option, none, some, List, [],
  ◌∷◌, ltb, leb, ◌==◌, not, if◌then◌else◌, length, arith, Bool-cases, Option-cases, inl, inr, Str,
}
use libvmod_redis.Core.Reply.{Replies, array, cons, end}
use libvmod_redis.Core.Types.{Ptr, Role, tbd, role_eq, Server, Db, set_mem}
use libvmod_redis.Core.Valid.{with_stats}
use libvmod_redis.Core.Connect.{with_server}
use libvmod_redis.Core.Plan.Servers.{grid}
use libvmod_redis.Core.Registry.{
  WeightRule, discover_role, create, update, insert, take_out, find_server, new_redis_server,
  unsafe_add_redis_server,
}
use libvmod_redis.Core.Registry.Adding.{IsSettled, maybe-IsSettled}
use libvmod_redis.Cluster.Nodes.{pairs, Node, parse_node, node_location}
use libvmod_redis.Cluster.Topology.{
  tag_sick, own_ranges, parse_ranges, is_even, read_shard, empty_shard, Setting, unsafe_add_node,
  Discovery, parse_error, register_ranges, added_node, visit_node, visit_nodes, visit_lists,
  visit_pairs, visit_shard, visit_shards, conclude, unsafe_discover_slots_aux,
}

-- The servers below an address have the slots that they had.
abbrev pub IsSame : Ptr → Db → Db → Type 0
IsSame next db db' = (q : Ptr) → q < next → (db'.mem q).slots ≡ (db.mem q).slots

with_server-IsSame :
    (db : Db) (p : Ptr) (s : Server) (q : Ptr)
    → (q == p ≡ false) ⊎ (s.slots ≡ (db.mem p).slots)
    → ((with_server db p s).mem q).slots ≡ (db.mem q).slots
unfolding set_mem
with_server-IsSame db p s q (inl h) = rw h refl
with_server-IsSame db p s q (inr e) = elim (Bool-cases (q == p)) [
  | inl h ↦ let same : q ≡ p = ground arith in rw h (e ∙ ap (λ x. (db.mem x).slots) (sym same))
  | inr h ↦ rw h refl
]

insert-slots : (p q : Ptr) (db : Db) → ((insert p db).mem q).slots ≡ (db.mem q).slots
unfolding insert
insert-slots p q db = refl

create-IsSame :
    (re_match : Str → ℕ → Bool) (rules : List WeightRule) (now : ℕ) (p : Ptr) (o : Option Server)
    (db : Db)
    → IsSame p db (create re_match rules now none none p o db).1
unfolding create insert
create-IsSame re_match rules now p none db q h = refl
create-IsSame re_match rules now p (some s) db q h =
    let placed = with_server db p s in
    let call =
      if role_eq s.role tbd then discover_role now none none p placed else (s.role, placed) in
    let e : IsSettled placed call.1 =
      maybe-IsSettled now none none p placed s.role (role_eq s.role tbd) in
    let other : q == p ≡ false = ground arith in
    with_server-IsSame call.1 p _ q (inl other)
    ∙ e.slots q
    ∙ with_server-IsSame db p s q (inl other)

update-IsSame :
    (now now2 : ℕ) (role : Role) (p : Ptr) (db : Db) (q : Ptr)
    → ((update now now2 none none role p db).1.mem q).slots ≡ (db.mem q).slots
unfolding update insert
update-IsSame now now2 role p db q =
    let call = if role_eq role tbd then discover_role now none none p db else (role, db) in
    let e : IsSettled db call.1 = maybe-IsSettled now none none p db role (role_eq role tbd) in
    with_server-IsSame call.1 p _ q (inr refl) ∙ e.slots q

add-IsSame :
    (re_match : Str → ℕ → Bool) (rules : List WeightRule) (now : ℕ) (fresh : Ptr) (db : Db)
    (location : Str) (role : Role)
    → IsSame fresh db
        (unsafe_add_redis_server re_match rules now now none none fresh db location role).1
unfolding unsafe_add_redis_server take_out
add-IsSame re_match rules now fresh db location role q h =
    elim (Option-cases (find_server db location grid)) [
      | inl k ↦
          rw k (create-IsSame re_match rules now fresh (new_redis_server db location role) db q h)
      | inr (((w, r), p), k) ↦ rw k (update-IsSame now now role p (take_out w r p db) q)
    ]

tag_sick-IsSame :
    (now : ℕ) (healthy : Bool) (r : Option Ptr) (db : Db) (q : Ptr)
    → ((tag_sick now healthy (r, db)).1.mem q).slots ≡ (db.mem q).slots
tag_sick-IsSame now healthy none db q = refl
tag_sick-IsSame now healthy (some p) db q =
    elim (Bool-cases (not healthy && ltb 0 db.sickness_ttl)) [
      | inl h ↦ rw h (with_server-IsSame db p _ q (inr refl))
      | inr h ↦ rw h refl
    ]

unsafe_add_node-IsSame :
    (g : Setting) (fresh : Ptr) (db : Db) (node : Node)
    → IsSame fresh db (unsafe_add_node g fresh db node).1
unfolding unsafe_add_node
unsafe_add_node-IsSame g fresh db node q h =
    let location = node_location node in
    let o =
      unsafe_add_redis_server g.re_match g.rules g.now g.now none none fresh db location
        node.role in
    elim (Bool-cases (leb 256 (length location))) [
      | inl k ↦ rw k refl
      | inr k ↦ rw k (
          tag_sick-IsSame g.now node.healthy o.0 o.1 q
          ∙ add-IsSame g.re_match g.rules g.now fresh db location node.role q h)
    ]

module _ (start : Ptr) (db₀ : Db) where
  -- As long as no range is registered, the servers that were there have the slots that they had.
  pub record IsUntouched (d : Discovery) : Type 0 where
    pub later : start ≤ d.next
    pub kept : d.slot_ranges ≡ 0 → IsSame start db₀ d.db

  register_ranges-IsUntouched :
      (ranges : List (ℕ × ℕ)) (p : Ptr) (d : Discovery)
      → IsUntouched d
      → IsUntouched (register_ranges ranges p d)
  unfolding register_ranges own_ranges
  register_ranges-IsUntouched [] p d v = record {
    later = v.later;
    kept = λ e q h. with_server-IsSame d.db p _ q (inr refl) ∙ v.kept (omega (arith, e)) q h;
  }
  register_ranges-IsUntouched (r ∷ rs) p d v = record {
    later = v.later;
    kept = λ e. absurd (omega (arith, e));
  }

  parse_error-IsUntouched : (d : Discovery) → IsUntouched d → IsUntouched (parse_error d)
  unfolding parse_error
  parse_error-IsUntouched d v = record { later = v.later; kept = v.kept }

  added_node-IsUntouched :
      (ranges : List (ℕ × ℕ)) (d : Discovery) (r : Option Ptr) (db : Db)
      → IsSame d.next d.db db
      → IsUntouched d
      → IsUntouched (added_node ranges d (r, db))
  added_node-IsUntouched ranges d r db same v = placed r
    where
      added : IsUntouched (record d { db = db; next = d.next + 1 })
      added =
          let later = v.later in
          record {
            later = omega (arith, later);
            kept = λ e q h. same q (omega (arith, h, later)) ∙ v.kept e q h;
          }

      placed : (r : Option Ptr) → IsUntouched (added_node ranges d (r, db))
      placed none = parse_error-IsUntouched (record d { db = db; next = d.next + 1 }) added
      placed (some p) =
          register_ranges-IsUntouched ranges p (record d { db = db; next = d.next + 1 }) added

  module _ (g : Setting) (server : Ptr) where
    visit_nodes-IsUntouched :
        (ranges : List (ℕ × ℕ)) (nodes : Replies) (d : Discovery)
        → IsUntouched d
        → IsUntouched (visit_nodes g server ranges nodes d)
    unfolding visit_nodes visit_node
    visit_nodes-IsUntouched ranges end d v = v
    visit_nodes-IsUntouched ranges (cons reply rest) d v =
        visit_nodes-IsUntouched ranges rest (visit_node g server ranges reply d)
          (elim (Option-cases (parse_node reply d.db server)) [
            | inl h ↦ rw h (parse_error-IsUntouched d v)
            | inr (node, h) ↦
                let o = unsafe_add_node g d.next d.db node in
                rw h (
                  added_node-IsUntouched ranges d o.0 o.1
                    (unsafe_add_node-IsSame g d.next d.db node) v)
          ])

    visit_lists-IsUntouched :
        (slots nodes : Option Replies) (d : Discovery)
        → IsUntouched d
        → IsUntouched (visit_lists g server slots nodes d)
    unfolding visit_lists
    visit_lists-IsUntouched none nodes d v = parse_error-IsUntouched d v
    visit_lists-IsUntouched (some slots) none d v = parse_error-IsUntouched d v
    visit_lists-IsUntouched (some slots) (some nodes) d v = elim (Bool-cases (is_even slots)) [
      | inl h ↦
          let r = parse_ranges slots in
          rw h (
            visit_nodes-IsUntouched r.0 nodes (record d { parse_errors = d.parse_errors + r.1 })
              (record { later = v.later; kept = v.kept }))
      | inr h ↦ rw h (parse_error-IsUntouched d v)
    ]

    visit_pairs-IsUntouched :
        (es : Option Replies) (d : Discovery)
        → IsUntouched d
        → IsUntouched (visit_pairs g server es d)
    visit_pairs-IsUntouched none d v = parse_error-IsUntouched d v
    visit_pairs-IsUntouched (some es) d v =
        let s = read_shard es empty_shard in
        visit_lists-IsUntouched s.slots s.nodes
          (record d { parse_errors = d.parse_errors + s.errors })
          (record { later = v.later; kept = v.kept })

    visit_shards-IsUntouched :
        (shards : Replies) (d : Discovery)
        → IsUntouched d
        → IsUntouched (visit_shards g server shards d)
    unfolding visit_shards visit_shard
    visit_shards-IsUntouched end d v = v
    visit_shards-IsUntouched (cons shard rest) d v =
        visit_shards-IsUntouched rest (visit_shard g server shard d)
          (visit_pairs-IsUntouched (pairs shard) d v)

conclude-fails :
    (d : Discovery)
    → (conclude d).0 ≡ false
    → (d.slot_ranges ≡ 0) × ((conclude d).1.db ≡ with_stats d.db (conclude d).1.db.stats)
unfolding conclude
conclude-fails d e = ground arith

-- A discovery that fails, with `next` above the addresses of the known servers, leaves the slots of all
-- of them as they were, whatever array the server has answered.
pub unsafe_discover_slots_aux-IsSame :
    (g : Setting) (next : Ptr) (shards : Replies) (server : Ptr) (db : Db)
    → (unsafe_discover_slots_aux g next (some (array shards)) server db).0 ≡ false
    → IsSame next db (unsafe_discover_slots_aux g next (some (array shards)) server db).1.db
unfolding unsafe_discover_slots_aux
unsafe_discover_slots_aux-IsSame g next shards server db e q h =
    let begin : Discovery = record {
      db = db;
      next = next;
      parse_errors = 0;
      slot_ranges = 0;
      reset = false;
    } in
    let d = visit_shards g server shards begin in
    let v : IsUntouched next db d =
      visit_shards-IsUntouched next db g server shards begin
        (record { later = omega arith; kept = λ _ x _. refl }) in
    let f = conclude-fails d e in ap (λ x. (x.mem q).slots) f.1 ∙ v.kept f.0 q h
