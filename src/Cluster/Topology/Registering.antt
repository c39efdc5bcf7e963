-- ===== src/Cluster/Topology/Registering.antt =====
-- The discovery of src/cluster.c keeps the queues of servers in order.
use libvmod_redis.Base.{
  Str, ℕ, ◌+◌, ◌≤◌, ◌≡◌, refl, sym, ap, ◌∙◌, Bool, true, false, ◌&&◌, Option, none, some, List, [],
  ◌∷◌, ltb, leb, ◌==◌, not, if◌then◌else◌, length, arith, Bool-cases, Option-cases, inl, inr,
}
use libvmod_redis.Core.Reply.{Reply, Replies, array, cons, end}
use libvmod_redis.Core.Types.{Role, Ptr, Server, Db, set_mem}
use libvmod_redis.Core.Connect.{with_server}
use libvmod_redis.Core.Plan.Servers.{Cell, grid}
use libvmod_redis.Core.Registry.{unsafe_add_redis_server}
use libvmod_redis.Core.Registry.Invariant.{IsRegistry, IsUnlisted, IsRegistry-mem}
use libvmod_redis.Core.Registry.Adding.{unsafe_add_redis_server-IsRegistry}
use libvmod_redis.Core.Registry.Others.{unsafe_add_redis_server-IsUnlisted}
use libvmod_redis.Cluster.Nodes.{pairs, Node, parse_node, node_location}
use libvmod_redis.Cluster.Topology.{
  tag_sick, own_ranges, parse_ranges, is_even, read_shard, empty_shard, reset_queue, reset_queues,
  unsafe_reset_slots, Setting, unsafe_add_node, Discovery, parse_error, register_ranges, added_node,
  visit_node, visit_nodes, visit_lists, visit_pairs, visit_shard, visit_shards, conclude,
  unsafe_discover_slots_aux,
}

-- A change of slots, sickness or counters: queues, weights and roles stay.
pub record IsKept (db db' : Db) : Type 0 where
  pub queues : db'.servers ≡ db.servers
  pub weights : (q : Ptr) → (db'.mem q).weight ≡ (db.mem q).weight
  pub roles : (q : Ptr) → (db'.mem q).role ≡ (db.mem q).role

pub IsKept-trans : (a b c : Db) → IsKept a b → IsKept b c → IsKept a c
IsKept-trans a b c x y = record {
  queues = y.queues ∙ x.queues;
  weights = λ q. y.weights q ∙ x.weights q;
  roles = λ q. y.roles q ∙ x.roles q;
}

pub IsKept-refl : (a : Db) → IsKept a a
IsKept-refl a = record { queues = refl; weights = λ q. refl; roles = λ q. refl }

-- A server that is replaced by one with the same weight and role.
pub with_server-IsKept :
    (db : Db) (p : Ptr) (s : Server)
    → s.weight ≡ (db.mem p).weight
    → s.role ≡ (db.mem p).role
    → IsKept db (with_server db p s)
unfolding set_mem
with_server-IsKept db p s w r = record {
  queues = refl;
  weights = λ q. elim (Bool-cases (q == p)) [
    | inl h ↦ let e : q ≡ p = ground arith in rw h (w ∙ ap (λ x. (db.mem x).weight) (sym e))
    | inr h ↦ rw h refl
  ];
  roles = λ q. elim (Bool-cases (q == p)) [
    | inl h ↦ let e : q ≡ p = ground arith in rw h (r ∙ ap (λ x. (db.mem x).role) (sym e))
    | inr h ↦ rw h refl
  ];
}

reset_queue-IsKept : (ps : List Ptr) (db : Db) → IsKept db (reset_queue ps db)
unfolding reset_queue
reset_queue-IsKept [] db = IsKept-refl db
reset_queue-IsKept (p ∷ ps) db =
    let next = with_server db p (record (db.mem p) { slots = λ i. false }) in
    IsKept-trans db next (reset_queue ps next)
      (with_server-IsKept db p (record (db.mem p) { slots = λ i. false }) refl refl)
      (reset_queue-IsKept ps next)

reset_queues-IsKept : (cs : List Cell) (db : Db) → IsKept db (reset_queues cs db)
unfolding reset_queues
reset_queues-IsKept [] db = IsKept-refl db
reset_queues-IsKept ((w, r) ∷ cs) db =
    let next = reset_queue (db.servers w r) db in
    IsKept-trans db next (reset_queues cs next) (reset_queue-IsKept (db.servers w r) db)
      (reset_queues-IsKept cs next)

-- The registry is in order, and the addresses from `next` on are those of no listed server.
pub record IsOrderly (db : Db) (next : Ptr) : Type 0 where
  pub registry : IsRegistry db
  pub fresh : (q : Ptr) → next ≤ q → IsUnlisted q db

pub kept-IsOrderly :
    (db db' : Db) (next : Ptr) → IsKept db db' → IsOrderly db next → IsOrderly db' next
kept-IsOrderly db db' next k v = record {
  registry = IsRegistry-mem db db' k.queues (λ w r q _. (k.weights q, k.roles q)) v.registry;
  fresh = λ q h w r. rw (ap (λ s. s w r) k.queues) (v.fresh q h w r);
}

tag_sick-IsKept :
    (g : Setting) (healthy : Bool) (r : Option Ptr) (db : Db)
    → IsKept db (tag_sick g.now healthy (r, db)).1
tag_sick-IsKept g healthy none db = IsKept-refl db
tag_sick-IsKept g healthy (some p) db =
    let tagged : Server = record (db.mem p) {
      sickness_tst = g.now;
      sickness_exp = g.now + db.sickness_ttl;
    } in
    elim (Bool-cases (not healthy && ltb 0 db.sickness_ttl)) [
      | inl h ↦ rw h (with_server-IsKept db p tagged refl refl)
      | inr h ↦ rw h (IsKept-refl db)
    ]

pub unsafe_add_redis_server-IsOrderly :
    (g : Setting) (now now2 : ℕ) (dial : Option ℕ) (answer : Option Reply) (next : Ptr) (db : Db)
    (location : Str) (role : Role)
    → IsOrderly db next
    → IsOrderly
        (unsafe_add_redis_server g.re_match g.rules now now2 dial answer next db location role).1
        (next + 1)
unsafe_add_redis_server-IsOrderly g now now2 dial answer next db location role v = record {
  registry =
      unsafe_add_redis_server-IsRegistry g.re_match g.rules now now2 dial answer next db location
        role (v.fresh next (omega arith)) v.registry;
  fresh = λ q h.
      unsafe_add_redis_server-IsUnlisted g.re_match g.rules now now2 dial answer next q db location
        role (ground arith) (v.fresh q (omega arith));
}

unsafe_add_node-IsOrderly :
    (g : Setting) (next : Ptr) (db : Db) (node : Node)
    → IsOrderly db next
    → IsOrderly (unsafe_add_node g next db node).1 (next + 1)
unfolding unsafe_add_node
unsafe_add_node-IsOrderly g next db node v =
    let location = node_location node in
    let o =
      unsafe_add_redis_server g.re_match g.rules g.now g.now none none next db location node.role in
    elim (Bool-cases (leb 256 (length location))) [
      | inl h ↦ rw h (record { registry = v.registry; fresh = λ q k. v.fresh q (omega arith) })
      | inr h ↦ rw h (
          kept-IsOrderly o.1 (tag_sick g.now node.healthy o).1 (next + 1)
            (tag_sick-IsKept g node.healthy o.0 o.1)
            (unsafe_add_redis_server-IsOrderly g g.now g.now none none next db location node.role
              v))
    ]

-- A discovery under way.
abbrev pub IsOrderlyAt : Discovery → Type 0
IsOrderlyAt d = IsOrderly d.db d.next

reset_maybe-IsKept : (b : Bool) (db : Db) → IsKept db (if b then unsafe_reset_slots db else db)
unfolding unsafe_reset_slots
reset_maybe-IsKept true db = reset_queues-IsKept grid db
reset_maybe-IsKept false db = IsKept-refl db

register_ranges-IsOrderly :
    (ranges : List (ℕ × ℕ)) (p : Ptr) (d : Discovery)
    → IsOrderlyAt d
    → IsOrderlyAt (register_ranges ranges p d)
unfolding register_ranges
register_ranges-IsOrderly ranges p d v =
    let resets = ltb 0 (length ranges) && not d.reset in
    let db = if resets then unsafe_reset_slots d.db else d.db in
    kept-IsOrderly d.db _ d.next
      (IsKept-trans d.db db _ (reset_maybe-IsKept resets d.db) (
        with_server-IsKept db p (record (db.mem p) { slots = own_ranges ranges (db.mem p).slots })
          refl refl))
      v

added_node-IsOrderly :
    (ranges : List (ℕ × ℕ)) (d : Discovery) (r : Option Ptr) (db : Db)
    → IsOrderly db (d.next + 1)
    → IsOrderlyAt (added_node ranges d (r, db))
unfolding parse_error
added_node-IsOrderly ranges d none db v = v
added_node-IsOrderly ranges d (some p) db v =
    register_ranges-IsOrderly ranges p (record d { db = db; next = d.next + 1 }) v

module _ (g : Setting) (server : Ptr) where
  visit_node-IsOrderly :
      (ranges : List (ℕ × ℕ)) (reply : Reply) (d : Discovery)
      → IsOrderlyAt d
      → IsOrderlyAt (visit_node g server ranges reply d)
  unfolding visit_node parse_error
  visit_node-IsOrderly ranges reply d v = elim (Option-cases (parse_node reply d.db server)) [
    | inl h ↦ rw h v
    | inr (node, h) ↦
        let o = unsafe_add_node g d.next d.db node in
        rw h
          (added_node-IsOrderly ranges d o.0 o.1 (unsafe_add_node-IsOrderly g d.next d.db node v))
  ]

  visit_nodes-IsOrderly :
      (ranges : List (ℕ × ℕ)) (nodes : Replies) (d : Discovery)
      → IsOrderlyAt d
      → IsOrderlyAt (visit_nodes g server ranges nodes d)
  unfolding visit_nodes
  visit_nodes-IsOrderly ranges end d v = v
  visit_nodes-IsOrderly ranges (cons reply rest) d v =
      visit_nodes-IsOrderly ranges rest (visit_node g server ranges reply d)
        (visit_node-IsOrderly ranges reply d v)

  visit_lists-IsOrderly :
      (slots nodes : Option Replies) (d : Discovery)
      → IsOrderlyAt d
      → IsOrderlyAt (visit_lists g server slots nodes d)
  unfolding visit_lists parse_error
  visit_lists-IsOrderly none nodes d v = v
  visit_lists-IsOrderly (some slots) none d v = v
  visit_lists-IsOrderly (some slots) (some nodes) d v = elim (Bool-cases (is_even slots)) [
    | inl h ↦
        let r = parse_ranges slots in
        rw h (visit_nodes-IsOrderly r.0 nodes (record d { parse_errors = d.parse_errors + r.1 }) v)
    | inr h ↦ rw h v
  ]

  visit_pairs-IsOrderly :
      (es : Option Replies) (d : Discovery)
      → IsOrderlyAt d
      → IsOrderlyAt (visit_pairs g server es d)
  unfolding parse_error
  visit_pairs-IsOrderly none d v = v
  visit_pairs-IsOrderly (some es) d v =
      let s = read_shard es empty_shard in
      visit_lists-IsOrderly s.slots s.nodes (record d { parse_errors = d.parse_errors + s.errors })
        v

  visit_shards-IsOrderly :
      (shards : Replies) (d : Discovery)
      → IsOrderlyAt d
      → IsOrderlyAt (visit_shards g server shards d)
  unfolding visit_shards visit_shard
  visit_shards-IsOrderly end d v = v
  visit_shards-IsOrderly (cons shard rest) d v =
      visit_shards-IsOrderly rest (visit_shard g server shard d)
        (visit_pairs-IsOrderly (pairs shard) d v)

conclude-IsOrderly : (d : Discovery) → IsOrderlyAt d → IsOrderlyAt (conclude d).1
unfolding conclude
conclude-IsOrderly d v = elim (Bool-cases (ltb 0 d.slot_ranges)) [
  | inl h ↦ rw h (
      kept-IsOrderly d.db _ d.next
        (record { queues = refl; weights = λ q. refl; roles = λ q. refl }) v)
  | inr h ↦ rw h (
      kept-IsOrderly d.db _ d.next
        (record { queues = refl; weights = λ q. refl; roles = λ q. refl }) v)
]

-- Whatever array a server answers, a discovery keeps every server in the queue of its weight and its
-- role, and in it once, and new servers at addresses of their own.
pub unsafe_discover_slots_aux-IsOrderly :
    (g : Setting) (next : Ptr) (shards : Replies) (server : Ptr) (db : Db)
    → IsOrderly db next
    → IsOrderlyAt (unsafe_discover_slots_aux g next (some (array shards)) server db).1
unfolding unsafe_discover_slots_aux
unsafe_discover_slots_aux-IsOrderly g next shards server db v = conclude-IsOrderly _ (
    visit_shards-IsOrderly g server shards
      (record { db = db; next = next; parse_errors = 0; slot_ranges = 0; reset = false }) v)
