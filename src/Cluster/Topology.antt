-- ===== src/Cluster/Topology.antt =====
-- The discovery of the topology in src/cluster.c: unsafe_reset_slots(), unsafe_add_node(), and what
-- unsafe_discover_slots_aux() does with the reply to CLUSTER SHARDS. The time that time() returns
-- does not change during a discovery, and a new server is at the next address of `next`.
pub mod Registering
pub mod Untouched
use libvmod_redis.Base.{
  ℕ, suc, ◌+◌, ◌/◌, ◌%◌, Bool, true, false, ◌&&◌, ◌||◌, Option, none, some, List, [], ◌∷◌, ◌++◌,
  ltb, leb, ◌==◌, not, if◌then◌else◌, length, Str,
}
use libvmod_redis.Core.Reply.{ℤ, pos, Reply, Replies, string, integer, nil, array, map, cons, end}
use libvmod_redis.Core.Types.{
  Ptr, Role, slave, master, tbd, role_eq, Location, host, socket, Server, Db, inc,
}
use libvmod_redis.Core.Valid.{with_stats}
use libvmod_redis.Core.Connect.{with_server}
use libvmod_redis.Core.Plan.Servers.{Cell, grid}
use libvmod_redis.Core.Registry.{str_eq, master_word, WeightRule, unsafe_add_redis_server}
use libvmod_redis.Cluster.Slot.{nredis_cluster_slots}
use libvmod_redis.Cluster.Nodes.{parse_slot_range, Node, parse_node, node_location, pairs}

-- unsafe_reset_slots().
unfoldable pub reset_queue : List Ptr → Db → Db
reset_queue [] db = db
reset_queue (p ∷ ps) db =
    reset_queue ps (with_server db p (record (db.mem p) { slots = λ i. false }))

unfoldable pub reset_queues : List Cell → Db → Db
unfolding reset_queue
reset_queues [] db = db
reset_queues ((w, r) ∷ cs) db = reset_queues cs (reset_queue (db.servers w r) db)

unfoldable pub unsafe_reset_slots : Db → Db
unfolding reset_queues
unsafe_reset_slots db = reset_queues grid db

-- What a discovery is given: the regular expressions of the weights, and the time.
pub record Setting : Type 0 where
  pub re_match : Str → ℕ → Bool
  pub rules : List WeightRule
  pub now : ℕ

-- unsafe_add_node(). The role of a node is known, so no server is asked for it.
abbrev pub tag_sick : ℕ → Bool → Option Ptr × Db → Option Ptr × Db
tag_sick now healthy (none, db) = (none, db)
tag_sick now healthy (some p, db) =
    if not healthy && ltb 0 db.sickness_ttl
    then (
      some p,
      with_server db p
          (record (db.mem p) { sickness_tst = now; sickness_exp = now + db.sickness_ttl }),
    )
    else (some p, db)

unfoldable pub unsafe_add_node : Setting → Ptr → Db → Node → Option Ptr × Db
unsafe_add_node g fresh db node =
    if leb 256 (length (node_location node))
    then (none, db)
    else tag_sick g.now node.healthy (
        unsafe_add_redis_server g.re_match g.rules g.now g.now none none fresh db
          (node_location node) node.role)

-- The local variables of unsafe_discover_slots_aux(), and the next address of a new server.
pub record Discovery : Type 0 where
  pub db : Db
  pub next : Ptr
  pub parse_errors : ℕ
  pub slot_ranges : ℕ
  pub reset : Bool

unfoldable pub parse_error : Discovery → Discovery
parse_error d = record d { parse_errors = d.parse_errors + 1 }

-- The ranges of a shard, and the number of those that cannot be parsed.
abbrev pub add_range : Option (ℕ × ℕ) → List (ℕ × ℕ) × ℕ → List (ℕ × ℕ) × ℕ
add_range none (rs, errors) = (rs, errors + 1)
add_range (some r) (rs, errors) = (r ∷ rs, errors)

unfoldable pub parse_ranges : Replies → List (ℕ × ℕ) × ℕ
unfolding parse_slot_range
parse_ranges (cons start (cons stop rest)) =
    add_range (parse_slot_range start stop) (parse_ranges rest)
parse_ranges _ = ([], 0)

-- A range of slots of a server.
unfoldable pub own_range : ℕ × ℕ → (ℕ → Bool) → ℕ → Bool
own_range (start, stop) slots i = if leb start i && leb i stop then true else slots i

unfoldable pub own_ranges : List (ℕ × ℕ) → (ℕ → Bool) → ℕ → Bool
unfolding own_range
own_ranges [] slots = slots
own_ranges (r ∷ rs) slots = own_ranges rs (own_range r slots)

-- The registration of the ranges of a shard for one of its nodes.
unfoldable pub register_ranges : List (ℕ × ℕ) → Ptr → Discovery → Discovery
unfolding own_ranges unsafe_reset_slots
register_ranges ranges p d =
    let resets = ltb 0 (length ranges) && not d.reset in
    let db = if resets then unsafe_reset_slots d.db else d.db in
    record d {
      db = with_server db p (record (db.mem p) { slots = own_ranges ranges (db.mem p).slots });
      slot_ranges = d.slot_ranges + length ranges;
      reset = if resets then true else d.reset;
    }

abbrev pub added_node : List (ℕ × ℕ) → Discovery → Option Ptr × Db → Discovery
added_node ranges d (none, db) = parse_error (record d { db = db; next = d.next + 1 })
added_node ranges d (some p, db) =
    register_ranges ranges p (record d { db = db; next = d.next + 1 })

unfoldable pub visit_node : Setting → Ptr → List (ℕ × ℕ) → Reply → Discovery → Discovery
visit_node g server ranges reply d = visited (parse_node reply d.db server)
  where
    visited : Option Node → Discovery
    visited none = parse_error d
    visited (some node) = added_node ranges d (unsafe_add_node g d.next d.db node)

unfoldable pub visit_nodes : Setting → Ptr → List (ℕ × ℕ) → Replies → Discovery → Discovery
unfolding visit_node
visit_nodes g server ranges end d = d
visit_nodes g server ranges (cons reply rest) d =
    visit_nodes g server ranges rest (visit_node g server ranges reply d)

-- The properties of a shard, and the number of keys that are no strings.
pub record Shard : Type 0 where
  pub slots : Option Replies
  pub nodes : Option Replies
  pub errors : ℕ

-- "slots" and "nodes".
abbrev pub slots_word : Str
slots_word = 115 ∷ 108 ∷ 111 ∷ 116 ∷ 115 ∷ []

abbrev pub nodes_word : Str
nodes_word = 110 ∷ 111 ∷ 100 ∷ 101 ∷ 115 ∷ []

abbrev pub array_or : Reply → Option Replies → Option Replies
array_or (array es) o = some es
array_or _ o = o

abbrev pub nonempty_or : Reply → Option Replies → Option Replies
nonempty_or (array (cons e es)) o = some (cons e es)
nonempty_or _ o = o

unfoldable pub read_property : Reply → Reply → Shard → Shard
unfolding str_eq
read_property (string key) value s =
    if str_eq key slots_word
    then record s { slots = array_or value s.slots }
    else if str_eq key nodes_word
    then record s { nodes = nonempty_or value s.nodes }
    else s
read_property _ value s = record s { errors = s.errors + 1 }

unfoldable pub read_shard : Replies → Shard → Shard
unfolding read_property
read_shard (cons key (cons value rest)) s = read_shard rest (read_property key value s)
read_shard _ s = s

abbrev pub is_even : Replies → Bool
is_even end = true
is_even (cons _ end) = false
is_even (cons _ (cons _ rest)) = is_even rest

unfoldable pub visit_lists : Setting → Ptr → Option Replies → Option Replies → Discovery → Discovery
unfolding parse_ranges visit_nodes
visit_lists g server (some slots) (some nodes) d =
    let (ranges, errors) = parse_ranges slots in
    if is_even slots
    then visit_nodes g server ranges nodes (record d { parse_errors = d.parse_errors + errors })
    else parse_error d
visit_lists g server _ _ d = parse_error d

abbrev pub empty_shard : Shard
empty_shard = record { slots = none; nodes = none; errors = 0 }

abbrev pub visit_pairs : Setting → Ptr → Option Replies → Discovery → Discovery
visit_pairs g server none d = parse_error d
visit_pairs g server (some es) d =
    let s = read_shard es empty_shard in
    visit_lists g server s.slots s.nodes (record d { parse_errors = d.parse_errors + s.errors })

unfoldable pub visit_shard : Setting → Ptr → Reply → Discovery → Discovery
visit_shard g server shard d = visit_pairs g server (pairs shard) d

unfoldable pub visit_shards : Setting → Ptr → Replies → Discovery → Discovery
unfolding visit_shard
visit_shards g server end d = d
visit_shards g server (cons shard rest) d =
    visit_shards g server rest (visit_shard g server shard d)

-- The counter at the end of a discovery: whether some range was registered.
unfoldable pub conclude : Discovery → Bool × Discovery
conclude d =
    let s = d.db.stats in
    if ltb 0 d.slot_ranges
    then (
      true,
      record d { db = with_stats d.db (record s { discoveries_total = inc s.discoveries_total }) },
    )
    else (
      false,
      record d {
        db = with_stats d.db (record s { discoveries_failed = inc s.discoveries_failed });
      },
    )

-- unsafe_discover_slots_aux(). `none` is no reply, for whatever reason.
abbrev pub discovery_failed : Discovery → Bool × Discovery
discovery_failed d =
    let s = d.db.stats in
    (
      false,
      record d {
        db = with_stats d.db (record s { discoveries_failed = inc s.discoveries_failed });
      },
    )

unfoldable pub unsafe_discover_slots_aux :
    Setting → Ptr → Option Reply → Ptr → Db → Bool × Discovery
unfolding conclude
unsafe_discover_slots_aux g next (some (array shards)) server db = conclude (
    visit_shards g server shards
      (record { db = db; next = next; parse_errors = 0; slot_ranges = 0; reset = false }))
unsafe_discover_slots_aux g next _ server db =
    discovery_failed
      (record { db = db; next = next; parse_errors = 0; slot_ranges = 0; reset = false })
