-- ===== src/Examples/Clusters.antt =====
-- The theorems on the registration of servers (src/core.c) and on clusters (src/cluster.c), at a
-- database.
use libvmod_redis.Base.{◌%◌, ◌≡◌, refl, true, false, none, some, [], ◌∷◌, arith, length, Str}
use libvmod_redis.Core.Reply.{pos, Reply, string, integer, array, map, cons, end}
use libvmod_redis.Core.Types.{master, set_queue, host}
use libvmod_redis.Core.Plan.Servers.{grid}
use libvmod_redis.Core.Registry.{
  master_word, strrchr, parse_location, str_eq, find_in, find_server, new_redis_server, insert,
  create, unsafe_add_redis_server,
}
use libvmod_redis.Cluster.Slot.{nredis_cluster_slots, get_cluster_slot}
use libvmod_redis.Cluster.Slot.HashTag.{HashPart, get_cluster_slot_lem}
use libvmod_redis.Cluster.Nodes.{
  Node, endpoint_word, port_word, role_word, read_field, read_fields, node_endpoint, check_node,
  parse_fields, effective_port, parse_node, parse_slot_range, node_location,
}
use libvmod_redis.Cluster.Nodes.Printing.{parse_location-node_location}
use libvmod_redis.Cluster.Topology.{
  visit_shards, visit_shard, visit_lists, read_shard, read_property, parse_error, conclude, Setting,
  unsafe_discover_slots_aux,
}
use libvmod_redis.Cluster.Topology.Untouched.{IsSame, unsafe_discover_slots_aux-IsSame}
use libvmod_redis.Examples.Data.{db}

-- "{a}b".
abbrev key : Str
key = 123 ∷ 97 ∷ 125 ∷ 98 ∷ []

get_cluster_slot_example :
    (part : Str) × HashPart key part
    × (get_cluster_slot length key ≡ length part % nredis_cluster_slots)
get_cluster_slot_example = get_cluster_slot_lem length key

-- "n:2".
abbrev location : Str
location = 110 ∷ 58 ∷ 50 ∷ []

added : (unsafe_add_redis_server (λ s r. false) [] 5 5 none none 9 db location master).0 ≡ some 9
unfolding unsafe_add_redis_server create insert find_server find_in str_eq new_redis_server grid
    set_queue
added = refl

accepted : parse_slot_range (integer (pos 3)) (integer (pos 8)) ≡ some (3, 8)
unfolding parse_slot_range
accepted = refl

abbrev node : Node
node = record { endpoint = 110 ∷ []; port = 2; role = master; healthy = true }

abbrev reply : Reply
reply = map (
    cons (string endpoint_word) (
      cons (string (110 ∷ [])) (
        cons (string port_word)
          (cons (integer (pos 2)) (cons (string role_word) (cons (string master_word) end))))))

parsed : parse_node reply db 7 ≡ some node
unfolding parse_node parse_fields read_fields read_field node_endpoint check_node effective_port
    str_eq
parsed = refl

parse_location-node_location_example :
    parse_location (node_location node) (strrchr 58 (node_location node)) ≡ host (110 ∷ []) 2
parse_location-node_location_example = parse_location-node_location node (omega arith)

abbrev setting : Setting
setting = record { re_match = λ s r. false; rules = []; now = 5 }

-- A shard without slots and nodes.
discovery_fails :
    (unsafe_discover_slots_aux setting 9 (some (array (cons reply end))) 7 db).0 ≡ false
unfolding unsafe_discover_slots_aux visit_shards visit_shard visit_lists read_shard read_property
    str_eq parse_error conclude
discovery_fails = refl

unsafe_discover_slots_aux-IsSame_example :
    IsSame 9 db (unsafe_discover_slots_aux setting 9 (some (array (cons reply end))) 7 db).1.db
unsafe_discover_slots_aux-IsSame_example =
    unsafe_discover_slots_aux-IsSame setting 9 (cons reply end) 7 db discovery_fails
