-- ===== src/Cluster/Nodes/Sound.antt =====
-- What parse_node() and parse_slot_range() of src/cluster.c accept.
use libvmod_redis.Base.{ℕ, ◌≤◌, ◌<◌, ◌≡◌, ◌≢◌, refl, false, Option, none, some, [], ◌∷◌, arith, Str}
use libvmod_redis.Core.Reply.{pos, negsuc, Reply, Replies, string, integer, cons, end}
use libvmod_redis.Core.Types.{Ptr, tbd, role_eq, Db}
use libvmod_redis.Cluster.Slot.{nredis_cluster_slots}
use libvmod_redis.Cluster.Nodes.{
  parse_slot_range, Node, Fields, read_port, read_field, read_fields, node_endpoint, effective_port,
  check_node, no_fields, parse_fields, parse_node, host_of, pairs,
}

-- A range that parse_slot_range() accepts lies within the slots of a cluster, and the reply says it.
pub parse_slot_range-bounds :
    (a b : Reply) (start stop : ℕ)
    → parse_slot_range a b ≡ some (start, stop)
    → (a ≡ integer (pos start))
      × (b ≡ integer (pos stop))
      × (start ≤ stop)
      × (stop < nredis_cluster_slots)
unfolding parse_slot_range
parse_slot_range-bounds (integer (pos x)) (integer (pos y)) start stop e = ground arith
parse_slot_range-bounds _ _ start stop e = absurd (ground arith)

read_port-bound : (r : Reply) (p : ℕ) → p ≤ 65535 → read_port r p ≤ 65535
unfolding read_port
read_port-bound (integer (pos n)) p h = ground arith
read_port-bound (integer (negsuc n)) p h = h
read_port-bound _ p h = h

-- Both ports are ports.
abbrev pub IsPorts : Fields → Type 0
IsPorts f = (f.port ≤ 65535) × (f.tls_port ≤ 65535)

read_field-IsPorts :
    (name value : Reply) (f : Fields) → IsPorts f → IsPorts (read_field name value f)
unfolding read_field
read_field-IsPorts (string s) value f h =
    ground (arith, read_port-bound value f.port, read_port-bound value f.tls_port)
read_field-IsPorts _ value f h = h

read_fields-IsPorts : (es : Replies) (f : Fields) → IsPorts f → IsPorts (read_fields es f)
unfolding read_fields
read_fields-IsPorts end f h = h
read_fields-IsPorts (cons name end) f h = h
read_fields-IsPorts (cons name (cons value rest)) f h =
    read_fields-IsPorts rest (read_field name value f) (read_field-IsPorts name value f h)

-- A node whose role is known, with a port, and with a host name.
pub record IsNode (node : Node) : Type 0 where
  pub known : role_eq node.role tbd ≡ false
  pub positive : 0 < node.port
  pub bounded : node.port ≤ 65535
  pub named : node.endpoint ≢ 63 ∷ []

node_endpoint-named :
    (own : Str) (e : Option Str) (s : Str)
    → own ≢ 63 ∷ []
    → node_endpoint own e ≡ some s
    → s ≢ 63 ∷ []
unfolding node_endpoint
node_endpoint-named own none s h e = λ bad. h (cc)
node_endpoint-named own (some []) s h e = λ bad. h (cc)
node_endpoint-named own (some (c ∷ [])) s h e = λ bad. ground arith
node_endpoint-named own (some (c ∷ d ∷ t)) s h e = λ bad. ground arith

check_node-IsNode :
    (db : Db) (f : Fields) (o : Option Str) (node : Node)
    → IsPorts f
    → ((s : Str) → o ≡ some s → s ≢ 63 ∷ [])
    → check_node db f o ≡ some node
    → IsNode node
unfolding check_node effective_port
check_node-IsNode db f none node h n e = absurd (ground arith)
check_node-IsNode db f (some s) node h n e = record {
  known = ground arith;
  positive = ground arith;
  bounded = ground arith;
  named = λ bad. n s refl (ground arith);
}

parse_fields-IsNode :
    (o : Option Replies) (db : Db) (server : Ptr) (node : Node)
    → host_of (db.mem server).location ≢ 63 ∷ []
    → parse_fields db server o ≡ some node
    → IsNode node
unfolding parse_fields
parse_fields-IsNode none db server node h e = absurd (ground arith)
parse_fields-IsNode (some es) db server node h e =
    let f = read_fields es no_fields in
    check_node-IsNode db f (node_endpoint (host_of (db.mem server).location) f.endpoint) node
      (read_fields-IsPorts es no_fields (omega arith, omega arith))
      (λ s k. node_endpoint-named (host_of (db.mem server).location) f.endpoint s h k) e

-- A node that parse_node() accepts is a master or a slave, has a port from 1 to 65535, and its host
-- is not "?", when the one of the server that was asked is not.
pub parse_node-IsNode :
    (reply : Reply) (db : Db) (server : Ptr) (node : Node)
    → host_of (db.mem server).location ≢ 63 ∷ []
    → parse_node reply db server ≡ some node
    → IsNode node
unfolding parse_node
parse_node-IsNode reply db server node h e = parse_fields-IsNode (pairs reply) db server node h e
