-- ===== src/Cluster/Nodes.antt =====
-- What src/cluster.c reads in the reply to CLUSTER SHARDS: parse_slot_range(), parse_node(), and the
-- location of a node that unsafe_add_node() makes. The build has RESP3 and TLS.
pub mod Sound
pub mod Printing
use libvmod_redis.Base.{
  ℕ, zero, suc, ◌+◌, ◌/◌, ◌%◌, Bool, true, false, ◌&&◌, ◌||◌, Option, none, some, List, [], ◌∷◌,
  ◌++◌, ltb, leb, ◌==◌, not, if◌then◌else◌, length, Str,
}
use libvmod_redis.Core.Reply.{ℤ, pos, Reply, Replies, string, integer, nil, array, map, cons, end}
use libvmod_redis.Core.Types.{
  Ptr, Role, slave, master, tbd, role_eq, Location, host, socket, Server, Db, inc,
}
use libvmod_redis.Core.Valid.{with_stats}
use libvmod_redis.Core.Connect.{with_server}
use libvmod_redis.Core.Plan.Servers.{Cell, grid}
use libvmod_redis.Core.Registry.{str_eq, master_word, WeightRule, unsafe_add_redis_server}
use libvmod_redis.Cluster.Slot.{nredis_cluster_slots}

-- parse_slot_range(), on the two replies of the range.
unfoldable pub parse_slot_range : Reply → Reply → Option (ℕ × ℕ)
parse_slot_range (integer (pos start)) (integer (pos stop)) =
    if leb nredis_cluster_slots start || leb nredis_cluster_slots stop || ltb stop start
    then none
    else some (start, stop)
parse_slot_range _ _ = none

-- node_t.
pub record Node : Type 0 where
  pub endpoint : Str
  pub port : ℕ
  pub role : Role
  pub healthy : Bool

-- The local variables of parse_node().
pub record Fields : Type 0 where
  pub endpoint : Option Str
  pub port : ℕ
  pub tls_port : ℕ
  pub role : Role
  pub healthy : Bool

-- "endpoint", "port", "tls-port", "role", "health", "replica" and "online".
abbrev pub endpoint_word : Str
endpoint_word = 101 ∷ 110 ∷ 100 ∷ 112 ∷ 111 ∷ 105 ∷ 110 ∷ 116 ∷ []

abbrev pub port_word : Str
port_word = 112 ∷ 111 ∷ 114 ∷ 116 ∷ []

abbrev pub tls_port_word : Str
tls_port_word = 116 ∷ 108 ∷ 115 ∷ 45 ∷ 112 ∷ 111 ∷ 114 ∷ 116 ∷ []

abbrev pub role_word : Str
role_word = 114 ∷ 111 ∷ 108 ∷ 101 ∷ []

abbrev pub health_word : Str
health_word = 104 ∷ 101 ∷ 97 ∷ 108 ∷ 116 ∷ 104 ∷ []

abbrev pub replica_word : Str
replica_word = 114 ∷ 101 ∷ 112 ∷ 108 ∷ 105 ∷ 99 ∷ 97 ∷ []

abbrev pub online_word : Str
online_word = 111 ∷ 110 ∷ 108 ∷ 105 ∷ 110 ∷ 101 ∷ []

unfoldable pub read_endpoint : Reply → Option Str → Option Str
read_endpoint (string s) e = some s
read_endpoint nil e = some []
read_endpoint _ e = e

-- A port is kept when it is between 1 and UINT16_MAX.
unfoldable pub read_port : Reply → ℕ → ℕ
read_port (integer (pos n)) p = if ltb 0 n && leb n 65535 then n else p
read_port _ p = p

unfoldable pub read_role : Reply → Role → Role
unfolding str_eq
read_role (string s) r =
    if str_eq s master_word then master else if str_eq s replica_word then slave else r
read_role _ r = r

unfoldable pub read_health : Reply → Bool → Bool
unfolding str_eq
read_health (string s) h = str_eq s online_word
read_health _ h = h

unfoldable pub read_field : Reply → Reply → Fields → Fields
unfolding str_eq read_endpoint read_port read_role read_health
read_field (string name) value f =
    if str_eq name endpoint_word
    then record f { endpoint = read_endpoint value f.endpoint }
    else if str_eq name port_word
    then record f { port = read_port value f.port }
    else if str_eq name tls_port_word
    then record f { tls_port = read_port value f.tls_port }
    else if str_eq name role_word
    then record f { role = read_role value f.role }
    else if str_eq name health_word
    then record f { healthy = read_health value f.healthy }
    else f
read_field _ value f = f

unfoldable pub read_fields : Replies → Fields → Fields
unfolding read_field
read_fields (cons name (cons value rest)) f = read_fields rest (read_field name value f)
read_fields _ f = f

-- The host of the server that was asked; it has one, as a server of a cluster is no socket.
abbrev pub host_of : Location → Str
host_of (host a p) = a
host_of (socket p) = []

-- NULL and "" stand for the server that was asked, and 63 is '?'.
unfoldable pub node_endpoint : Str → Option Str → Option Str
node_endpoint own none = some own
node_endpoint own (some []) = some own
node_endpoint own (some (c ∷ [])) = if c == 63 then none else some (c ∷ [])
node_endpoint own (some (c ∷ d ∷ s)) = some (c ∷ d ∷ s)

unfoldable pub effective_port : Bool → ℕ → ℕ → ℕ
effective_port tls port tls_port =
    let preferred = if tls then tls_port else port in
    let other = if tls then port else tls_port in if preferred == 0 then other else preferred

unfoldable pub check_node : Db → Fields → Option Str → Option Node
unfolding effective_port
check_node db f none = none
check_node db f (some endpoint) =
    let port = effective_port db.tls f.port f.tls_port in
    if port == 0 || role_eq f.role tbd
    then none
    else some (record { endpoint = endpoint; port = port; role = f.role; healthy = f.healthy })

abbrev pub no_fields : Fields
no_fields = record { endpoint = none; port = 0; tls_port = 0; role = tbd; healthy = true }

-- The elements of an array or of a map.
abbrev pub pairs : Reply → Option Replies
pairs (array es) = some es
pairs (map es) = some es
pairs _ = none

unfoldable pub parse_fields : Db → Ptr → Option Replies → Option Node
unfolding read_fields node_endpoint check_node
parse_fields db server none = none
parse_fields db server (some es) =
    let f = read_fields es no_fields in
    check_node db f (node_endpoint (host_of (db.mem server).location) f.endpoint)

unfoldable pub parse_node : Reply → Db → Ptr → Option Node
unfolding parse_fields
parse_node reply db server = parse_fields db server (pairs reply)

-- "%u": an unsigned has at most ten digits.
unfoldable pub decimal : ℕ → ℕ → Str
decimal zero n = []
decimal (suc fuel) n =
    let more = decimal fuel (n / 10) in
    if ltb n 10 then (48 + n) ∷ [] else more ++ ((48 + n % 10) ∷ [])

-- "%s:%u".
unfoldable pub node_location : Node → Str
unfolding decimal
node_location node = node.endpoint ++ 58 ∷ decimal 10 node.port
