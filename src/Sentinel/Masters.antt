-- ===== src/Sentinel/Masters.antt =====
-- The discovery of src/sentinel.c: parse_sentinel_discovery() and discover_servers(), with RESP3 and
-- TLS compiled in. What the Sentinels answer is an argument.
pub mod Told
use libvmod_redis.Base.{
  ℕ, ◌+◌, Bool, true, false, ◌&&◌, ◌||◌, not, Option, none, some, List, [], ◌∷◌, ◌++◌, ltb, ◌==◌,
  is_some, if◌then◌else◌, Str,
}
use libvmod_redis.Core.Reply.{pos, Reply, Replies, status, string, array, map, cons, end}
use libvmod_redis.Core.Types.{Role, tbd, master, slave, role_eq, Protocol, default}
use libvmod_redis.Core.Registry.{str_eq, atoi, master_word, slave_word}
use libvmod_redis.Core.Serialize.{codes}
use libvmod_redis.Cluster.Nodes.{pairs}
use libvmod_redis.Sentinel.Inventory.{State, Sentinel, store_sentinel_reply}

-- strstr() != NULL.
abbrev pub begins : Str → Str → Bool
begins [] s = true
begins (c ∷ cs) [] = false
begins (c ∷ cs) (d ∷ ds) = c == d && begins cs ds

unfoldable pub strstr : Str → Str → Bool
strstr [] word = begins word []
strstr (c ∷ cs) word = begins word (c ∷ cs) || strstr cs word

-- The properties of one server.
pub record Properties : Type 0 where
  pub master_name : Option Str
  pub host : Option Str
  pub port : ℕ
  pub role : Role
  pub down : ℕ

abbrev pub no_properties : Properties
no_properties = record { master_name = none; host = none; port = 0; role = tbd; down = 0 }

abbrev pub flagged : Str → Properties → Properties
flagged value f = record f {
  role =
      if strstr value slave_word
      then slave
      else if strstr value master_word
      then master
      else f.role;
  down = if strstr value (codes "s_down") || strstr value (codes "o_down") then 1 else f.down;
}

unfoldable pub set_property : Str → Str → Properties → Properties
unfolding atoi strstr
set_property name value f =
    if str_eq name (codes "name")
    then record f { master_name = some value }
    else if str_eq name (codes "ip")
    then record f { host = some value }
    else if str_eq name (codes "port")
    then record f { port = atoi value }
    else if str_eq name (codes "flags")
    then flagged value f
    else f

abbrev pub string_of : Reply → Option Str
string_of (string s) = some s
string_of _ = none

abbrev pub read_pair : Option Str → Option Str → Properties → Properties
read_pair (some name) (some value) f = set_property name value f
read_pair _ _ f = f

-- Names and values in turn; one that is left over is not read.
unfoldable pub read_properties : Replies → Properties → Properties
unfolding set_property
read_properties end f = f
read_properties (cons name end) f = f
read_properties (cons name (cons value rest)) f =
    read_properties rest (read_pair (string_of name) (string_of value) f)

-- The names so far, and the state of the thread.
abbrev pub Found : Type 0
Found = List Str × State

abbrev pub add_name : Option Str → List Str → List Str
add_name none names = names
add_name (some name) names = names ++ (name ∷ [])

module _ (clock : ℕ → ℕ) (sentinel : ℕ) where
  abbrev pub store_at : Option Str → Properties → State → State
  store_at none f st = st
  store_at (some host) f st =
      if ltb 0 f.port && not (role_eq f.role tbd)
      then store_sentinel_reply clock sentinel host f.port f.role (pos f.down) st
      else st

  abbrev pub visit_properties : Option Replies → Found → Found
  visit_properties none found = found
  visit_properties (some es) (names, st) =
      let f = read_properties es no_properties in
      (add_name f.master_name names, store_at f.host f st)

  unfoldable pub visit_elements : Replies → Found → Found
  unfolding read_properties
  visit_elements end found = found
  visit_elements (cons reply rest) found =
      visit_elements rest (visit_properties (pairs reply) found)

  -- The names of the masters that the reply has, and the state.
  unfoldable pub parse_sentinel_discovery : Reply → State → Found
  unfolding visit_elements
  parse_sentinel_discovery (array es) st = visit_elements es ([], st)
  parse_sentinel_discovery _ st = ([], st)

-- What one Sentinel does in a discovery: whether a connection comes up, its error flag after AUTH and
-- HELLO and what it answers to them, its answer to SENTINEL masters, and, for each name of a master, the
-- error flag before SENTINEL slaves is sent and the answer.
pub record SentinelAnswers : Type 0 where
  pub connects : Bool
  pub secures : Bool
  pub auth_err : Bool
  pub auth : Option Reply
  pub hello_err : Bool
  pub hello : Option Reply
  pub masters : Option Reply
  pub slaves : ℕ → Bool × Option Reply

abbrev pub is_ok : Option Reply → Bool
is_ok (some (status s)) = str_eq s (codes "OK")
is_ok _ = false

abbrev pub is_hello : Option Reply → Bool
is_hello (some (array es)) = true
is_hello (some (map es)) = true
is_hello _ = false

abbrev pub is_default : Protocol → Bool
is_default default = true
is_default _ = false

-- Whether the connection can be used.
unfoldable pub connects_to : State → SentinelAnswers → Bool
connects_to st a =
    a.connects
    && (not st.tls || a.secures)
    && (not (is_some st.password) || (not a.auth_err && is_ok a.auth))
    && (is_default st.protocol || (not a.hello_err && is_hello a.hello))

module _ (clock : ℕ → ℕ) (sentinel : ℕ) where
  abbrev pub parse_slaves : Option Reply → State → State
  parse_slaves none st = st
  parse_slaves (some reply) st = (parse_sentinel_discovery clock sentinel reply st).1

  -- The loop over the names of the masters, from the i-th on.
  unfoldable pub ask_slaves : (ℕ → Bool × Option Reply) → ℕ → List Str → State → State
  unfolding parse_sentinel_discovery
  ask_slaves slaves i [] st = st
  ask_slaves slaves i (name ∷ names) st =
      let rest = ask_slaves slaves (i + 1) names (parse_slaves (slaves i).1 st) in
      if (slaves i).0 then st else rest

  abbrev pub ask_masters : SentinelAnswers → Option Reply → State → State
  ask_masters a none st = st
  ask_masters a (some reply) st =
      let (names, told) = parse_sentinel_discovery clock sentinel reply st in
      ask_slaves a.slaves 0 names told

  unfoldable pub ask_sentinel : SentinelAnswers → State → State
  unfolding connects_to ask_slaves
  ask_sentinel a st = if connects_to st a then ask_masters a a.masters st else st

-- The loop over the Sentinels, from the i-th on.
unfoldable pub ask_sentinels : (ℕ → ℕ) → (ℕ → SentinelAnswers) → ℕ → List Sentinel → State → State
unfolding ask_sentinel
ask_sentinels clock answers i [] st = st
ask_sentinels clock answers i (s ∷ ss) st =
    ask_sentinels clock answers (i + 1) ss (ask_sentinel clock i (answers i) st)

unfoldable pub discover_servers : (ℕ → ℕ) → (ℕ → SentinelAnswers) → State → State
unfolding ask_sentinels
discover_servers clock answers st = ask_sentinels clock answers 0 st.sentinels st
