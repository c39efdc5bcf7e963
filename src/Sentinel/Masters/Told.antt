-- ===== src/Sentinel/Masters/Told.antt =====
-- What a Redis Sentinel tells of its servers is what the inventory of src/sentinel.c has afterwards.
use libvmod_redis.Base.{
  ℕ, ◌^◌, ◌<◌, ◌≡◌, Bool, true, false, ◌||◌, Option, some, List, [], ◌∷◌, ◌++◌, All, Str,
  if◌then◌else◌,
}
use libvmod_redis.Core.Reply.{pos, Replies, string, array, cons, end}
use libvmod_redis.Core.Types.{Role, master, slave}
use libvmod_redis.Core.Registry.{str_eq}
use libvmod_redis.Core.Serialize.{codes}
use libvmod_redis.Cluster.Nodes.{decimal}
use libvmod_redis.Sentinel.Inventory.{State, store_sentinel_reply}
use libvmod_redis.Sentinel.Inventory.Lookup.{same}
use libvmod_redis.Sentinel.Masters.{Properties}

-- A server as a Sentinel describes it, with the properties before its flags and after them that
-- src/sentinel.c does not read; `replica` says that it is no master, `s_down` that the Sentinel takes it
-- to be down, and `o_down` that enough Sentinels do.
pub record Description : Type 0 where
  pub name : Str
  pub host : Str
  pub port : ℕ
  pub replica : Bool
  pub s_down : Bool
  pub o_down : Bool
  pub before : List (Str × Str)
  pub after : List (Str × Str)

abbrev pub role_for : Bool → Role
role_for true = slave
role_for false = master

abbrev pub down_for : Bool → ℕ
down_for true = 1
down_for false = 0

-- "s_down" and "o_down", if they apply, and the role, with commas between them.
abbrev pub flags : Bool → Bool → Bool → Str
flags replica s_down o_down =
    (if s_down then codes "s_down," else [])
    ++ ((if o_down then codes "o_down," else [])
        ++ (if replica then codes "slave" else codes "master"))

abbrev field : Str → Str → Replies → Replies
field name value rest = cons (string name) (cons (string value) rest)

abbrev pub fields : List (Str × Str) → Replies → Replies
fields [] rest = rest
fields (c ∷ cs) rest = field (c.0) (c.1) (fields cs rest)

abbrev pub describe : Description → Replies
describe d = field (codes "name") d.name (
    field (codes "ip") d.host (
      field (codes "port") (decimal 10 d.port) (
        fields d.before
          (field (codes "flags") (flags d.replica d.s_down d.o_down) (fields d.after end)))))

-- A Sentinel that is down for any reason counts as down.
abbrev pub is_down : Description → Bool
is_down d = d.s_down || d.o_down

-- The name of a property that is not read.
abbrev pub IsOther : Str × Str → Type 0
IsOther c =
    (str_eq (c.0) (codes "name") ≡ false)
    × (str_eq (c.0) (codes "ip") ≡ false)
    × (str_eq (c.0) (codes "port") ≡ false)
    × (str_eq (c.0) (codes "flags") ≡ false)

abbrev pub described : List Description → Replies
described [] = end
described (d ∷ ds) = cons (array (describe d)) (described ds)

-- The last description of an address, if there is one.
abbrev pub last_told : Str → ℕ → List Description → Option (Role × ℕ) → Option (Role × ℕ)
last_told h p [] o = o
last_told h p (d ∷ ds) o =
    last_told h p ds
      (if same d.host d.port h p then some (role_for d.replica, down_for (is_down d)) else o)

-- A port that is not 0, and that an unsigned holds, and no second value for a property.
pub record IsDescription (d : Description) : Type 0 where
  pub port : 0 < d.port
  pub short : d.port < 2 ^ 32
  pub before : All IsOther d.before
  pub after : All IsOther d.after

abbrev properties : Str → Str → ℕ → Role → ℕ → Properties
properties name host port role down = record {
  master_name = some name;
  host = some host;
  port = port;
  role = role;
  down = down;
}

module _ (clock : ℕ → ℕ) (sentinel : ℕ) where
  abbrev pub store_described : Description → State → State
  store_described d st =
      store_sentinel_reply clock sentinel d.host d.port (role_for d.replica)
        (pos (down_for (is_down d))) st
