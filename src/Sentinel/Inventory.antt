-- ===== src/Sentinel/Inventory.antt =====
-- The state of the Sentinel thread of src/sentinel.c, and its inventory of servers. `clock n` is what
-- the n-th call of time() returns, and `ticks` counts the calls.
pub mod Unique
pub mod Lookup
use libvmod_redis.Base.{
  ℕ, ◌+◌, Bool, true, false, ◌&&◌, ◌||◌, not, Option, none, some, List, [], ◌∷◌, ◌++◌, ltb, ◌==◌,
  if◌then◌else◌, Str,
}
use libvmod_redis.Core.Reply.{ℤ, pos, negsuc}
use libvmod_redis.Core.Types.{Role, role_eq, Timeval, Protocol}
use libvmod_redis.Core.Registry.{str_eq}

-- struct server. `sentinel` names the Sentinel of the last change.
pub record KnownServer : Type 0 where
  pub host : Str
  pub port : ℕ
  pub role : Role
  pub down : ℕ
  pub sentinel : ℕ

-- struct sentinel. `context` is the connection for notifications, by its number.
pub record Sentinel : Type 0 where
  pub host : Str
  pub port : ℕ
  pub context : Option ℕ

-- struct state. `tls` says whether there is an SSL context.
pub record State : Type 0 where
  pub sentinels : List Sentinel
  pub period : ℕ
  pub connection_timeout : Timeval
  pub command_timeout : Timeval
  pub protocol : Protocol
  pub tls : Bool
  pub password : Option Str
  pub debug : Bool
  pub last_change : ℕ
  pub next_discovery : ℕ
  pub servers : List KnownServer
  pub ticks : ℕ

-- The test of the loops over the inventory.
unfoldable pub is_at : Str → ℕ → KnownServer → Bool
unfolding str_eq
is_at host port s = s.port == port && str_eq s.host host

-- The first server with the host and the port.
unfoldable pub find_known : Str → ℕ → List KnownServer → Option KnownServer
unfolding is_at
find_known host port [] = none
find_known host port (s ∷ ss) = if is_at host port s then some s else find_known host port ss

-- The int `down` of a reply: negative when the reply does not tell.
abbrev pub tells : ℤ → Bool
tells (pos n) = true
tells (negsuc n) = false

abbrev pub down_or : ℤ → ℕ → ℕ
down_or (pos n) old = n
down_or (negsuc n) old = old

abbrev pub is_down : ℤ → ℕ
is_down (pos n) = if ltb 0 n then 1 else 0
is_down (negsuc n) = 0

abbrev pub differs : Role → ℤ → KnownServer → Bool
differs role down s =
    not (role_eq s.role role) || (tells down && not (s.down == down_or down s.down))

-- The server that was found, when something about it is new.
abbrev pub renewed : ℕ → Role → ℤ → KnownServer → KnownServer
renewed sentinel role down s = record s {
  sentinel = sentinel;
  role = role;
  down = down_or down s.down;
}

unfoldable pub set_known : Str → ℕ → KnownServer → List KnownServer → List KnownServer
unfolding is_at
set_known host port k [] = []
set_known host port k (s ∷ ss) = if is_at host port s then k ∷ ss else s ∷ set_known host port k ss

-- `last_change = time(NULL)`, with new servers.
abbrev pub changed : (ℕ → ℕ) → List KnownServer → State → State
changed clock servers st = record st {
  servers = servers;
  last_change = clock st.ticks;
  ticks = st.ticks + 1;
}

abbrev pub store_found : (ℕ → ℕ) → ℕ → Str → ℕ → Role → ℤ → Option KnownServer → State → State
store_found clock sentinel host port role down none st =
    changed clock
      (st.servers
        ++ (record {
          host = host;
          port = port;
          role = role;
          down = is_down down;
          sentinel = sentinel;
        }
            ∷ []))
      st
store_found clock sentinel host port role down (some s) st =
    if differs role down s
    then changed clock (set_known host port (renewed sentinel role down s) st.servers) st
    else st

unfoldable pub store_sentinel_reply : (ℕ → ℕ) → ℕ → Str → ℕ → Role → ℤ → State → State
unfolding find_known set_known
store_sentinel_reply clock sentinel host port role down st =
    store_found clock sentinel host port role down (find_known host port st.servers) st
