-- ===== src/Sentinel/Loop.antt =====
-- The thread of src/sentinel.c: its start and stop, its subscriptions, and sentinel_loop(), with
-- RESP3 and TLS compiled in. The lock of the configuration is held from one change of the phase to the
-- next, except that a thread in `discovering` or `listening` runs without it.
pub mod Noticed
pub mod Used
pub mod Synced
pub mod Unique
use libvmod_redis.Base.{
  ℕ, ◌+◌, ◌-◌, Bool, true, false, ◌&&◌, ◌||◌, not, Option, none, some, List, [], ◌∷◌, ltb, leb,
  ◌==◌, is_some, if◌then◌else◌, Str,
}
use libvmod_redis.Core.Reply.{Reply}
use libvmod_redis.Core.Types.{Timeval, Protocol, default, Db}
use libvmod_redis.Sentinel.Inventory.{KnownServer, Sentinel, State}
use libvmod_redis.Sentinel.Notification.{parse_sentinel_notification}
use libvmod_redis.Sentinel.Masters.{SentinelAnswers, is_default, discover_servers}
use libvmod_redis.Sentinel.Update.{unsafe_update_dbs}
use libvmod_redis.Sentinel.Locations.{unsafe_set_locations}

-- `sentinels` of the configuration of a VCL, and its databases. `tls` says whether TLS is asked for.
pub record Config : Type 0 where
  pub locations : Option Str
  pub period : ℕ
  pub connection_timeout : Timeval
  pub command_timeout : Timeval
  pub protocol : Protocol
  pub tls : Bool
  pub password : Option Str
  pub debug : Bool
  pub active : Bool
  pub discovery : Bool
  pub dbs : List Db

unfoldable pub new_state : Config → State
new_state config = record {
  sentinels = [];
  period = config.period;
  connection_timeout = config.connection_timeout;
  command_timeout = config.command_timeout;
  protocol = config.protocol;
  tls = config.tls;
  password = config.password;
  debug = config.debug;
  last_change = 0;
  next_discovery = 0;
  servers = [];
  ticks = 0;
}

-- Where the thread is, with the time at which the round began.
pub data Phase : Type 0 where
  checking : Phase
  discovering : ℕ → Phase
  listening : ℕ → Phase
  updating : ℕ → Phase
  stopped : Phase

pub record Thread : Type 0 where
  pub config : Config
  pub state : State
  pub phase : Phase

abbrev pub is_none_left : List Sentinel → Bool
is_none_left [] = true
is_none_left (s ∷ ss) = false

-- unsafe_sentinel_start(). `has_ssl` says whether an SSL context could be created.
abbrev pub start_with : Config → List Sentinel → Config × Option Thread
start_with config [] = (config, none)
start_with config (s ∷ ss) =
    let active = record config { active = true; discovery = true } in
    (
      active,
      some (record {
        config = active;
        state = record (new_state config) { sentinels = s ∷ ss };
        phase = checking;
      }),
    )

abbrev pub start_at : Bool → Config → Option Str → Config × Option Thread
start_at has_ssl config none = (config, none)
start_at has_ssl config (some locations) =
    if config.tls && not has_ssl
    then (config, none)
    else start_with config (unsafe_set_locations locations)

unfoldable pub unsafe_sentinel_start : Bool → Config → Config × Option Thread
unfolding new_state unsafe_set_locations
unsafe_sentinel_start has_ssl config = start_at has_ssl config config.locations

unfoldable pub unsafe_sentinel_discovery : Config → Config
unsafe_sentinel_discovery config = record config { discovery = true }

unfoldable pub unsafe_sentinel_stop : Config → Config
unsafe_sentinel_stop config = record config { active = false }

-- What happens to an attempt to subscribe: redisAsyncConnect() and its error flag, TLS, and whether each
-- command can be queued.
pub record Subscription : Type 0 where
  pub connects : Option ℕ
  pub err : Bool
  pub secures : Bool
  pub queues_auth : Bool
  pub queues_hello : Bool
  pub queues_subscribe : Bool

unfoldable pub attempts_all : State → Subscription → Bool
attempts_all st a =
    not a.err
    && (not st.tls || a.secures)
    && (not (is_some st.password) || a.queues_auth)
    && (is_default st.protocol || a.queues_hello)
    && a.queues_subscribe

abbrev pub subscribed : State → Subscription → Option ℕ → Option ℕ
subscribed st a none = none
subscribed st a (some context) = if attempts_all st a then some context else none

abbrev pub reconnect : State → Subscription → Sentinel → Option ℕ → Sentinel
reconnect st a s (some context) = s
reconnect st a s none = record s { context = subscribed st a a.connects }

-- The loop over the Sentinels that checks their subscriptions, from the i-th on.
unfoldable pub check_connections : State → (ℕ → Subscription) → ℕ → List Sentinel → List Sentinel
unfolding attempts_all
check_connections st attempts i [] = []
check_connections st attempts i (s ∷ ss) =
    reconnect st (attempts i) s s.context ∷ check_connections st attempts (i + 1) ss

-- What ev_loop() delivers: the end of an attempt to connect, a lost connection, a notification.
pub data Event : Type 0 where
  connected : ℕ → Bool → Event
  disconnected : ℕ → Event
  notified : ℕ → Option Reply → Event

unfoldable pub disconnect : ℕ → List Sentinel → List Sentinel
disconnect i [] = []
disconnect i (s ∷ ss) =
    if i == 0 then record s { context = none } ∷ ss else s ∷ disconnect (i - 1) ss

abbrev pub handle_event : (ℕ → ℕ) → Event → State → State
handle_event clock (connected i true) st = st
handle_event clock (connected i false) st = record st { sentinels = disconnect i st.sentinels }
handle_event clock (disconnected i) st = record st { sentinels = disconnect i st.sentinels }
handle_event clock (notified i reply) st = parse_sentinel_notification clock i reply st

unfoldable pub ev_loop : (ℕ → ℕ) → List Event → State → State
unfolding disconnect parse_sentinel_notification
ev_loop clock [] st = st
ev_loop clock (e ∷ es) st = ev_loop clock es (handle_event clock e st)

-- What the outside does in a round: the answers to a discovery, the attempts to subscribe, the events.
pub record Outside : Type 0 where
  pub answers : ℕ → SentinelAnswers
  pub attempts : ℕ → Subscription
  pub events : List Event

-- The next step of sentinel_loop().
abbrev pub is_due : Config → State → ℕ → Bool
is_due config st now = config.discovery || (ltb 0 st.period && leb st.next_discovery now)

abbrev pub after_update : Config → State → ℕ × List Db → Phase → Thread
after_update config st (ticks, dbs) phase = record {
  config = record config { dbs = dbs; discovery = false };
  state = record st { ticks = ticks };
  phase = phase;
}

abbrev pub advance_from : (ℕ → ℕ) → Outside → Config → State → Phase → Thread
advance_from clock o config st checking =
    let now = clock st.ticks in
    let begun = record st { ticks = st.ticks + 1 } in
    if not config.active
    then record { config = config; state = st; phase = stopped }
    else if is_due config st now
    then record { config = config; state = begun; phase = discovering now }
    else record { config = config; state = begun; phase = listening now }
advance_from clock o config st (discovering now) =
    let found = discover_servers clock o.answers st in
    let timed = record found { next_discovery = now + found.period } in
    if config.active
    then record { config = config; state = timed; phase = listening now }
    else record { config = config; state = timed; phase = stopped }
advance_from clock o config st (listening now) =
    let checked = record st { sentinels = check_connections st o.attempts 0 st.sentinels } in
    record { config = config; state = ev_loop clock o.events checked; phase = updating now }
advance_from clock o config st (updating now) =
    if config.discovery || leb now st.last_change
    then after_update config st (unsafe_update_dbs clock st.servers st.ticks config.dbs) checking
    else record { config = config; state = st; phase = checking }
advance_from clock o config st stopped = record { config = config; state = st; phase = stopped }

unfoldable pub advance : (ℕ → ℕ) → Outside → Thread → Thread
unfolding discover_servers check_connections ev_loop unsafe_update_dbs
advance clock o t = advance_from clock o t.config t.state t.phase
