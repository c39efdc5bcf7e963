-- ===== src/Examples/Sentinels.antt =====
-- A Sentinel thread with one Sentinel, and the databases that it follows.
use libvmod_redis.Base.{ℕ, ◌≡◌, ◌≢◌, refl, ◌⊎◌, true, false, none, some, List, [], ◌∷◌, All, arith}
use libvmod_redis.Core.Reply.{negsuc, nil, array}
use libvmod_redis.Core.Types.{slave, master, default}
use libvmod_redis.Core.Registry.{str_eq}
use libvmod_redis.Core.Valid.{is_valid_redis_context}
use libvmod_redis.Core.Serialize.{codes}
use libvmod_redis.Sentinel.Inventory.{
  KnownServer, Sentinel, State, find_known, store_sentinel_reply,
}
use libvmod_redis.Sentinel.Inventory.Lookup.{known, store_sentinel_reply-known}
use libvmod_redis.Sentinel.Inventory.Unique.{IsUnique}
use libvmod_redis.Sentinel.Notification.{parse_sentinel_notification}
use libvmod_redis.Sentinel.Notification.Switched.{
  Failover, switched, parse_sentinel_notification-known,
}
use libvmod_redis.Sentinel.Masters.{SentinelAnswers}
use libvmod_redis.Sentinel.Masters.Told.{Description, described}
use libvmod_redis.Sentinel.Update.{update_db}
use libvmod_redis.Sentinel.Update.Applied.{AreSynced, update_db-AreSynced}
use libvmod_redis.Sentinel.Locations.{unfinished, parse_locations, unsafe_set_locations}
use libvmod_redis.Sentinel.Locations.Bounds.{AreLocations, parse_locations-finishes}
use libvmod_redis.Sentinel.Locations.Printing.{
  IsPrintable, print_locations, unsafe_set_locations-print_locations,
}
use libvmod_redis.Sentinel.Loop.{
  Config, checking, Thread, Subscription, Outside, advance, unsafe_sentinel_start,
}
use libvmod_redis.Sentinel.Loop.Noticed.{AreCurrent}
use libvmod_redis.Sentinel.Loop.Synced.{Reaches, started, runs, Reaches-AreCurrent}
use libvmod_redis.Sentinel.Loop.Unique.{Reaches-IsUnique}
use libvmod_redis.Vmod.Events.{Vcl, handle_vcl_warm_event, handle_vcl_cold_event}
use libvmod_redis.Vmod.Events.Emptied.{AreEmptied, handle_vcl_cold_event-AreEmptied}
use libvmod_redis.Vmod.Events.Stale.{handle_vcl_warm_event-stale}
use libvmod_redis.Examples.Data.{no_time, db, env, context}

-- A second passes from one call of time() to the next.
abbrev ticking : ℕ → ℕ
ticking n = n

abbrev sentinel : Sentinel
sentinel = record { host = codes "s"; port = 1; context = none }

abbrev config : Config
config = record {
  locations = some (codes "s:1");
  period = 60;
  connection_timeout = no_time;
  command_timeout = no_time;
  protocol = default;
  tls = false;
  password = none;
  debug = false;
  active = false;
  discovery = false;
  dbs = db ∷ [];
}

abbrev active : Config
active = record config { active = true; discovery = true }

abbrev state : State
state = record {
  sentinels = sentinel ∷ [];
  period = 60;
  connection_timeout = no_time;
  command_timeout = no_time;
  protocol = default;
  tls = false;
  password = none;
  debug = false;
  last_change = 0;
  next_discovery = 0;
  servers = [];
  ticks = 0;
}

abbrev first : Thread
first = record { config = active; state = state; phase = checking }

-- The servers of the database are at h:1.
abbrev told : List Description
told =
    record {
      name = codes "m";
      host = codes "h";
      port = 1;
      replica = true;
      s_down = false;
      o_down = false;
      before = [];
      after = [];
    }
    ∷ record {
      name = codes "n";
      host = codes "i";
      port = 2;
      replica = false;
      s_down = true;
      o_down = true;
      before = (codes "runid", codes "7") ∷ [];
      after = (codes "quorum", codes "2") ∷ [];
    }
    ∷ []

abbrev answers : ℕ → SentinelAnswers
answers i = record {
  connects = true;
  secures = true;
  auth_err = false;
  auth = none;
  hello_err = false;
  hello = none;
  masters = some (array (described told));
  slaves = λ j. (false, none);
}

abbrev subscriptions : ℕ → Subscription
subscriptions i = record {
  connects = some 1;
  err = false;
  secures = true;
  queues_auth = true;
  queues_hello = true;
  queues_subscribe = true;
}

abbrev outside : Outside
outside = record { answers = answers; attempts = subscriptions; events = [] }

abbrev round : Thread → Thread
round t =
    advance ticking outside
      (advance ticking outside (advance ticking outside (advance ticking outside t)))

first-Reaches : Reaches ticking first
unfolding unsafe_sentinel_start
first-Reaches = started false config first refl

round-Reaches : Reaches ticking (round first)
round-Reaches = runs outside _ (runs outside _ (runs outside _ (runs outside _ first-Reaches)))

Reaches-AreCurrent_example :
    ((round first).config.discovery ≡ true)
    ⊎ AreCurrent (round first).state.servers (round first).config.dbs
unfolding advance
Reaches-AreCurrent_example =
    Reaches-AreCurrent ticking (round first) (λ m n h. h) round-Reaches refl

Reaches-IsUnique_example : IsUnique (round first).state
Reaches-IsUnique_example = Reaches-IsUnique ticking (round first) round-Reaches

update_db-AreSynced_example :
    AreSynced (round first).state.servers (update_db ticking (round first).state.servers (0, db)).1
update_db-AreSynced_example = update_db-AreSynced ticking (round first).state.servers (0, db) refl

abbrev downed : KnownServer
downed = record { host = codes "h"; port = 1; role = slave; down = 1; sentinel = 0 }

store_sentinel_reply-known_example :
    known (codes "h") 1 (
      store_sentinel_reply ticking 0
        (codes "h")
        1
        master
        (negsuc 0)
        (record state { servers = downed ∷ [] }))
    ≡ some (master, 1)
unfolding str_eq find_known
store_sentinel_reply-known_example =
    store_sentinel_reply-known ticking 0 (codes "h") 1 master (negsuc 0)
      (record state { servers = downed ∷ [] }) (codes "h") 1

abbrev failover : Failover
failover = record {
  name = codes "m";
  old_host = codes "h";
  old_port = 1;
  new_host = codes "i";
  new_port = 2;
}

parse_sentinel_notification-known_example :
    known (codes "h") 1 (
      parse_sentinel_notification ticking 0
        (some (array (switched nil failover)))
        (record state { servers = downed ∷ [] }))
    ≡ some (slave, 1)
unfolding str_eq find_known
parse_sentinel_notification-known_example =
    parse_sentinel_notification-known ticking 0 nil failover
      (record state { servers = downed ∷ [] })
      (record {
        name = record { begun = refl; spaceless = (refl, tt) };
        old_host = record { begun = refl; spaceless = (refl, tt) };
        old_port = omega arith;
        new_host = record { begun = refl; spaceless = (refl, tt) };
        new_port = omega arith;
      })
      (codes "h") 1

parse_locations-finishes_example :
    (parse_locations 8 (codes "a:1, b:2") [] ≢ unfinished)
    × AreLocations (unsafe_set_locations (codes "a:1, b:2"))
parse_locations-finishes_example = parse_locations-finishes (codes "a:1, b:2")

unsafe_set_locations-print_locations_example :
    unsafe_set_locations (print_locations (sentinel ∷ sentinel ∷ [])) ≡ sentinel ∷ sentinel ∷ []
unsafe_set_locations-print_locations_example =
    unsafe_set_locations-print_locations (sentinel ∷ sentinel ∷ []) (good, (good, tt))
  where
    good : IsPrintable sentinel
    good = record { host = refl; no_comma = (refl, tt); port = omega arith; context = refl }

abbrev vcl : Vcl
vcl = record { version = 1; refs = 1; config = active; thread = some first }

handle_vcl_cold_event-AreEmptied_example :
    ((handle_vcl_cold_event (λ c. c) vcl).config.active ≡ false)
    × All AreEmptied (handle_vcl_cold_event (λ c. c) vcl).config.dbs
handle_vcl_cold_event-AreEmptied_example = handle_vcl_cold_event-AreEmptied (λ c. c) vcl (λ c e. e)

handle_vcl_warm_event-stale_example :
    (is_valid_redis_context (record env { version = 3 }) db context 5).0 ≡ false
unfolding handle_vcl_warm_event
handle_vcl_warm_event-stale_example =
    handle_vcl_warm_event-stale false 1 vcl (record env { version = 3 }) db context 5 (omega arith)
      (omega arith) refl refl
