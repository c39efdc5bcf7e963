-- ===== src/Sentinel/Keeping.antt =====
-- A property of the state that store_sentinel_reply() of src/sentinel.c keeps is kept by whatever the
-- Sentinels tell.
use libvmod_redis.Base.{
  ℕ, ◌+◌, Bool, true, false, ◌&&◌, not, Option, none, some, List, [], ◌∷◌, ltb, if◌then◌else◌, Str,
}
use libvmod_redis.Core.Reply.{ℤ, pos, negsuc, Reply, Replies, cons, end, array}
use libvmod_redis.Core.Types.{Role, tbd, master, slave, role_eq}
use libvmod_redis.Core.Registry.{str_eq, atoi}
use libvmod_redis.Core.Serialize.{codes}
use libvmod_redis.Cluster.Nodes.{pairs}
use libvmod_redis.Sentinel.Inventory.{State, Sentinel, store_sentinel_reply}
use libvmod_redis.Sentinel.Notification.{
  instance_type, is_down_event, is_plus, strtok, message, report_typed, report_down, switch_master,
  notify, parse_sentinel_notification,
}
use libvmod_redis.Sentinel.Masters.{
  Properties, no_properties, read_properties, Found, store_at, visit_properties, visit_elements,
  parse_sentinel_discovery, SentinelAnswers, connects_to, parse_slaves, ask_slaves, ask_masters,
  ask_sentinel, ask_sentinels, discover_servers,
}

-- A property that a reply about an address keeps.
pub record IsKept (clock : ℕ → ℕ) (P : State → Type 0) : Type 0 where
  pub by_store :
      (sentinel : ℕ) (host : Str) (port : ℕ) (role : Role) (down : ℤ) (st : State)
      → P st
      → P (store_sentinel_reply clock sentinel host port role down st)

module _ (clock : ℕ → ℕ) (P : State → Type 0) (k : IsKept clock P) where
  either : (b : Bool) (s t : State) → P s → P t → P (if b then s else t)
  either true s t u v = u
  either false s t u v = v

  module _ (sentinel : ℕ) where
    report_typed-IsKept :
        (event ip port : Str) (o : Option Role) (st : State)
        → P st
        → P (report_typed clock sentinel event ip port o st)
    report_typed-IsKept event ip port none st v = v
    report_typed-IsKept event ip port (some role) st v =
        k.by_store sentinel ip (atoi port) role (pos (if is_plus event then 1 else 0)) st v

    report_down-IsKept :
        (event : Str) (ts : List Str) (st : State)
        → P st
        → P (report_down clock sentinel event ts st)
    unfolding report_down
    report_down-IsKept event (t ∷ name ∷ ip ∷ port ∷ rest) st v =
        report_typed-IsKept event ip port (instance_type t) st v
    report_down-IsKept event _ st v = v

    switch_master-IsKept :
        (ts : List Str) (st : State) → P st → P (switch_master clock sentinel ts st)
    unfolding switch_master
    switch_master-IsKept (name ∷ old_ip ∷ old_port ∷ new_ip ∷ new_port ∷ rest) st v =
        k.by_store sentinel new_ip (atoi new_port) master (pos 0) _
          (k.by_store sentinel old_ip (atoi old_port) slave (negsuc 0) st v)
    switch_master-IsKept _ st v = v

    notify-IsKept : (o : Option (Str × Str)) (st : State) → P st → P (notify clock sentinel o st)
    unfolding notify
    notify-IsKept none st v = v
    notify-IsKept (some (event, payload)) st v =
        either (is_down_event event) _ _ (report_down-IsKept event (strtok payload) st v) (
          either (str_eq event (codes "+switch-master")) _ _
            (switch_master-IsKept (strtok payload) st v) v)

    pub parse_sentinel_notification-IsKept :
        (reply : Option Reply) (st : State)
        → P st
        → P (parse_sentinel_notification clock sentinel reply st)
    unfolding parse_sentinel_notification
    parse_sentinel_notification-IsKept reply st v = notify-IsKept (message reply) st v

    store_at-IsKept :
        (o : Option Str) (f : Properties) (st : State) → P st → P (store_at clock sentinel o f st)
    store_at-IsKept none f st v = v
    store_at-IsKept (some host) f st v =
        either (ltb 0 f.port && not (role_eq f.role tbd)) _ _
          (k.by_store sentinel host f.port f.role (pos f.down) st v) v

    visit_properties-IsKept :
        (o : Option Replies) (found : Found)
        → P found.1
        → P (visit_properties clock sentinel o found).1
    visit_properties-IsKept none found v = v
    visit_properties-IsKept (some es) (names, st) v =
        let f = read_properties es no_properties in store_at-IsKept f.host f st v

    visit_elements-IsKept :
        (es : Replies) (found : Found) → P found.1 → P (visit_elements clock sentinel es found).1
    unfolding visit_elements
    visit_elements-IsKept end found v = v
    visit_elements-IsKept (cons reply rest) found v =
        visit_elements-IsKept rest (visit_properties clock sentinel (pairs reply) found)
          (visit_properties-IsKept (pairs reply) found v)

    parse_sentinel_discovery-IsKept :
        (reply : Reply) (st : State) → P st → P (parse_sentinel_discovery clock sentinel reply st).1
    unfolding parse_sentinel_discovery
    parse_sentinel_discovery-IsKept (array es) st v = visit_elements-IsKept es ([], st) v
    parse_sentinel_discovery-IsKept _ st v = v

    parse_slaves-IsKept :
        (o : Option Reply) (st : State) → P st → P (parse_slaves clock sentinel o st)
    parse_slaves-IsKept none st v = v
    parse_slaves-IsKept (some reply) st v = parse_sentinel_discovery-IsKept reply st v

    ask_slaves-IsKept :
        (slaves : ℕ → Bool × Option Reply) (i : ℕ) (names : List Str) (st : State)
        → P st
        → P (ask_slaves clock sentinel slaves i names st)
    unfolding ask_slaves
    ask_slaves-IsKept slaves i [] st v = v
    ask_slaves-IsKept slaves i (name ∷ names) st v = either (slaves i).0 _ _ v (
        ask_slaves-IsKept slaves (i + 1) names (parse_slaves clock sentinel (slaves i).1 st)
          (parse_slaves-IsKept (slaves i).1 st v))

    ask_masters-IsKept :
        (a : SentinelAnswers) (o : Option Reply) (st : State)
        → P st
        → P (ask_masters clock sentinel a o st)
    ask_masters-IsKept a none st v = v
    ask_masters-IsKept a (some reply) st v =
        let found = parse_sentinel_discovery clock sentinel reply st in
        ask_slaves-IsKept a.slaves 0 found.0 found.1 (parse_sentinel_discovery-IsKept reply st v)

    ask_sentinel-IsKept :
        (a : SentinelAnswers) (st : State) → P st → P (ask_sentinel clock sentinel a st)
    unfolding ask_sentinel
    ask_sentinel-IsKept a st v =
        either (connects_to st a) _ _ (ask_masters-IsKept a a.masters st v) v

  ask_sentinels-IsKept :
      (answers : ℕ → SentinelAnswers) (i : ℕ) (ss : List Sentinel) (st : State)
      → P st
      → P (ask_sentinels clock answers i ss st)
  unfolding ask_sentinels
  ask_sentinels-IsKept answers i [] st v = v
  ask_sentinels-IsKept answers i (s ∷ ss) st v =
      ask_sentinels-IsKept answers (i + 1) ss (ask_sentinel clock i (answers i) st)
        (ask_sentinel-IsKept i (answers i) st v)

  pub discover_servers-IsKept :
      (answers : ℕ → SentinelAnswers) (st : State) → P st → P (discover_servers clock answers st)
  unfolding discover_servers
  discover_servers-IsKept answers st v = ask_sentinels-IsKept answers 0 st.sentinels st v
