-- ===== src/Sentinel/Loop/Unique.antt =====
-- The inventory of the thread of src/sentinel.c has each server once, in whatever it comes to.
use mathlib.Core.Path.{subst}
use libvmod_redis.Base.{
  ℕ, Bool, true, false, ◌&&◌, ◌||◌, not, Option, none, some, List, [], ◌∷◌, leb, if◌then◌else◌, Str,
  arith,
}
use libvmod_redis.Sentinel.Inventory.{Sentinel, State}
use libvmod_redis.Sentinel.Inventory.Unique.{IsUnique, store_sentinel_reply-IsUnique, entries}
use libvmod_redis.Sentinel.Keeping.{
  IsKept, parse_sentinel_notification-IsKept, discover_servers-IsKept,
}
use libvmod_redis.Sentinel.Locations.{unsafe_set_locations}
use libvmod_redis.Sentinel.Loop.{
  Config, Phase, checking, discovering, listening, updating, stopped, Thread, start_with, start_at,
  unsafe_sentinel_start, unsafe_sentinel_discovery, unsafe_sentinel_stop, Event, connected,
  disconnected, notified, handle_event, ev_loop, Outside, is_due, advance_from, advance,
}
use libvmod_redis.Sentinel.Loop.Synced.{Reaches, started, runs, asked, ended, used}

either-IsUnique :
    (b : Bool) (t u : Thread)
    → IsUnique t.state
    → IsUnique u.state
    → IsUnique (if b then t else u).state
either-IsUnique true t u v w = v
either-IsUnique false t u v w = w

IsUnique-IsKept : (clock : ℕ → ℕ) → IsKept clock IsUnique
IsUnique-IsKept clock = record {
  by_store = λ sentinel host port role down st v.
      store_sentinel_reply-IsUnique clock sentinel host port role down st v;
}

handle_event-IsUnique :
    (clock : ℕ → ℕ) (e : Event) (st : State) → IsUnique st → IsUnique (handle_event clock e st)
handle_event-IsUnique clock (connected i true) st v = v
handle_event-IsUnique clock (connected i false) st v = record { once = v.once }
handle_event-IsUnique clock (disconnected i) st v = record { once = v.once }
handle_event-IsUnique clock (notified i reply) st v =
    parse_sentinel_notification-IsKept clock IsUnique (IsUnique-IsKept clock) i reply st v

ev_loop-IsUnique :
    (clock : ℕ → ℕ) (es : List Event) (st : State) → IsUnique st → IsUnique (ev_loop clock es st)
unfolding ev_loop
ev_loop-IsUnique clock [] st v = v
ev_loop-IsUnique clock (e ∷ es) st v =
    ev_loop-IsUnique clock es (handle_event clock e st) (handle_event-IsUnique clock e st v)

advance_from-IsUnique :
    (clock : ℕ → ℕ) (o : Outside) (config : Config) (st : State) (phase : Phase)
    → IsUnique st
    → IsUnique (advance_from clock o config st phase).state
advance_from-IsUnique clock o config st checking v = either-IsUnique (not config.active) _ _ v (
    either-IsUnique (is_due config st (clock st.ticks)) _ _ (record { once = v.once })
      (record { once = v.once }))
advance_from-IsUnique clock o config st (discovering now) v =
    let found = discover_servers-IsKept clock IsUnique (IsUnique-IsKept clock) o.answers st v in
    either-IsUnique config.active _ _ (record { once = found.once }) (record { once = found.once })
advance_from-IsUnique clock o config st (listening now) v =
    ev_loop-IsUnique clock o.events _ (record { once = v.once })
advance_from-IsUnique clock o config st (updating now) v =
    either-IsUnique (config.discovery || leb now st.last_change) _ _ (record { once = v.once }) v
advance_from-IsUnique clock o config st stopped v = v

abbrev IsUniqueIfAny : Option Thread → Type 0
IsUniqueIfAny none = Unit {0}
IsUniqueIfAny (some t) = IsUnique t.state

unsafe_sentinel_start-IsUniqueIfAny :
    (has_ssl : Bool) (config : Config) → IsUniqueIfAny (unsafe_sentinel_start has_ssl config).1
unfolding unsafe_sentinel_start entries
unsafe_sentinel_start-IsUniqueIfAny has_ssl config = at config.locations
  where
    with_sentinels : (ss : List Sentinel) → IsUniqueIfAny (start_with config ss).1
    with_sentinels [] = tt
    with_sentinels (s ∷ ss) = record { once = λ h p. omega arith }

    tls :
        (b : Bool) (ss : List Sentinel)
        → IsUniqueIfAny (if b then (config, none) else start_with config ss).1
    tls true ss = tt
    tls false ss = with_sentinels ss

    at : (o : Option Str) → IsUniqueIfAny (start_at has_ssl config o).1
    at none = tt
    at (some locations) = tls (config.tls && not has_ssl) (unsafe_set_locations locations)

-- Whatever the Sentinels answer and announce, and whatever other threads do, the inventory of a thread
-- has at most one server for each host and port.
pub Reaches-IsUnique : (clock : ℕ → ℕ) (t : Thread) → Reaches clock t → IsUnique t.state
unfolding unsafe_sentinel_discovery unsafe_sentinel_stop advance
Reaches-IsUnique clock t (started has_ssl config _ e) =
    subst IsUniqueIfAny e (unsafe_sentinel_start-IsUniqueIfAny has_ssl config)
Reaches-IsUnique clock t (runs o u r) =
    advance_from-IsUnique clock o u.config u.state u.phase (Reaches-IsUnique clock u r)
Reaches-IsUnique clock t (asked u r) = Reaches-IsUnique clock u r
Reaches-IsUnique clock t (ended u r) = Reaches-IsUnique clock u r
Reaches-IsUnique clock t (used u dbs k r) = Reaches-IsUnique clock u r
