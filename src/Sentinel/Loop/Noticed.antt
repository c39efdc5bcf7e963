-- ===== src/Sentinel/Loop/Noticed.antt =====
-- No change of the inventory of src/sentinel.c is missed by the thread.
use libvmod_redis.Base.{
  ℕ, ◌≤◌, ◌≡◌, ◌⊎◌, inr, Bool, true, false, Option, none, some, List, [], ◌∷◌, if◌then◌else◌, All,
  Str, arith,
}
use libvmod_redis.Core.Reply.{ℤ}
use libvmod_redis.Core.Types.{Role, Db}
use libvmod_redis.Sentinel.Inventory.{
  KnownServer, State, find_known, differs, changed, store_found, store_sentinel_reply,
}
use libvmod_redis.Sentinel.Keeping.{IsKept, parse_sentinel_notification-IsKept}
use libvmod_redis.Sentinel.Update.Applied.{AreSynced}
use libvmod_redis.Sentinel.Loop.{
  Config, Event, connected, disconnected, notified, handle_event, ev_loop,
}

-- The databases that are no clusters have the roles of the inventory.
abbrev pub IsCurrentDb : List KnownServer → Db → Type 0
IsCurrentDb inventory db = db.enabled ≡ false → AreSynced inventory db

abbrev pub AreCurrent : List KnownServer → List Db → Type 0
AreCurrent inventory dbs = All (IsCurrentDb inventory) dbs

-- In a round that began at `now`: time goes on, and the databases are current unless an update is due.
pub record IsTracked (clock : ℕ → ℕ) (config : Config) (now : ℕ) (st : State) : Type 0 where
  pub ahead : (n : ℕ) → st.ticks ≤ n → now ≤ clock n
  pub current :
      (config.discovery ≡ true) ⊎ (AreCurrent st.servers config.dbs ⊎ (now ≤ st.last_change))

module _ (clock : ℕ → ℕ) (config : Config) (now : ℕ) where
  changed-IsTracked :
      (servers : List KnownServer) (st : State)
      → IsTracked clock config now st
      → IsTracked clock config now (changed clock servers st)
  changed-IsTracked servers st v = record {
    ahead = λ n h. v.ahead n (omega (arith, h));
    current = inr (inr (v.ahead st.ticks (omega arith)));
  }

  either-IsTracked :
      (b : Bool) (s t : State)
      → IsTracked clock config now s
      → IsTracked clock config now t
      → IsTracked clock config now (if b then s else t)
  either-IsTracked true s t u v = u
  either-IsTracked false s t u v = v

  store_found-IsTracked :
      (sentinel : ℕ) (host : Str) (port : ℕ) (role : Role) (down : ℤ) (o : Option KnownServer)
      (st : State)
      → IsTracked clock config now st
      → IsTracked clock config now (store_found clock sentinel host port role down o st)
  store_found-IsTracked sentinel host port role down none st v = changed-IsTracked _ st v
  store_found-IsTracked sentinel host port role down (some s) st v =
      either-IsTracked (differs role down s) _ st (changed-IsTracked _ st v) v

  pub IsTracked-IsKept : IsKept clock (IsTracked clock config now)
  unfolding store_sentinel_reply
  IsTracked-IsKept = record {
    by_store = λ sentinel host port role down st v.
        store_found-IsTracked sentinel host port role down (find_known host port st.servers) st v;
  }

  handle_event-IsTracked :
      (e : Event) (st : State)
      → IsTracked clock config now st
      → IsTracked clock config now (handle_event clock e st)
  handle_event-IsTracked (connected i true) st v = v
  handle_event-IsTracked (connected i false) st v = record { ahead = v.ahead; current = v.current }
  handle_event-IsTracked (disconnected i) st v = record { ahead = v.ahead; current = v.current }
  handle_event-IsTracked (notified i reply) st v =
      parse_sentinel_notification-IsKept clock (IsTracked clock config now) IsTracked-IsKept i reply
        st v

  pub ev_loop-IsTracked :
      (es : List Event) (st : State)
      → IsTracked clock config now st
      → IsTracked clock config now (ev_loop clock es st)
  unfolding ev_loop
  ev_loop-IsTracked [] st v = v
  ev_loop-IsTracked (e ∷ es) st v =
      ev_loop-IsTracked es (handle_event clock e st) (handle_event-IsTracked e st v)
