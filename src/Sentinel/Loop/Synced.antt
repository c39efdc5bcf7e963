-- ===== src/Sentinel/Loop/Synced.antt =====
-- The databases follow the inventory of src/sentinel.c, whatever the other threads do in between.
use mathlib.Core.Path.{subst}
use libvmod_redis.Base.{
  ℕ, ◌+◌, ◌≤◌, ◌≡◌, refl, sym, ◌∙◌, ◌⊎◌, inl, inr, Bool, true, false, ◌&&◌, ◌||◌, not, Option, none,
  some, List, [], ◌∷◌, leb, if◌then◌else◌, Str, arith,
}
use libvmod_redis.Core.Types.{Db}
use libvmod_redis.Sentinel.Inventory.{KnownServer, Sentinel, State}
use libvmod_redis.Sentinel.Keeping.{discover_servers-IsKept}
use libvmod_redis.Sentinel.Update.{update_db, unsafe_update_dbs}
use libvmod_redis.Sentinel.Update.Applied.{update_db-AreSynced}
use libvmod_redis.Sentinel.Locations.{unsafe_set_locations}
use libvmod_redis.Sentinel.Loop.{
  Config, Phase, checking, discovering, listening, updating, stopped, Thread, start_with, start_at,
  unsafe_sentinel_start, unsafe_sentinel_discovery, unsafe_sentinel_stop, Outside, is_due,
  advance_from, advance,
}
use libvmod_redis.Sentinel.Loop.Noticed.{AreCurrent, IsTracked, IsTracked-IsKept, ev_loop-IsTracked}
use libvmod_redis.Sentinel.Loop.Used.{AreUsed, AreUsed-AreCurrent}
use libvmod_redis.Sentinel.Update.Enabled.{update_db-enabled}

-- unsafe_update_dbs() makes all databases current.
unsafe_update_dbs-AreCurrent :
    (clock : ℕ → ℕ) (inventory : List KnownServer) (ticks : ℕ) (dbs : List Db)
    → AreCurrent inventory (unsafe_update_dbs clock inventory ticks dbs).1
unfolding unsafe_update_dbs
unsafe_update_dbs-AreCurrent clock inventory ticks [] = tt
unsafe_update_dbs-AreCurrent clock inventory ticks (db ∷ dbs) = (
  λ e.
      update_db-AreSynced clock inventory (ticks, db)
        (sym (update_db-enabled clock inventory (ticks, db)) ∙ e),
  unsafe_update_dbs-AreCurrent clock inventory (update_db clock inventory (ticks, db)).0 dbs,
)

module _ (clock : ℕ → ℕ) where
  -- What holds of a thread in each phase.
  abbrev IsInPhase : Config → State → Phase → Type 0
  IsInPhase config st checking = (config.discovery ≡ true) ⊎ AreCurrent st.servers config.dbs
  IsInPhase config st (discovering now) = IsTracked clock config now st
  IsInPhase config st (listening now) = IsTracked clock config now st
  IsInPhase config st (updating now) = IsTracked clock config now st
  IsInPhase config st stopped = Unit {0}

  abbrev IsSound : Thread → Type 0
  IsSound t = IsInPhase t.config t.state t.phase

  either-IsSound :
      (b : Bool) (t u : Thread)
      → (b ≡ true → IsSound t)
      → (b ≡ false → IsSound u)
      → IsSound (if b then t else u)
  either-IsSound true t u f g = f refl
  either-IsSound false t u f g = g refl

  module _ (monotone : (m n : ℕ) → m ≤ n → clock m ≤ clock n) (o : Outside) where
    begun-IsTracked :
        (config : Config) (st : State)
        → IsInPhase config st checking
        → IsTracked clock config (clock st.ticks) (record st { ticks = st.ticks + 1 })
    begun-IsTracked config st (inl d) = record {
      ahead = λ n h. monotone st.ticks n (omega (arith, h));
      current = inl d;
    }
    begun-IsTracked config st (inr v) = record {
      ahead = λ n h. monotone st.ticks n (omega (arith, h));
      current = inr (inl v);
    }

    quiet-IsInPhase :
        (config : Config) (now : ℕ) (st : State)
        → (config.discovery || leb now st.last_change) ≡ false
        → IsTracked clock config now st
        → IsInPhase config st checking
    quiet-IsInPhase config now st e v = elim v.current [
      | inl d ↦ inl d
      | inr (inl current) ↦ inr current
      | inr (inr changed) ↦ absurd (ground (arith, e, changed))
    ]

    advance_from-IsSound :
        (config : Config) (st : State) (phase : Phase)
        → IsInPhase config st phase
        → IsSound (advance_from clock o config st phase)
    advance_from-IsSound config st checking v =
        let tracked = begun-IsTracked config st v in
        either-IsSound (not config.active) _ _ (λ _. tt)
          (λ _.
            either-IsSound (is_due config st (clock st.ticks)) _ _ (λ _. tracked) (λ _. tracked))
    advance_from-IsSound config st (discovering now) v =
        let found =
          discover_servers-IsKept clock (IsTracked clock config now)
            (IsTracked-IsKept clock config now) o.answers st v in
        either-IsSound config.active _ _
          (λ _. record { ahead = found.ahead; current = found.current }) (λ _. tt)
    advance_from-IsSound config st (listening now) v =
        ev_loop-IsTracked clock config now o.events _
          (record { ahead = v.ahead; current = v.current })
    advance_from-IsSound config st (updating now) v =
        either-IsSound (config.discovery || leb now st.last_change) _ _
          (λ _. inr (unsafe_update_dbs-AreCurrent clock st.servers st.ticks config.dbs))
          (λ e. quiet-IsInPhase config now st e v)
    advance_from-IsSound config st stopped v = tt

-- What a thread can come to, from its start on: it runs a step with anything outside, other threads ask
-- for a discovery or for its end, or they use the databases. No server is added.
pub data Reaches (clock : ℕ → ℕ) : Thread → Type 0 where
  started :
      (has_ssl : Bool) (config : Config) (t : Thread)
      → (unsafe_sentinel_start has_ssl config).1 ≡ some t
      → Reaches clock t
  runs : (o : Outside) (t : Thread) → Reaches clock t → Reaches clock (advance clock o t)
  asked :
      (t : Thread)
      → Reaches clock t
      → Reaches clock (record t { config = unsafe_sentinel_discovery t.config })
  ended :
      (t : Thread)
      → Reaches clock t
      → Reaches clock (record t { config = unsafe_sentinel_stop t.config })
  used :
      (t : Thread) (dbs : List Db)
      → AreUsed t.config.dbs dbs
      → Reaches clock t
      → Reaches clock (record t { config = record (t.config) { dbs = dbs } })

abbrev IsSoundIfAny : (ℕ → ℕ) → Option Thread → Type 0
IsSoundIfAny clock none = Unit {0}
IsSoundIfAny clock (some t) = IsSound clock t

unsafe_sentinel_start-IsSoundIfAny :
    (clock : ℕ → ℕ) (has_ssl : Bool) (config : Config)
    → IsSoundIfAny clock (unsafe_sentinel_start has_ssl config).1
unfolding unsafe_sentinel_start
unsafe_sentinel_start-IsSoundIfAny clock has_ssl config = at config.locations
  where
    with_sentinels : (ss : List Sentinel) → IsSoundIfAny clock (start_with config ss).1
    with_sentinels [] = tt
    with_sentinels (s ∷ ss) = inl refl

    tls :
        (b : Bool) (ss : List Sentinel)
        → IsSoundIfAny clock (if b then (config, none) else start_with config ss).1
    tls true ss = tt
    tls false ss = with_sentinels ss

    at : (o : Option Str) → IsSoundIfAny clock (start_at has_ssl config o).1
    at none = tt
    at (some locations) = tls (config.tls && not has_ssl) (unsafe_set_locations locations)

module _ (clock : ℕ → ℕ) where
  configured-IsTracked :
      (config config' : Config) (st : State) (now : ℕ)
      → (config.discovery ≡ true → config'.discovery ≡ true)
      → (AreCurrent st.servers config.dbs → AreCurrent st.servers config'.dbs)
      → IsTracked clock config now st
      → IsTracked clock config' now st
  configured-IsTracked config config' st now f g v = record {
    ahead = v.ahead;
    current = elim v.current [
      | inl d ↦ inl (f d)
      | inr (inl current) ↦ inr (inl (g current))
      | inr (inr changed) ↦ inr (inr changed)
    ];
  }

  -- A change of the configuration that keeps a tracked state tracked keeps the thread sound.
  configured-IsSound :
      (config config' : Config) (st : State) (phase : Phase)
      → (config.discovery ≡ true → config'.discovery ≡ true)
      → (AreCurrent st.servers config.dbs → AreCurrent st.servers config'.dbs)
      → IsInPhase clock config st phase
      → IsInPhase clock config' st phase
  configured-IsSound config config' st checking f g (inl d) = inl (f d)
  configured-IsSound config config' st checking f g (inr v) = inr (g v)
  configured-IsSound config config' st (discovering now) f g v =
      configured-IsTracked config config' st now f g v
  configured-IsSound config config' st (listening now) f g v =
      configured-IsTracked config config' st now f g v
  configured-IsSound config config' st (updating now) f g v =
      configured-IsTracked config config' st now f g v
  configured-IsSound config config' st stopped f g v = tt

  module _ (monotone : (m n : ℕ) → m ≤ n → clock m ≤ clock n) where
    Reaches-IsSound : (t : Thread) → Reaches clock t → IsSound clock t
    unfolding unsafe_sentinel_discovery unsafe_sentinel_stop advance
    Reaches-IsSound t (started has_ssl config _ e) =
        subst (IsSoundIfAny clock) e (unsafe_sentinel_start-IsSoundIfAny clock has_ssl config)
    Reaches-IsSound t (runs o u r) =
        advance_from-IsSound clock monotone o u.config u.state u.phase (Reaches-IsSound u r)
    Reaches-IsSound t (asked u r) =
        configured-IsSound u.config _ u.state u.phase (λ _. refl) (λ v. v) (Reaches-IsSound u r)
    Reaches-IsSound t (ended u r) =
        configured-IsSound u.config _ u.state u.phase (λ d. d) (λ v. v) (Reaches-IsSound u r)
    Reaches-IsSound t (used u dbs k r) =
        configured-IsSound u.config _ u.state u.phase (λ d. d)
          (AreUsed-AreCurrent u.state.servers u.config.dbs dbs k) (Reaches-IsSound u r)

-- Whenever the thread is between two rounds, a discovery is still asked for, or every server in the
-- queues of every database that is no cluster has the role that the inventory has for its host and its
-- port (if it knows them): whatever the Sentinels answered and announced, whichever connections failed,
-- and whenever other threads asked for a discovery, used the databases or asked for the end. Time does
-- not go back, and no server was added since the start.
pub Reaches-AreCurrent :
    (clock : ℕ → ℕ) (t : Thread)
    → ((m n : ℕ) → m ≤ n → clock m ≤ clock n)
    → Reaches clock t
    → t.phase ≡ checking
    → (t.config.discovery ≡ true) ⊎ AreCurrent t.state.servers t.config.dbs
Reaches-AreCurrent clock t monotone r e =
    subst (IsInPhase clock t.config t.state) e (Reaches-IsSound clock monotone t r)
