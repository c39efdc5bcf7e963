-- ===== src/Vmod/Events/Stale.antt =====
-- Connections across the warm event of src/vmod_redis.c.
use libvmod_redis.Base.{
  ℕ, zero, suc, ◌+◌, ◌%◌, ◌^◌, ◌<◌, ◌≡◌, refl, Bool, true, false, ◌&&◌, not, Option, none, some,
  is_some, if◌then◌else◌, arith, Bool-cases, inl, inr,
}
use libvmod_redis.Core.Types.{Context, Db, Env}
use libvmod_redis.Core.Valid.{is_valid_redis_context, valid→IsUsable}
use libvmod_redis.Sentinel.Loop.{Config, Thread, unsafe_sentinel_start}
use libvmod_redis.Vmod.Events.{Vcl, launched, handle_vcl_warm_event}

launched-version : (v : Vcl) (r : Config × Option Thread) → (launched v r).version ≡ v.version
launched-version v (config, none) = refl
launched-version v (config, some t) = refl

warm-version :
    (has_ssl : Bool) (v : Vcl)
    → (handle_vcl_warm_event has_ssl v).version ≡ (v.version + 1) % 2 ^ 32
unfolding handle_vcl_warm_event
warm-version has_ssl v =
    let next = record v { version = (v.version + 1) % 2 ^ 32 } in
    either (is_some v.config.locations && not v.config.active)
      (launched next (unsafe_sentinel_start has_ssl v.config)) next
      (launched-version next (unsafe_sentinel_start has_ssl v.config)) refl
  where
    either :
        (b : Bool) (x y : Vcl)
        → x.version ≡ (v.version + 1) % 2 ^ 32
        → y.version ≡ (v.version + 1) % 2 ^ 32
        → (if b then x else y).version ≡ (v.version + 1) % 2 ^ 32
    either true x y e f = e
    either false x y e f = f

-- Warm events, `n` of them.
abbrev pub warm_events : Bool → ℕ → Vcl → Vcl
warm_events has_ssl zero v = v
warm_events has_ssl (suc n) v = handle_vcl_warm_event has_ssl (warm_events has_ssl n v)

warm_events-version :
    (has_ssl : Bool) (n : ℕ) (v : Vcl)
    → v.version < 2 ^ 32
    → (warm_events has_ssl n v).version ≡ (v.version + n) % 2 ^ 32
warm_events-version has_ssl zero v h = omega arith
warm_events-version has_ssl (suc n) v h =
    omega (arith, warm-version has_ssl (warm_events has_ssl n v), warm_events-version has_ssl n v h)

-- No connection is used that was made before the last 1, 2, ... or 2^32 - 1 warm events of the VCL:
-- whatever its state, its age and its server, is_valid_redis_context() refuses it.
pub handle_vcl_warm_event-stale :
    (has_ssl : Bool) (n : ℕ) (v : Vcl) (env : Env) (db : Db) (c : Context) (now : ℕ)
    → v.version < 2 ^ 32
    → n + 1 < 2 ^ 32
    → c.version ≡ v.version
    → env.version ≡ (warm_events has_ssl (n + 1) v).version
    → (is_valid_redis_context env db c now).0 ≡ false
handle_vcl_warm_event-stale has_ssl n v env db c now bound few old new =
    elim (Bool-cases (is_valid_redis_context env db c now).0) [
      | inl e ↦
          let current = (valid→IsUsable env db c now e).0.current in
          let warmed = warm_events-version has_ssl (n + 1) v bound in
          absurd (omega (arith, bound, few, old, new, warmed, current))
      | inr e ↦ e
    ]
