-- ===== src/Cluster/Hops/Asked.antt =====
-- Where cluster_execute() of src/cluster.c follows ASK.
use libvmod_redis.Base.{◌≡◌, true, Option, some, Str}
use libvmod_redis.Core.Types.{Ptr, tbd, Db}
use libvmod_redis.Core.Registry.{unsafe_add_redis_server}
use libvmod_redis.Core.Registry.Listed.{IsListed}
use libvmod_redis.Core.Execute.{going}
use libvmod_redis.Cluster.Hops.{Around, Hopping}

-- The registration of the server of a redirection.
abbrev pub registered : Around → Str → Hopping → Option Ptr × Db
registered a location h =
    unsafe_add_redis_server a.setting.re_match a.setting.rules a.now a.now2 a.dial a.answer h.next
      h.db location tbd

-- The next round, after ASK, goes to a server with ASKING.
pub record IsAsked (location : Str) (p : Ptr) (h h' : Hopping) : Type 0 where
  pub goes_on : h'.status ≡ going
  pub server : h'.server ≡ some p
  pub asking : h'.asking ≡ true
  pub listed : IsListed location p h'.db
  pub same_argv : h'.argv ≡ h.argv
