-- ===== src/Examples/Statistics.antt =====
-- The theorems on the statistics of src/vmod_redis.c at concrete inputs.
use libvmod_redis.Base.{ℕ, List, ◌++◌, Option, Str, ◌≡◌, refl, true, false, none, some, [], ◌∷◌}
use libvmod_redis.Core.Reply.{pos}
use libvmod_redis.Core.Types.{Db}
use libvmod_redis.Core.Serialize.{codes}
use libvmod_redis.Vmod.Statistics.{
  vmod_db_stats, vmod_db_counter, json, prometheus, copied, body, failed, or_prefix, printf,
}
use libvmod_redis.Vmod.Statistics.Named.{vmod_db_stats-tree, render, tree, paths, value_of}
use libvmod_redis.Vmod.Statistics.Labels.{labels_of}
use libvmod_redis.Vmod.Statistics.Exposition.{
  vmod_db_stats-exposition, exposition, families, values_of, underscores,
}
use libvmod_redis.Vmod.Databases.{no_stats, not_empty}
use libvmod_redis.Examples.Data.{db}

abbrev used : Db
used = record db { stats = record no_stats { servers_total = 3; dropped_ttl = 12 } }

counter_of_ttl : vmod_db_counter used.stats (codes "connections.dropped.ttl") ≡ pos 12
unfolding vmod_db_counter
counter_of_ttl = refl

unknown_counter : vmod_db_counter used.stats (codes "connections.dropped") ≡ pos 0
unfolding vmod_db_counter
unknown_counter = refl

two_conversions : printf (codes "a % of %.") (codes "b" ∷ codes "c" ∷ []) ≡ codes "a b of c."
unfolding printf
two_conversions = refl

-- What stands in the workspace after a copy.
abbrev junk : List ℕ
junk = 120 ∷ 0 ∷ []

vmod_db_stats-tree_example :
    (vmod_db_stats false true true junk used json true none true none
      ≡ copied (render (tree used.stats) [] ++ codes "x"))
    × (vmod_db_stats true true true junk used json false none true none
        ≡ copied (render (tree used.stats) [] ++ codes "x"))
    × (vmod_db_stats true true false junk used json true none true none
        ≡ body (render (tree used.stats) []) false)
    × (vmod_db_counter used.stats (codes "servers.total")
        ≡ value_of (paths [] (tree used.stats)) (codes "servers.total"))
vmod_db_stats-tree_example =
    vmod_db_stats-tree used true true false true junk none none (codes "servers.total")

abbrev extra : Option Str
extra = some (codes "env=\"dev\"")

vmod_db_stats-exposition_example :
    (vmod_db_stats false true true junk used prometheus false none true extra
      ≡ copied (
          exposition
            (or_prefix (not_empty none))
            (labels_of extra true used.name)
            (families used.stats)
          ++ codes "x"))
    × (vmod_db_stats false false true junk used prometheus false none true extra ≡ failed)
    × (vmod_db_stats false true false junk used prometheus false none true extra ≡ failed)
    × (values_of (families used.stats) ≡ underscores (paths [] (tree used.stats)))
vmod_db_stats-exposition_example = vmod_db_stats-exposition used false true true junk none extra
