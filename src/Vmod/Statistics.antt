-- ===== src/Vmod/Statistics.antt =====
-- .stats() and .counter() of src/vmod_redis.c. Whether the labels and the text fit in the workspace are
-- arguments.
pub mod Labels
pub mod Named
pub mod Exposition
use libvmod_redis.Base.{
  ℕ, ◌-◌, ◌^◌, Bool, true, false, ◌&&◌, not, Option, none, some, List, [], ◌∷◌, ◌++◌, map, ltb,
  ◌==◌, if◌then◌else◌, Str,
}
use libvmod_redis.Core.Reply.{ℤ, pos, negsuc}
use libvmod_redis.Core.Types.{Stats, Db}
use libvmod_redis.Core.Registry.{str_eq}
use libvmod_redis.Core.Serialize.{codes}
use libvmod_redis.Cluster.Nodes.{decimal}
use libvmod_redis.Vmod.Databases.{not_empty}

-- A uint64_t as a VCL_INT.
abbrev pub to_vcl_int : ℕ → ℤ
to_vcl_int n = if ltb n (2 ^ 63) then pos n else negsuc (2 ^ 64 - 1 - n)

unfoldable pub vmod_db_counter : Stats → Str → ℤ
unfolding str_eq
vmod_db_counter s name =
    if str_eq name (codes "servers.total")
    then to_vcl_int s.servers_total
    else if str_eq name (codes "servers.failed")
    then to_vcl_int s.servers_failed
    else if str_eq name (codes "connections.total")
    then to_vcl_int s.connections_total
    else if str_eq name (codes "connections.failed")
    then to_vcl_int s.connections_failed
    else if str_eq name (codes "connections.dropped.error")
    then to_vcl_int s.dropped_error
    else if str_eq name (codes "connections.dropped.hung_up")
    then to_vcl_int s.dropped_hung_up
    else if str_eq name (codes "connections.dropped.overflow")
    then to_vcl_int s.dropped_overflow
    else if str_eq name (codes "connections.dropped.ttl")
    then to_vcl_int s.dropped_ttl
    else if str_eq name (codes "connections.dropped.version")
    then to_vcl_int s.dropped_version
    else if str_eq name (codes "connections.dropped.sick")
    then to_vcl_int s.dropped_sick
    else if str_eq name (codes "workers.blocked")
    then to_vcl_int s.workers_blocked
    else if str_eq name (codes "commands.total")
    then to_vcl_int s.commands_total
    else if str_eq name (codes "commands.failed")
    then to_vcl_int s.commands_failed
    else if str_eq name (codes "commands.retried")
    then to_vcl_int s.commands_retried
    else if str_eq name (codes "commands.error")
    then to_vcl_int s.commands_error
    else if str_eq name (codes "commands.noscript")
    then to_vcl_int s.commands_noscript
    else if str_eq name (codes "cluster.discoveries.total")
    then to_vcl_int s.discoveries_total
    else if str_eq name (codes "cluster.discoveries.failed")
    then to_vcl_int s.discoveries_failed
    else if str_eq name (codes "cluster.replies.moved")
    then to_vcl_int s.replies_moved
    else if str_eq name (codes "cluster.replies.ask")
    then to_vcl_int s.replies_ask
    else pos 0

-- The formatting of printf(3), with a percent sign for each conversion: it stands for the next argument.
abbrev pub first_arg : List Str → Str
first_arg [] = []
first_arg (arg ∷ args) = arg

abbrev pub other_args : List Str → List Str
other_args [] = []
other_args (arg ∷ args) = args

unfoldable pub printf : Str → List Str → Str
printf [] args = []
printf (c ∷ cs) args =
    let rest = printf cs (if c == 37 then other_args args else args) in
    if c == 37 then first_arg args ++ rest else c ∷ rest

-- A uint64_t has at most 20 digits.
abbrev pub number : ℕ → Str
number n = decimal 20 n

-- The counters, in the order in which they are printed.
abbrev pub values : Stats → List Str
values s =
    number s.servers_total
    ∷ number s.servers_failed
    ∷ number s.connections_total
    ∷ number s.connections_failed
    ∷ number s.dropped_error
    ∷ number s.dropped_hung_up
    ∷ number s.dropped_overflow
    ∷ number s.dropped_ttl
    ∷ number s.dropped_version
    ∷ number s.dropped_sick
    ∷ number s.workers_blocked
    ∷ number s.commands_total
    ∷ number s.commands_failed
    ∷ number s.commands_retried
    ∷ number s.commands_error
    ∷ number s.commands_noscript
    ∷ number s.discoveries_total
    ∷ number s.discoveries_failed
    ∷ number s.replies_moved
    ∷ number s.replies_ask
    ∷ []

abbrev pub json_format : Str
json_format =
    codes "{"
    ++ (codes "\"servers\": {"
        ++ (codes "\"total\": %,"
            ++ (codes "\"failed\": %},"
                ++ (codes "\"connections\": {"
                    ++ (codes "\"total\": %,"
                        ++ (codes "\"failed\": %,"
                            ++ (codes "\"dropped\": {"
                                ++ (codes "\"error\": %,"
                                    ++ (codes "\"hung_up\": %,"
                                        ++ (codes "\"overflow\": %,"
                                            ++ (codes "\"ttl\": %,"
                                                ++ (codes "\"version\": %,"
                                                    ++ (codes "\"sick\": %}},"
                                                        ++ (codes "\"workers\": {"
                                                            ++ (codes "\"blocked\": %},"
                                                            ++ (codes "\"commands\": {"
                                                            ++ (codes "\"total\": %,"
                                                            ++ (codes "\"failed\": %,"
                                                            ++ (codes "\"retried\": %,"
                                                            ++ (codes "\"error\": %,"
                                                            ++ (codes "\"noscript\": %},"
                                                            ++ (codes "\"cluster\": {"
                                                            ++ (codes "\"discoveries\": {"
                                                            ++ (codes "\"total\": %,"
                                                            ++ (codes "\"failed\": %},"
                                                            ++ (codes "\"replies\": {"
                                                            ++ (codes "\"moved\": %,"
                                                            ++ (codes
                                                            "\"ask\": %}}}"))))))))))))))))))))))))))))

unfoldable pub json_stats : Stats → Str
unfolding printf
json_stats s = printf json_format (values s)

abbrev pub prometheus_format : Str
prometheus_format =
    codes "# TYPE %servers_total counter\n"
    ++ (codes "%servers_total{%} %\n"
        ++ (codes "# TYPE %servers_failed counter\n"
            ++ (codes "%servers_failed{%} %\n"
                ++ (codes "# TYPE %connections_total counter\n"
                    ++ (codes "%connections_total{%} %\n"
                        ++ (codes "# TYPE %connections_failed counter\n"
                            ++ (codes "%connections_failed{%} %\n"
                                ++ (codes "# TYPE %connections_dropped counter\n"
                                    ++ (codes "%connections_dropped{%%reason=\"error\"} %\n"
                                        ++ (codes "%connections_dropped{%%reason=\"hung_up\"} %\n"
                                            ++ (codes
                                                  "%connections_dropped{%%reason=\"overflow\"} %\n"
                                                ++ (codes
                                                      "%connections_dropped{%%reason=\"ttl\"} %\n"
                                                    ++ (codes
                                                          "%connections_dropped{%%reason=\"version\"} %\n"
                                                        ++ (codes
                                                            "%connections_dropped{%%reason=\"sick\"} %\n"
                                                            ++ (codes
                                                            "# TYPE %workers_blocked counter\n"
                                                            ++ (codes "%workers_blocked{%} %\n"
                                                            ++ (codes
                                                            "# TYPE %commands_total counter\n"
                                                            ++ (codes "%commands_total{%} %\n"
                                                            ++ (codes
                                                            "# TYPE %commands_failed counter\n"
                                                            ++ (codes "%commands_failed{%} %\n"
                                                            ++ (codes
                                                            "# TYPE %commands_retried counter\n"
                                                            ++ (codes "%commands_retried{%} %\n"
                                                            ++ (codes
                                                            "# TYPE %commands_error counter\n"
                                                            ++ (codes "%commands_error{%} %\n"
                                                            ++ (codes
                                                            "# TYPE %commands_noscript counter\n"
                                                            ++ (codes "%commands_noscript{%} %\n"
                                                            ++ (codes
                                                            "# TYPE %cluster_discoveries_total counter\n"
                                                            ++ (codes
                                                            "%cluster_discoveries_total{%} %\n"
                                                            ++ (codes
                                                            "# TYPE %cluster_discoveries_failed counter\n"
                                                            ++ (codes
                                                            "%cluster_discoveries_failed{%} %\n"
                                                            ++ (codes
                                                            "# TYPE %cluster_replies_moved counter\n"
                                                            ++ (codes
                                                            "%cluster_replies_moved{%} %\n"
                                                            ++ (codes
                                                            "# TYPE %cluster_replies_ask counter\n"
                                                            ++ (codes
                                                            "%cluster_replies_ask{%} %\n"))))))))))))))))))))))))))))))))))

-- The arguments of the metrics.
abbrev pub metrics : Str → Str → Str → Stats → List Str
metrics prefix labels separator s =
    prefix
    ∷ prefix
    ∷ labels
    ∷ number s.servers_total
    ∷ prefix
    ∷ prefix
    ∷ labels
    ∷ number s.servers_failed
    ∷ prefix
    ∷ prefix
    ∷ labels
    ∷ number s.connections_total
    ∷ prefix
    ∷ prefix
    ∷ labels
    ∷ number s.connections_failed
    ∷ prefix
    ∷ prefix
    ∷ labels
    ∷ separator
    ∷ number s.dropped_error
    ∷ prefix
    ∷ labels
    ∷ separator
    ∷ number s.dropped_hung_up
    ∷ prefix
    ∷ labels
    ∷ separator
    ∷ number s.dropped_overflow
    ∷ prefix
    ∷ labels
    ∷ separator
    ∷ number s.dropped_ttl
    ∷ prefix
    ∷ labels
    ∷ separator
    ∷ number s.dropped_version
    ∷ prefix
    ∷ labels
    ∷ separator
    ∷ number s.dropped_sick
    ∷ prefix
    ∷ prefix
    ∷ labels
    ∷ number s.workers_blocked
    ∷ prefix
    ∷ prefix
    ∷ labels
    ∷ number s.commands_total
    ∷ prefix
    ∷ prefix
    ∷ labels
    ∷ number s.commands_failed
    ∷ prefix
    ∷ prefix
    ∷ labels
    ∷ number s.commands_retried
    ∷ prefix
    ∷ prefix
    ∷ labels
    ∷ number s.commands_error
    ∷ prefix
    ∷ prefix
    ∷ labels
    ∷ number s.commands_noscript
    ∷ prefix
    ∷ prefix
    ∷ labels
    ∷ number s.discoveries_total
    ∷ prefix
    ∷ prefix
    ∷ labels
    ∷ number s.discoveries_failed
    ∷ prefix
    ∷ prefix
    ∷ labels
    ∷ number s.replies_moved
    ∷ prefix
    ∷ prefix
    ∷ labels
    ∷ number s.replies_ask
    ∷ []

unfoldable pub prometheus_stats : Str → Str → Str → Stats → Str
unfolding printf
prometheus_stats prefix labels separator s =
    printf prometheus_format (metrics prefix labels separator s)

abbrev pub or_prefix : Option Str → Str
or_prefix none = codes "vmod_redis_"
or_prefix (some prefix) = prefix

-- The labels that are asked for, and those of the database.
abbrev pub extra_labels : Option Str → Bool → Str
extra_labels none default = []
extra_labels (some extra) default = extra ++ (if default then codes "," else [])

abbrev pub default_labels : Bool → Str → Str
default_labels false name = []
default_labels true name = codes "name=\"" ++ (name ++ codes "\"")

abbrev pub separator_of : Str → Str
separator_of [] = []
separator_of (c ∷ cs) = codes ","

-- The VCL_ENUM of a format.
pub data Format : Type 0 where
  json prometheus : Format

-- A text for the body of the response (and whether the empty result is returned, or the task fails), the
-- string that is returned from the workspace, or a failure of the task.
pub data Dump : Type 0 where
  body : Str → Bool → Dump
  copied : Str → Dump
  failed : Dump

-- The text, unless the labels do not fit in the workspace.
unfoldable pub dump_stats : Bool → Db → Format → Option Str → Bool → Option Str → Option Str
unfolding json_stats prometheus_stats
dump_stats labels_fit db json prefix default extra = some (json_stats db.stats)
dump_stats labels_fit db prometheus prefix default extra =
    let labels = extra_labels (not_empty extra) default ++ default_labels default db.name in
    if labels_fit
    then some
        (prometheus_stats (or_prefix (not_empty prefix)) labels (separator_of labels) db.stats)
    else none

-- A string in C goes on to the next zero byte.
abbrev pub until_nul : List ℕ → Str
until_nul [] = []
until_nul (c ∷ cs) = let rest = until_nul cs in if c == 0 then [] else c ∷ rest

-- WS_Copy() is given the length of the text, and copies no zero byte after it: what stands after the
-- copy in the workspace, `beyond`, is read with it.
abbrev pub conclude_dump : Bool → Bool → List ℕ → Option Str → Dump
conclude_dump stream fits beyond none = failed
conclude_dump stream fits beyond (some text) =
    if stream then body text fits else (if fits then copied (text ++ until_nul beyond) else failed)

-- `may_stream` says whether the VCL method can stream a body, and `fits` whether what is copied to the
-- workspace does (an empty text, when the dump is streamed).
unfoldable pub vmod_db_stats :
    Bool → Bool → Bool → List ℕ → Db → Format → Bool → Option Str → Bool → Option Str → Dump
unfolding dump_stats
vmod_db_stats may_stream labels_fit fits beyond db format stream prefix default extra =
    conclude_dump (may_stream && stream) fits beyond
      (dump_stats labels_fit db format prefix default extra)
