-- ===== src/Vmod/Statistics/Exposition.antt =====
-- The Prometheus text of .stats() of src/vmod_redis.c as metric families with labels.
use libvmod_redis.Base.{
  ℕ, ◌≡◌, refl, ap, sym, ◌∙◌, Bool, true, false, Option, none, some, List, [], ◌∷◌, ◌++◌, map, ◌==◌,
  if◌then◌else◌, Str,
}
use libvmod_redis.Core.Types.{Stats, Db}
use libvmod_redis.Core.Serialize.{codes}
use libvmod_redis.Vmod.Databases.{not_empty}
use libvmod_redis.Vmod.Statistics.{
  number, prometheus_stats, or_prefix, prometheus, copied, until_nul, failed, conclude_dump,
  dump_stats, vmod_db_stats,
}
use libvmod_redis.Vmod.Statistics.Labels.{
  label, commas, labels_of, IsSplit, labels_of-IsSplit, label-append,
}
use libvmod_redis.Vmod.Statistics.Named.{paths, tree}

-- A metric family, with its one sample or with a sample for each reason.
pub data Family : Type 0 where
  single : Str → ℕ → Family
  by_reason : Str → List (Str × ℕ) → Family

abbrev pub families : Stats → List Family
families s =
    single (codes "servers_total") s.servers_total
    ∷ single (codes "servers_failed") s.servers_failed
    ∷ single (codes "connections_total") s.connections_total
    ∷ single (codes "connections_failed") s.connections_failed
    ∷ by_reason (codes "connections_dropped") (
        (codes "error", s.dropped_error)
        ∷ (codes "hung_up", s.dropped_hung_up)
        ∷ (codes "overflow", s.dropped_overflow)
        ∷ (codes "ttl", s.dropped_ttl)
        ∷ (codes "version", s.dropped_version)
        ∷ (codes "sick", s.dropped_sick)
        ∷ [])
    ∷ single (codes "workers_blocked") s.workers_blocked
    ∷ single (codes "commands_total") s.commands_total
    ∷ single (codes "commands_failed") s.commands_failed
    ∷ single (codes "commands_retried") s.commands_retried
    ∷ single (codes "commands_error") s.commands_error
    ∷ single (codes "commands_noscript") s.commands_noscript
    ∷ single (codes "cluster_discoveries_total") s.discoveries_total
    ∷ single (codes "cluster_discoveries_failed") s.discoveries_failed
    ∷ single (codes "cluster_replies_moved") s.replies_moved
    ∷ single (codes "cluster_replies_ask") s.replies_ask
    ∷ []

-- The text of the metric families under labels.
module _ (prefix : Str) (labels : List Str) where
  abbrev pub sample : Str → List Str → ℕ → Str → Str
  sample name ls n rest =
      prefix ++ (name ++ (codes "{" ++ (commas ls ++ (codes "} " ++ (number n ++ (10 ∷ rest))))))

  abbrev pub samples : Str → List (Str × ℕ) → Str → Str
  samples name [] rest = rest
  samples name (c ∷ cs) rest =
      sample name (labels ++ (label (codes "reason") (c.0) ∷ [])) (c.1) (samples name cs rest)

  unfoldable pub exposition : List Family → Str
  exposition [] = []
  exposition (single name n ∷ fs) =
      codes "# TYPE "
      ++ (prefix ++ (name ++ (codes " counter\n" ++ sample name labels n (exposition fs))))
  exposition (by_reason name cs ∷ fs) =
      codes "# TYPE "
      ++ (prefix ++ (name ++ (codes " counter\n" ++ samples name cs (exposition fs))))

-- The text of the families under labels and a separator that are given.
module _ (prefix labels separator : Str) where
  abbrev pub type_line : Str → Str → Str
  type_line name rest = codes "# TYPE " ++ (prefix ++ (name ++ (codes " counter\n" ++ rest)))

  abbrev pub printed_samples : Str → List (Str × ℕ) → Str → Str
  printed_samples name [] rest = rest
  printed_samples name (c ∷ cs) rest =
      prefix
      ++ (name
          ++ (codes "{"
              ++ (labels
                  ++ (separator
                      ++ (codes "reason=\""
                          ++ (c.0
                              ++ (codes "\"} "
                                  ++ (number (c.1) ++ (10 ∷ printed_samples name cs rest)))))))))

  unfoldable pub printed : List Family → Str
  printed [] = []
  printed (single name n ∷ fs) = type_line name (
      prefix
      ++ (name ++ (codes "{" ++ (labels ++ (codes "} " ++ (number n ++ (10 ∷ printed fs)))))))
  printed (by_reason name cs ∷ fs) = type_line name (printed_samples name cs (printed fs))

-- The names and the values of the samples.
abbrev pub under : Str → List (Str × ℕ) → List (Str × ℕ)
under name [] = []
under name (c ∷ cs) = (name ++ (95 ∷ c.0), c.1) ∷ under name cs

unfoldable pub values_of : List Family → List (Str × ℕ)
values_of [] = []
values_of (single name n ∷ fs) = (name, n) ∷ values_of fs
values_of (by_reason name cs ∷ fs) = under name cs ++ values_of fs

-- The names of the counters as names of metrics.
abbrev pub underscores : List (Str × ℕ) → List (Str × ℕ)
underscores [] = []
underscores (c ∷ cs) = (map (λ x. if x == 46 then 95 else x) (c.0), c.1) ∷ underscores cs

module _ {labels separator : Str} {ls : List Str} (h : IsSplit labels separator ls)
    (prefix : Str) where
  printed_samples-samples :
      (name : Str) (cs : List (Str × ℕ)) {p q : Str}
      → p ≡ q
      → printed_samples prefix labels separator name cs p ≡ samples prefix ls name cs q
  printed_samples-samples name [] e = e
  printed_samples-samples name (c ∷ cs) e =
      ap (λ t. prefix ++ (name ++ (codes "{" ++ t)))
        (ap (λ t. labels ++ (separator ++ t)) (sym (label-append (c.0) _))
          ∙ h.more (label (codes "reason") (c.0)) _
          ∙ ap
              (λ t.
                commas (ls ++ (label (codes "reason") (c.0) ∷ []))
                ++ (codes "} " ++ (number (c.1) ++ (10 ∷ t))))
              (printed_samples-samples name cs e))

  printed-exposition :
      (fs : List Family) → printed prefix labels separator fs ≡ exposition prefix ls fs
  unfolding printed exposition
  printed-exposition [] = refl
  printed-exposition (single name n ∷ fs) =
      ap
        (λ t.
          codes "# TYPE "
          ++ (prefix ++ (name ++ (codes " counter\n" ++ (prefix ++ (name ++ (codes "{" ++ t)))))))
        (ap (λ t. t ++ (codes "} " ++ (number n ++ (10 ∷ printed prefix labels separator fs))))
            h.whole
          ∙ ap (λ t. commas ls ++ (codes "} " ++ (number n ++ (10 ∷ t)))) (printed-exposition fs))
  printed-exposition (by_reason name cs ∷ fs) =
      ap (λ t. codes "# TYPE " ++ (prefix ++ (name ++ (codes " counter\n" ++ t))))
        (printed_samples-samples name cs (printed-exposition fs))

prometheus_stats-families :
    (prefix labels separator : Str) (s : Stats)
    → prometheus_stats prefix labels separator s ≡ printed prefix labels separator (families s)
unfolding prometheus_stats printed
prometheus_stats-families prefix labels separator s = refl

families-paths : (s : Stats) → values_of (families s) ≡ underscores (paths [] (tree s))
unfolding values_of paths
families-paths s = refl

conclude_dump-unfit :
    (beyond : List ℕ) (text : Option Str) → conclude_dump false false beyond text ≡ failed
conclude_dump-unfit beyond none = refl
conclude_dump-unfit beyond (some text) = refl

-- Outside the methods that stream, the string that .stats() returns in the Prometheus format is the
-- exposition of the metric families under the prefix and the list of the labels that apply, with commas
-- between the labels, and after it what stands in the workspace up to a zero byte, if the labels and the
-- text fit, and the task fails if either does not. The reason of a dropped connection is
-- one more label of its sample. The samples of the families are the counters of .counter() in their order,
-- with underscores for the dots of their names.
pub vmod_db_stats-exposition :
    (db : Db) (stream default labels_fit : Bool) (beyond : List ℕ) (prefix extra : Option Str)
    → (vmod_db_stats false true true beyond db prometheus stream prefix default extra
        ≡ copied (
            exposition
              (or_prefix (not_empty prefix))
              (labels_of extra default db.name)
              (families db.stats)
            ++ until_nul beyond))
      × (vmod_db_stats false false labels_fit beyond db prometheus stream prefix default extra
          ≡ failed)
      × (vmod_db_stats false labels_fit false beyond db prometheus stream prefix default extra
          ≡ failed)
      × (values_of (families db.stats) ≡ underscores (paths [] (tree db.stats)))
unfolding vmod_db_stats
vmod_db_stats-exposition db stream default labels_fit beyond prefix extra = (
  ap (λ t. copied (t ++ until_nul beyond))
      (prometheus_stats-families (or_prefix (not_empty prefix)) _ _ db.stats
        ∙ printed-exposition (labels_of-IsSplit extra default db.name)
            (or_prefix (not_empty prefix)) (families db.stats)),
  refl,
  conclude_dump-unfit beyond (dump_stats labels_fit db prometheus prefix default extra),
  families-paths db.stats,
)
