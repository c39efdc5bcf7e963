-- ===== src/Vmod/Statistics/Named.antt =====
-- The JSON of .stats() of src/vmod_redis.c and the numbers that .counter() returns.
use libvmod_redis.Base.{
  ℕ, ◌≡◌, refl, ap, Bool, true, false, Option, List, [], ◌∷◌, ◌++◌, if◌then◌else◌, Str,
}
use libvmod_redis.Core.Reply.{ℤ, pos}
use libvmod_redis.Core.Types.{Stats, Db}
use libvmod_redis.Core.Registry.{str_eq}
use libvmod_redis.Core.Serialize.{codes, quoted}
use libvmod_redis.Vmod.Statistics.{
  to_vcl_int, vmod_db_counter, number, json_stats, json, body, copied, until_nul, vmod_db_stats,
}

-- Objects of objects and of numbers.
mutual
  pub data Tree : Type 0 where
    leaf : ℕ → Tree
    node : Members → Tree

  pub data Members : Type 0 where
    nil : Members
    member : Str → Tree → Members → Members

-- The tree of the counters: the dots of their names are its levels.
abbrev pub tree : Stats → Tree
tree s = node (
    member (codes "servers")
      (node (
        member (codes "total") (leaf s.servers_total)
          (member (codes "failed") (leaf s.servers_failed) (nil))))
      (member (codes "connections")
        (node (
          member (codes "total") (leaf s.connections_total) (
            member (codes "failed") (leaf s.connections_failed) (
              member (codes "dropped")
                (node (
                  member (codes "error") (leaf s.dropped_error) (
                    member (codes "hung_up") (leaf s.dropped_hung_up) (
                      member (codes "overflow") (leaf s.dropped_overflow) (
                        member (codes "ttl") (leaf s.dropped_ttl) (
                          member (codes "version") (leaf s.dropped_version)
                            (member (codes "sick") (leaf s.dropped_sick) (nil))))))))
                (nil)))))
        (member (codes "workers") (node (member (codes "blocked") (leaf s.workers_blocked) (nil))) (
          member (codes "commands")
            (node (
              member (codes "total") (leaf s.commands_total) (
                member (codes "failed") (leaf s.commands_failed) (
                  member (codes "retried") (leaf s.commands_retried) (
                    member (codes "error") (leaf s.commands_error)
                      (member (codes "noscript") (leaf s.commands_noscript) (nil)))))))
            (member (codes "cluster")
              (node (
                member (codes "discoveries")
                  (node (
                    member (codes "total") (leaf s.discoveries_total)
                      (member (codes "failed") (leaf s.discoveries_failed) (nil))))
                  (member (codes "replies")
                    (node (
                      member (codes "moved") (leaf s.replies_moved)
                        (member (codes "ask") (leaf s.replies_ask) (nil))))
                    (nil))))
              (nil))))))

-- The text of a tree, and after it the text `rest`.
unfoldable mutual
  pub render : Tree → Str → Str
  render (leaf n) rest = number n ++ rest
  render (node ms) rest = 123 ∷ render_members ms rest

  pub render_members : Members → Str → Str
  render_members nil rest = 125 ∷ rest
  render_members (member k t nil) rest = quoted k ++ (codes ": " ++ render t (125 ∷ rest))
  render_members (member k t (member l u ms)) rest =
      quoted k ++ (codes ": " ++ render t (44 ∷ render_members (member l u ms) rest))

-- The paths of a tree, with dots between their names, and the numbers they lead to.
abbrev pub level : Str → Str
level [] = []
level (c ∷ cs) = c ∷ (cs ++ codes ".")

unfoldable mutual
  pub paths : Str → Tree → List (Str × ℕ)
  paths name (leaf n) = (name, n) ∷ []
  paths name (node ms) = paths_members (level name) ms

  pub paths_members : Str → Members → List (Str × ℕ)
  paths_members start nil = []
  paths_members start (member k t ms) = paths (start ++ k) t ++ paths_members start ms

-- The value that a table gives a name: 0 when it has none.
abbrev pub value_of : List (Str × ℕ) → Str → ℤ
unfolding str_eq
value_of [] name = pos 0
value_of (c ∷ cs) name = if str_eq name (c.0) then to_vcl_int (c.1) else value_of cs name

json_stats-tree : (s : Stats) → json_stats s ≡ render (tree s) []
unfolding json_stats render
json_stats-tree s = refl

vmod_db_counter-paths :
    (s : Stats) (name : Str) → vmod_db_counter s name ≡ value_of (paths [] (tree s)) name
unfolding paths vmod_db_counter
vmod_db_counter-paths s name = refl

-- The JSON of .stats() is the text of the tree of the counters, for every database and all the arguments:
-- it is appended to the body in the methods that stream, if a stream is asked for. Otherwise the string
-- that is returned, if the text fits in the workspace, begins with the text and goes on with what stands
-- after it in the workspace, up to a zero byte. For every name .counter() returns, as a VCL_INT, the
-- number at the path of that name in this tree, and 0 when the tree has no such path.
pub vmod_db_stats-tree :
    (db : Db) (stream labels_fit fits default : Bool) (beyond : List ℕ) (prefix extra : Option Str)
    (name : Str)
    → (vmod_db_stats false labels_fit true beyond db json stream prefix default extra
        ≡ copied (render (tree db.stats) [] ++ until_nul beyond))
      × (vmod_db_stats true labels_fit true beyond db json false prefix default extra
          ≡ copied (render (tree db.stats) [] ++ until_nul beyond))
      × (vmod_db_stats true labels_fit fits beyond db json true prefix default extra
          ≡ body (render (tree db.stats) []) fits)
      × (vmod_db_counter db.stats name ≡ value_of (paths [] (tree db.stats)) name)
unfolding vmod_db_stats
vmod_db_stats-tree db stream labels_fit fits default beyond prefix extra name = (
  ap (λ t. copied (t ++ until_nul beyond)) (json_stats-tree db.stats),
  ap (λ t. copied (t ++ until_nul beyond)) (json_stats-tree db.stats),
  ap (λ t. body t fits) (json_stats-tree db.stats),
  vmod_db_counter-paths db.stats name,
)
