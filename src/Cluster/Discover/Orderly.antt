-- ===== src/Cluster/Discover/Orderly.antt =====
-- What unsafe_discover_slots() of src/cluster.c leaves of the registry of servers.
use libvmod_redis.Base.{
  length, ℕ, zero, suc, refl, Option, none, some, List, [], ◌∷◌, ◌==◌, Bool-cases, inl, inr,
}
use libvmod_redis.Core.Reply.{Reply, array}
use libvmod_redis.Core.Types.{Ptr, Db}
use libvmod_redis.Core.Plan.Servers.{Cell, grid}
use libvmod_redis.Core.Registry.{is_socket}
use libvmod_redis.Cluster.Topology.{Setting, unsafe_discover_slots_aux}
use libvmod_redis.Cluster.Topology.Registering.{
  IsOrderly, IsOrderlyAt, kept-IsOrderly, unsafe_discover_slots_aux-IsOrderly,
}
use libvmod_redis.Cluster.Discover.{
  Answers, Search, missed, ask, visit, walk, walk_queues, is_missed, head, next_in,
  unsafe_discover_slots,
}

abbrev pub IsOrderlySearch : Search → Type 0
IsOrderlySearch s = IsOrderly s.db s.next

answered-IsOrderly :
    (g : Setting) (next : Ptr) (o : Option Reply) (server : Ptr) (db : Db)
    → IsOrderly db next
    → IsOrderlyAt (unsafe_discover_slots_aux g next o server db).1
unfolding unsafe_discover_slots_aux
answered-IsOrderly g next (some (array shards)) server db v =
    unsafe_discover_slots_aux-IsOrderly g next shards server db v
answered-IsOrderly g next _ server db v =
    kept-IsOrderly db _ next (record { queues = refl; weights = λ q. refl; roles = λ q. refl }) v

module _ (g : Setting) (answers : Answers) where
  ask-IsOrderly : (p : Ptr) (s : Search) → IsOrderlySearch s → IsOrderlySearch (ask g answers p s)
  unfolding ask
  ask-IsOrderly p s v = elim (Bool-cases (is_socket (s.db.mem p).location)) [
    | inl k ↦ rw k v
    | inr k ↦ rw k (answered-IsOrderly g s.next (answers (length s.asked) p) p s.db v)
  ]

  visit-IsOrderly :
      (server p : Ptr) (s : Search)
      → IsOrderlySearch s
      → IsOrderlySearch (visit g answers server p s)
  unfolding visit
  visit-IsOrderly server p s v = elim (Bool-cases (p == server)) [
    | inl k ↦ rw k v
    | inr k ↦ rw k (ask-IsOrderly p s v)
  ]

  walk-IsOrderly :
      (fuel : ℕ) (server : Ptr) (o : Option Ptr) (s : Search)
      → IsOrderlySearch s
      → IsOrderlySearch (walk fuel g answers server o s)
  unfolding walk
  walk-IsOrderly fuel server none s v = v
  walk-IsOrderly zero server (some p) s v = v
  walk-IsOrderly (suc fuel) server (some p) s v =
      let s' = visit g answers server p s in
      let v' = visit-IsOrderly server p s v in
      elim (Bool-cases (is_missed s'.ending)) [
        | inl k ↦ rw k (walk-IsOrderly fuel server (next_in s'.db p grid) s' v')
        | inr k ↦ rw k v'
      ]

  walk_queues-IsOrderly :
      (fuel : ℕ) (server : Ptr) (cs : List Cell) (s : Search)
      → IsOrderlySearch s
      → IsOrderlySearch (walk_queues fuel g answers server cs s)
  unfolding walk_queues
  walk_queues-IsOrderly fuel server [] s v = v
  walk_queues-IsOrderly fuel server ((w, r) ∷ cs) s v =
      let s' = walk fuel g answers server (head (s.db.servers w r)) s in
      let v' = walk-IsOrderly fuel server (head (s.db.servers w r)) s v in
      elim (Bool-cases (is_missed s'.ending)) [
        | inl k ↦ rw k (walk_queues-IsOrderly fuel server cs s' v')
        | inr k ↦ rw k v'
      ]

  -- Whatever the servers answer, and however long the search takes, it keeps every server in the queue
  -- of its weight and its role, and in it once, and new servers at addresses of their own.
  pub unsafe_discover_slots-IsOrderly :
      (fuel : ℕ) (next server : Ptr) (db : Db)
      → IsOrderly db next
      → IsOrderlySearch (unsafe_discover_slots fuel g answers next server db)
  unfolding unsafe_discover_slots
  unsafe_discover_slots-IsOrderly fuel next server db v =
      let s = ask g answers server (record { db = db; next = next; asked = []; ending = missed }) in
      let v' =
        ask-IsOrderly server (record { db = db; next = next; asked = []; ending = missed }) v in
      elim (Bool-cases (is_missed s.ending)) [
        | inl k ↦ rw k (walk_queues-IsOrderly fuel server grid s v')
        | inr k ↦ rw k v'
      ]
