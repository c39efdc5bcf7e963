-- ===== src/Cluster/Discover.antt =====
-- unsafe_discover_slots() of src/cluster.c. It goes through the queues of servers by their links while
-- unsafe_discover_slots_aux() moves the servers about, so the loop over a queue has fuel. A server has
-- its own reply to the n-th request for the topology; `none` is no reply.
pub mod Orderly
pub mod Silent
pub mod Once
use libvmod_redis.Base.{
  ℕ, zero, suc, ◌+◌, Bool, true, false, ◌||◌, Option, none, some, List, [], ◌∷◌, ◌++◌, length, ltb,
  ◌==◌, if◌then◌else◌,
}
use libvmod_redis.Core.Reply.{Reply}
use libvmod_redis.Core.Types.{Ptr, Db}
use libvmod_redis.Core.Plan.Servers.{Cell, grid}
use libvmod_redis.Core.Registry.{is_socket}
use libvmod_redis.Cluster.Topology.{Setting, Discovery, unsafe_discover_slots_aux}

-- VTAILQ_FIRST().
abbrev pub head : List Ptr → Option Ptr
head [] = none
head (p ∷ ps) = some p

-- The server after `p`, if `p` is in the queue.
abbrev pub successor : Ptr → List Ptr → Option (Option Ptr)
successor p [] = none
successor p (q ∷ qs) = let rest = successor p qs in if q == p then some (head qs) else rest

abbrev pub or_else : Option (Option Ptr) → Option Ptr → Option Ptr
or_else none rest = rest
or_else (some o) rest = o

-- VTAILQ_NEXT(): the link of a server, in the queue in which it is now.
unfoldable pub next_in : Db → Ptr → List Cell → Option Ptr
next_in db p [] = none
next_in db p ((w, r) ∷ cs) = or_else (successor p (db.servers w r)) (next_in db p cs)

-- How a search has ended: not yet, with a discovery, by a failed assertion, or not within the fuel.
pub data Ending : Type 0 where
  missed found aborted endless : Ending

-- `asked` lists the servers that were asked, in order, and a new server is at the next address of `next`.
pub record Search : Type 0 where
  pub db : Db
  pub next : Ptr
  pub asked : List Ptr
  pub ending : Ending

abbrev pub Answers : Type 0
Answers = ℕ → Ptr → Option Reply

abbrev pub ending_of : Bool → Ending
ending_of true = found
ending_of false = missed

unfoldable pub ask : Setting → Answers → Ptr → Search → Search
ask g answers p s =
    let (done, d) = unsafe_discover_slots_aux g s.next (answers (length s.asked) p) p s.db in
    if is_socket (s.db.mem p).location
    then record s { ending = aborted }
    else record { db = d.db; next = d.next; asked = s.asked ++ (p ∷ []); ending = ending_of done }

-- The given server has been asked already.
unfoldable pub visit : Setting → Answers → Ptr → Ptr → Search → Search
unfolding ask
visit g answers server p s = if p == server then s else ask g answers p s

abbrev pub is_missed : Ending → Bool
is_missed missed = true
is_missed _ = false

-- VTAILQ_FOREACH().
unfoldable pub walk : ℕ → Setting → Answers → Ptr → Option Ptr → Search → Search
unfolding visit
walk fuel g answers server none s = s
walk zero g answers server (some p) s = record s { ending = endless }
walk (suc fuel) g answers server (some p) s =
    let s' = visit g answers server p s in
    let rest = walk fuel g answers server (next_in s'.db p grid) s' in
    if is_missed s'.ending then rest else s'

unfoldable pub walk_queues : ℕ → Setting → Answers → Ptr → List Cell → Search → Search
unfolding walk
walk_queues fuel g answers server [] s = s
walk_queues fuel g answers server ((w, r) ∷ cs) s =
    let s' = walk fuel g answers server (head (s.db.servers w r)) s in
    let rest = walk_queues fuel g answers server cs s' in if is_missed s'.ending then rest else s'

unfoldable pub unsafe_discover_slots : ℕ → Setting → Answers → Ptr → Ptr → Db → Search
unfolding ask walk_queues
unsafe_discover_slots fuel g answers next server db =
    let s = ask g answers server (record { db = db; next = next; asked = []; ending = missed }) in
    if is_missed s.ending then walk_queues fuel g answers server grid s else s
