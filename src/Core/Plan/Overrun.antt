-- ===== src/Core/Plan/Overrun.antt =====
-- The room that the server list of populate_execution_plan() of src/core.c takes in the workspace.
use libvmod_redis.Base.{
  ℕ, zero, suc, ◌+◌, ◌*◌, ◌≤◌, ◌<◌, ap, Bool, List, [], ◌∷◌, length, take, arith,
}
use libvmod_redis.Core.Types.{Ptr, Db}
use libvmod_redis.Core.Plan.Contexts.{sizeof_ptr}
use libvmod_redis.Core.Plan.Servers.{populate_servers}
use libvmod_redis.Core.Plan.Candidates.{IsFiled, candidates}
use libvmod_redis.Core.Plan.Reference.{populate_servers-candidates}

length-take-lt : (k n : ℕ) (ps : List Ptr) → k < n → k < length ps → k < length (take n ps)
length-take-lt k n [] h l = absurd (omega arith)
length-take-lt k zero (p ∷ ps) h l = absurd (omega arith)
length-take-lt zero (suc n) (p ∷ ps) h l = omega arith
length-take-lt (suc k) (suc n) (p ∷ ps) h l =
    omega (arith, length-take-lt k n ps (omega arith) (omega arith))

-- Each time the loops compare the room that was there at first. So, if it holds one pointer but not
-- `k + 1` of them, and the plan may have more than `k` servers and there are as many candidates, the
-- loops write more bytes than there are.
pub populate_servers-overruns :
    (free_ws : ℕ) (db : Db) (m : Bool) (slot now n k : ℕ)
    → IsFiled db
    → sizeof_ptr ≤ free_ws
    → free_ws < sizeof_ptr * (k + 1)
    → k < n
    → k < length (candidates db m slot now)
    → free_ws < sizeof_ptr * length (populate_servers db m slot now free_ws n).pick.selected
populate_servers-overruns free_ws db m slot now n k filed room small many known =
    let e =
      ap (λ s. length s.selected)
        (populate_servers-candidates free_ws room db slot now m n filed) in
    let long = length-take-lt k n (candidates db m slot now) many known in
    rw e (omega (arith, long))
