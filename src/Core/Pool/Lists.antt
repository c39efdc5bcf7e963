-- ===== src/Core/Pool/Lists.antt =====
-- The lists of contexts of a pool of src/core.c, and what every operation on them keeps.
use libvmod_redis.Base.{
  ℕ, ◌+◌, ◌-◌, ◌≤◌, ◌<◌, ◌≡◌, List, [], ◌∷◌, ◌++◌, ◌==◌, if◌then◌else◌, length, length-append,
  arith,
}
use libvmod_redis.Core.Types.{Context}
use libvmod_redis.Core.Plan.Contexts.{remove_context}

-- How often a context stands in a list.
abbrev pub count : ℕ → List Context → ℕ
count i [] = 0
count i (c ∷ cs) = (if c.id == i then 1 else 0) + count i cs

pub count-append : (i : ℕ) (cs ds : List Context) → count i (cs ++ ds) ≡ count i cs + count i ds
count-append i [] ds = omega arith
count-append i (c ∷ cs) ds = omega (arith, count-append i cs ds)

pub count-remove_context :
    (i j : ℕ) (cs : List Context)
    → count i (remove_context j cs) ≡ count i cs - (if i == j then 1 else 0)
unfolding remove_context
count-remove_context i j [] = ground arith
count-remove_context i j (c ∷ cs) = ground (arith, count-remove_context i j cs)

pub length-remove_context :
    (i : ℕ) (cs : List Context) → 0 < count i cs → length (remove_context i cs) + 1 ≡ length cs
unfolding remove_context
length-remove_context i [] h = absurd (omega arith)
length-remove_context i (c ∷ cs) h = ground (arith, length-remove_context i cs)

-- The counter of a pool is right and within its limit, and no context is in it twice.
pub record IsPool (max n : ℕ) (free busy : List Context) : Type 0 where
  pub counted : n ≡ length free + length busy
  pub capped : n ≤ max
  pub once : (i : ℕ) → count i free + count i busy ≤ 1

module _ (max n : ℕ) (c : Context) (free busy : List Context) where
  pub mark-IsPool : IsPool max n (c ∷ free) busy → IsPool max n free (busy ++ c ∷ [])
  mark-IsPool v = record {
    counted = omega (arith, v.counted, length-append busy (c ∷ []));
    capped = v.capped;
    once = λ i. omega (arith, v.once i, count-append i busy (c ∷ []));
  }

  pub drop-IsPool :
      0 < count c.id busy
      → IsPool max n free busy
      → IsPool max (n - 1) free (remove_context c.id busy)
  drop-IsPool h v = record {
    counted = omega (arith, v.counted, length-remove_context c.id busy h);
    capped = omega (arith, v.capped);
    once = λ i. omega (arith, v.once i, count-remove_context i c.id busy);
  }

  pub add-IsPool :
      n < max
      → count c.id free + count c.id busy ≡ 0
      → IsPool max n free busy
      → IsPool max (n + 1) free (busy ++ c ∷ [])
  add-IsPool h fresh v = record {
    counted = omega (arith, v.counted, length-append busy (c ∷ []));
    capped = omega arith;
    once = λ i. ground (arith, v.once i, fresh, count-append i busy (c ∷ []));
  }

  pub release-IsPool :
      0 < count c.id busy
      → IsPool max n free busy
      → IsPool max n (free ++ c ∷ []) (remove_context c.id busy)
  release-IsPool h v = record {
    counted =
        omega (arith, v.counted, length-append free (c ∷ []), length-remove_context c.id busy h);
    capped = v.capped;
    once = λ i.
        ground (arith, v.once i, count-append i free (c ∷ []), count-remove_context i c.id busy);
  }
