-- ===== src/Cluster/Slot.antt =====
-- get_cluster_slot() of src/cluster.c: the hash slot of a key, with its hash tag.
use libvmod_redis.Base.{
  ℕ, zero, suc, ◌+◌, ◌-◌, ◌%◌, ◌<◌, ◌≡◌, refl, ◌≢◌, Bool, true, false, ◌||◌, List, [], ◌∷◌, ◌++◌,
  Str, arith, ◌==◌, if◌then◌else◌, length, take, drop, take-append, drop-append, length-append, All,
}
pub mod HashTag

-- NREDIS_CLUSTER_SLOTS.
abbrev pub nredis_cluster_slots : ℕ
nredis_cluster_slots = 16384

-- The two search loops: the index at which the loop over `rest` stops, `i` being that of its head.
pub search_byte : ℕ → Str → ℕ → ℕ
search_byte c [] i = i
search_byte c (b ∷ rest) i = if b == c then i else search_byte c rest (i + 1)

module _ (crc16 : Str → ℕ) where
  -- `& (NREDIS_CLUSTER_SLOTS - 1)`, a mask of the 14 lowest bits.
  pub slot_of : Str → ℕ
  slot_of buf = crc16 buf % nredis_cluster_slots

  pub get_cluster_slot : Str → ℕ
  unfolding search_byte slot_of
  get_cluster_slot key =
      let keylen = length key in
      let s = search_byte b'{' key 0 in
      let e = search_byte b'}' (drop (s + 1) key) (s + 1) in
      if s == keylen
      then slot_of key
      else if e == keylen || e == s + 1
      then slot_of key
      else slot_of (take (e - s - 1) (drop (s + 1) key))
