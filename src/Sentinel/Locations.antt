-- ===== src/Sentinel/Locations.antt =====
-- unsafe_set_locations() of src/sentinel.c.
pub mod Bounds
pub mod Reading
pub mod Printing
use mathlib.Core.List.{reverse}
use libvmod_redis.Base.{
  ℕ, zero, suc, ◌^◌, Bool, true, false, ◌&&◌, ◌||◌, not, Option, none, some, List, [], ◌∷◌, ◌++◌,
  ltb, leb, ◌==◌, length, drop, if◌then◌else◌, Str,
}
use libvmod_redis.Vmod.Weights.{is_space, is_digit, is_empty, drop_while, strtol}
use libvmod_redis.Sentinel.Inventory.{Sentinel}

-- The bytes before the next comma.
unfoldable pub item_of : Str → Str
item_of [] = []
item_of (c ∷ cs) = let rest = item_of cs in if c == 44 then [] else c ∷ rest

pub data Place : Type 0 where
  bad : ℕ → Place
  good : Sentinel → Str → Place

-- The byte after a port: a comma, a space or the end.
abbrev pub ends : Str → Bool
ends [] = true
ends (c ∷ cs) = c == 44 || is_space c

abbrev pub begins_number : Str → Bool
begins_number [] = false
begins_number (c ∷ cs) = is_digit c

-- The port as the number of its 32 bits, and the text after it.
abbrev pub check_port : Str → Option (ℕ × Str) → Str → Place
check_port host none q = bad 40
check_port host (some (port, s)) q =
    if ends s && ltb port (2 ^ 31) && leb port 65536
    then if is_empty host
      then bad 50
      else good (record { host = host; port = port; context = none })
          (drop_while (λ c. is_space c || c == 44) q)
    else bad 40

unfoldable pub port_at : Str → Str → Str → Place
unfolding strtol
port_at host r q = if begins_number r then check_port host (strtol r) q else bad 30

-- What stands before the port, from its end, in the text `p`; 58 is ':'.
unfoldable pub read_host : Str → Str → Str → Place
unfolding port_at
read_host [] p q = bad 20
read_host (c ∷ before) p q =
    if c == 58 then port_at (reverse before) (drop (suc (length before)) p) q else bad 20

unfoldable pub read_location : Str → Place
unfolding item_of drop_while read_host
read_location text =
    let p = drop_while is_space text in
    let item = item_of p in
    let q = drop_while (λ c. not (c == 44)) p in
    if is_empty item
    then bad 10
    else read_host (drop_while is_digit (drop_while is_space (reverse item))) p q

pub data Located : Type 0 where
  complete : List Sentinel → Located
  rejected : ℕ → Located
  unfinished : Located

unfoldable pub parse_locations : ℕ → Str → List Sentinel → Located
unfolding read_location
parse_locations fuel [] sentinels = complete sentinels
parse_locations zero (c ∷ cs) sentinels = unfinished
parse_locations (suc fuel) (c ∷ cs) sentinels = elim (read_location (c ∷ cs)) [
  | bad code ↦ rejected code
  | good sentinel rest ↦ parse_locations fuel rest (sentinels ++ (sentinel ∷ []))
]

-- After an error no Sentinel is left.
abbrev pub sentinels_of : Located → List Sentinel
sentinels_of (complete sentinels) = sentinels
sentinels_of (rejected code) = []
sentinels_of unfinished = []

-- Each location takes a byte at least.
unfoldable pub unsafe_set_locations : Str → List Sentinel
unfolding parse_locations
unsafe_set_locations locations = sentinels_of (parse_locations (length locations) locations [])
