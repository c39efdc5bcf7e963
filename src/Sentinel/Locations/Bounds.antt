-- ===== src/Sentinel/Locations/Bounds.antt =====
-- unsafe_set_locations() of src/sentinel.c ends, with locations in range.
use mathlib.Core.List.{reverse}
use libvmod_redis.Base.{
  ℕ, zero, suc, ◌^◌, ◌≤◌, ◌<◌, ◌≡◌, ◌≢◌, false, ◌&&◌, ◌||◌, not, Option, none, some, List, [], ◌∷◌,
  ◌++◌, leb, ltb, ◌==◌, length, drop, All, All-append, Str, arith, Bool-cases, inl, inr,
}
use libvmod_redis.Vmod.Weights.{is_space, is_digit, is_empty, drop_while, strtol}
use libvmod_redis.Vmod.Weights.Bounds.{length-drop_while}
use libvmod_redis.Sentinel.Inventory.{Sentinel}
use libvmod_redis.Sentinel.Locations.{
  item_of, Place, bad, good, ends, begins_number, check_port, port_at, read_host, read_location,
  Located, complete, rejected, unfinished, parse_locations, sentinels_of, unsafe_set_locations,
}

-- A location with a host, and with a port up to 65536.
abbrev pub IsLocation : Sentinel → Type 0
IsLocation s = (s.host ≢ []) × (s.port ≤ 65536)

-- A location, with less text left.
abbrev IsPlace : Str → Place → Type 0
IsPlace text (bad code) = Unit {0}
IsPlace text (good s rest) = IsLocation s × (length rest < length text)

module _ (text : Str) where
  check_port-IsPlace :
      (host : Str) (o : Option (ℕ × Str)) (q : Str)
      → length q < length text
      → IsPlace text (check_port host o q)
  check_port-IsPlace host none q h = tt
  check_port-IsPlace [] (some (port, s)) q h =
      elim (Bool-cases (ends s && ltb port (2 ^ 31) && leb port 65536)) [
        | inl k ↦ rw k tt
        | inr k ↦ rw k tt
      ]
  check_port-IsPlace (c ∷ cs) (some (port, s)) q h =
      elim (Bool-cases (ends s && ltb port (2 ^ 31) && leb port 65536)) [
        | inl k ↦ rw k (
          (λ e. ground (arith, e), ground (arith, k)),
          omega (arith, h, length-drop_while (λ c. is_space c || c == 44) q),
        )
        | inr k ↦ rw k tt
      ]

  port_at-IsPlace : (host r q : Str) → length q < length text → IsPlace text (port_at host r q)
  unfolding port_at
  port_at-IsPlace host r q h = elim (Bool-cases (begins_number r)) [
    | inl k ↦ rw k (check_port-IsPlace host (strtol r) q h)
    | inr k ↦ rw k tt
  ]

  read_host-IsPlace :
      (before p q : Str) → length q < length text → IsPlace text (read_host before p q)
  unfolding read_host
  read_host-IsPlace [] p q h = tt
  read_host-IsPlace (c ∷ before) p q h = elim (Bool-cases (c == 58)) [
    | inl k ↦ rw k (port_at-IsPlace (reverse before) (drop (suc (length before)) p) q h)
    | inr k ↦ rw k tt
  ]

-- An item takes its bytes.
item_of-rest :
    (p : Str) → is_empty (item_of p) ≡ false → length (drop_while (λ c. not (c == 44)) p) < length p
unfolding item_of drop_while
item_of-rest [] e = absurd (ground (arith, e))
item_of-rest (c ∷ cs) e = elim (Bool-cases (c == 44)) [
  | inl k ↦ absurd (ground (arith, e, k))
  | inr k ↦ rw k (omega (arith, length-drop_while (λ c. not (c == 44)) cs))
]

read_location-IsPlace : (text : Str) → IsPlace text (read_location text)
unfolding read_location
read_location-IsPlace text =
    let p = drop_while is_space text in
    elim (Bool-cases (is_empty (item_of p))) [
      | inl k ↦ rw k tt
      | inr k ↦ rw k (
          read_host-IsPlace text (drop_while is_digit (drop_while is_space (reverse (item_of p)))) p
            _ (omega (arith, item_of-rest p k, length-drop_while is_space text)))
    ]

abbrev pub AreLocations : List Sentinel → Type 0
AreLocations ss = All IsLocation ss

abbrev IsLocated : Located → Type 0
IsLocated (complete ss) = AreLocations ss
IsLocated (rejected code) = Unit {0}
IsLocated unfinished = ⊥

parse_locations-IsLocated :
    (fuel : ℕ) (text : Str) (ss : List Sentinel)
    → length text ≤ fuel
    → AreLocations ss
    → IsLocated (parse_locations fuel text ss)
unfolding parse_locations
parse_locations-IsLocated fuel [] ss h v = v
parse_locations-IsLocated zero (c ∷ cs) ss h v = absurd (omega arith)
parse_locations-IsLocated (suc fuel) (c ∷ cs) ss h v =
    elim (read_location (c ∷ cs))
        as (λ place.
          IsPlace (c ∷ cs) place
          → IsLocated (elim place [
            | bad code ↦ rejected code
            | good sentinel rest ↦ parse_locations fuel rest (ss ++ (sentinel ∷ []))
          ])) [
            | bad code ↦ λ _. tt
            | good s rest ↦ λ r.
                parse_locations-IsLocated fuel rest (ss ++ (s ∷ [])) (omega (arith, r.1, h))
                  (All-append IsLocation ss (s ∷ []) v (r.0, tt))
          ]
      (read_location-IsPlace (c ∷ cs))

-- The parsing of any text of locations ends, within as many rounds as the text has bytes: in an error,
-- or with Sentinels that all have a host, and a port up to 65536.
pub parse_locations-finishes :
    (text : Str)
    → (parse_locations (length text) text [] ≢ unfinished)
      × AreLocations (unsafe_set_locations text)
unfolding unsafe_set_locations
parse_locations-finishes text =
    let end = parse_locations-IsLocated (length text) text [] (omega arith) tt in
    (
      finished (parse_locations (length text) text []) end,
      kept (parse_locations (length text) text []) end,
    )
  where
    finished : (l : Located) → IsLocated l → l ≢ unfinished
    finished (complete ss) v e = ground (arith, e)
    finished (rejected code) v e = ground (arith, e)
    finished unfinished v e = v

    kept : (l : Located) → IsLocated l → AreLocations (sentinels_of l)
    kept (complete ss) v = v
    kept (rejected code) v = tt
    kept unfinished v = tt
