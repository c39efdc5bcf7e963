-- ===== src/Sentinel/Locations/Printing.antt =====
-- The locations that unsafe_set_locations() of src/sentinel.c reads back from a text.
use mathlib.Core.List.{reverse, reverse-reverse, append-nil, append_assoc}
use mathlib.Core.Path.{subst}
use libvmod_redis.Base.{
  ℕ, zero, suc, ◌^◌, ◌≤◌, ◌≡◌, refl, sym, ap, ◌∙◌, Bool, true, false, ◌&&◌, ◌||◌, not, none, some,
  List, [], ◌∷◌, ◌++◌, leb, ltb, ◌==◌, length, length-append, drop, All, All-append, All-map, Str,
  arith,
}
use libvmod_redis.Core.Registry.{digits}
use libvmod_redis.Cluster.Nodes.{decimal}
use libvmod_redis.Cluster.Nodes.Printing.{IsDigit, decimal-IsDigit, digits-decimal}
use libvmod_redis.Vmod.Weights.{is_space, is_digit, is_empty, drop_while}
use libvmod_redis.Sentinel.Inventory.{Sentinel}
use libvmod_redis.Sentinel.Locations.Reading.{
  drop_while-passes, item_of-append, drop-past, length-reverse, All-reverse, digit-is_digit,
  digit-no_comma, drop_while-reversed, reverse-location, stops, strtol-append, port_text,
}
use libvmod_redis.Sentinel.Locations.{
  item_of, bad, good, ends, check_port, port_at, read_host, read_location, complete, rejected,
  parse_locations, sentinels_of, unsafe_set_locations,
}

-- HOST:PORT.
unfoldable pub print_location : Sentinel → Str
print_location s = s.host ++ (58 ∷ decimal 10 s.port)

unfoldable pub print_more : List Sentinel → Str
unfolding print_location
print_more [] = []
print_more (s ∷ ss) = 44 ∷ (print_location s ++ print_more ss)

-- Locations with commas between them.
unfoldable pub print_locations : List Sentinel → Str
unfolding print_more
print_locations [] = []
print_locations (s ∷ ss) = print_location s ++ print_more ss

abbrev begins_blank : Str → Bool
begins_blank [] = true
begins_blank (c ∷ cs) = is_space c

-- A host that begins with no space, has no comma, and may have colons; no connection yet.
pub record IsPrintable (s : Sentinel) : Type 0 where
  pub host : begins_blank s.host ≡ false
  pub no_comma : All (λ c. (c == 44) ≡ false) s.host
  pub port : s.port ≤ 65536
  pub context : s.context ≡ none

stops-print_more : (ss : List Sentinel) → stops (print_more ss) ≡ true
unfolding print_more
stops-print_more [] = refl
stops-print_more (s ∷ ss) = refl

ends-print_more : (ss : List Sentinel) → ends (print_more ss) ≡ true
unfolding print_more
ends-print_more [] = refl
ends-print_more (s ∷ ss) = refl

-- A host is not skipped.
abbrev skipped : ℕ → Bool
skipped c = is_space c || c == 44

drop_while-host :
    (test : ℕ → Bool) (host t : Str)
    → begins_blank host ≡ false
    → All (λ c. (c == 44) ≡ false) host
    → ((c : ℕ) → is_space c ≡ false → (c == 44) ≡ false → test c ≡ false)
    → drop_while test (host ++ t) ≡ host ++ t
unfolding drop_while
drop_while-host test [] t e v f = absurd (ground (arith, e))
drop_while-host test (c ∷ cs) t e (u, v) f = rw (f c e u) refl

drop_while-print_more :
    (ss : List Sentinel)
    → All IsPrintable ss
    → drop_while skipped (print_more ss) ≡ print_locations ss
unfolding drop_while print_more print_locations print_location
drop_while-print_more [] v = refl
drop_while-print_more (s ∷ ss) (u, v) =
    let port = 58 ∷ decimal 10 s.port in
    ap (drop_while skipped) (append_assoc s.host port (print_more ss))
    ∙ drop_while-host skipped s.host (port ++ print_more ss) u.host u.no_comma
        (λ c h k. ground (arith, h, k))
    ∙ sym (append_assoc s.host port (print_more ss))

has_host : (host : Str) → begins_blank host ≡ false → is_empty host ≡ false
has_host [] e = absurd (ground (arith, e))
has_host (c ∷ cs) e = refl

check_port-location :
    (s : Sentinel) (ss : List Sentinel)
    → IsPrintable s
    → All IsPrintable ss
    → check_port s.host (some (s.port, print_more ss)) (print_more ss) ≡ good s (print_locations ss)
check_port-location s ss v vs =
    let ok : (ends (print_more ss) && ltb s.port (2 ^ 31) && leb s.port 65536) ≡ true =
      ground (arith, v.port, ends-print_more ss) in
    let new : Sentinel = record { host = s.host; port = s.port; context = none } in
    let same : new ≡ s =
      ap (λ o. record { host = s.host; port = s.port; context = o }) (sym v.context) in
    let rest = drop_while-print_more ss vs in
    rw (ok, has_host s.host v.host)
      (ap (good new) rest ∙ ap (λ x. good x (print_locations ss)) same)

port_at-location :
    (s : Sentinel) (c : ℕ) (ds : Str) (ss : List Sentinel)
    → IsPrintable s
    → All IsPrintable ss
    → decimal 10 s.port ≡ c ∷ ds
    → port_at s.host ((c ∷ ds) ++ print_more ss) (print_more ss) ≡ good s (print_locations ss)
unfolding port_at
port_at-location s c ds ss v vs e =
    let ok : All IsDigit (c ∷ ds) = subst (All IsDigit) e (decimal-IsDigit 10 s.port) in
    let port = v.port in
    let value : digits 0 (c ∷ ds) ≡ s.port =
      ap (digits 0) (sym e) ∙ digits-decimal 10 s.port (omega arith) in
    let read = strtol-append c ds (print_more ss) ok (stops-print_more ss) (omega arith) in
    rw (digit-is_digit c ok.0) (
      ap (λ o. check_port s.host o (print_more ss)) (read ∙ ap (λ n. some (n, print_more ss)) value)
      ∙ check_port-location s ss v vs)

-- The text of a location is one item.
item_of-print_more : (ss : List Sentinel) → item_of (print_more ss) ≡ []
unfolding item_of print_more
item_of-print_more [] = refl
item_of-print_more (s ∷ ss) = refl

drop_while-comma :
    (ss : List Sentinel) → drop_while (λ c. not (c == 44)) (print_more ss) ≡ print_more ss
unfolding drop_while print_more
drop_while-comma [] = refl
drop_while-comma (s ∷ ss) = refl

place_not_empty : (s t : Str) (c : ℕ) → is_empty (s ++ (c ∷ t)) ≡ false
place_not_empty [] t c = refl
place_not_empty (x ∷ s) t c = refl

module _ (s : Sentinel) (ss : List Sentinel) (v : IsPrintable s) (vs : All IsPrintable ss) where
  abbrev place : Str
  place = s.host ++ (58 ∷ decimal 10 s.port)

  abbrev text : Str
  text = place ++ print_more ss

  no_comma : All (λ c. (c == 44) ≡ false) place
  no_comma =
      All-append (λ c. (c == 44) ≡ false) s.host (58 ∷ decimal 10 s.port) v.no_comma
        (refl, All-map IsDigit _ (decimal 10 s.port) digit-no_comma (decimal-IsDigit 10 s.port))

  item_of-text : item_of text ≡ place
  item_of-text =
      item_of-append place (print_more ss) no_comma
      ∙ ap (λ t. place ++ t) (item_of-print_more ss)
      ∙ append-nil place

  rest-text : drop_while (λ c. not (c == 44)) text ≡ print_more ss
  rest-text =
      drop_while-passes (λ c. not (c == 44)) place (print_more ss)
        (All-map (λ c. (c == 44) ≡ false) _ place (λ c h. ground (arith, h)) no_comma)
      ∙ drop_while-comma ss

  start-text : drop_while is_space text ≡ text
  start-text =
      let port = 58 ∷ decimal 10 s.port in
      ap (drop_while is_space) (append_assoc s.host port (print_more ss))
      ∙ drop_while-host is_space s.host (port ++ print_more ss) v.host v.no_comma (λ c h k. h)
      ∙ sym (append_assoc s.host port (print_more ss))

  end-place : drop_while is_digit (drop_while is_space (reverse place)) ≡ 58 ∷ reverse s.host
  end-place =
      ap (λ t. drop_while is_digit (drop_while is_space t))
        (reverse-location s.host (decimal 10 s.port))
      ∙ drop_while-reversed (reverse (decimal 10 s.port)) (reverse s.host)
          (All-reverse IsDigit (decimal 10 s.port) (decimal-IsDigit 10 s.port))

  port-text : drop (suc (length (reverse s.host))) text ≡ decimal 10 s.port ++ print_more ss
  port-text =
      ap (λ n. drop (suc n) text) (length-reverse s.host)
      ∙ ap (drop (suc (length s.host)))
          (append_assoc s.host (58 ∷ decimal 10 s.port) (print_more ss))
      ∙ drop-past s.host (decimal 10 s.port ++ print_more ss) 58

  port_at-text :
      (ds : Str)
      → decimal 10 s.port ≡ ds
      → port_at s.host (ds ++ print_more ss) (print_more ss) ≡ good s (print_locations ss)
  port_at-text [] e = absurd (port_text s.port (ap length e))
  port_at-text (c ∷ ds) e = port_at-location s c ds ss v vs e

  read_host-text :
      read_host (58 ∷ reverse s.host) text (print_more ss) ≡ good s (print_locations ss)
  unfolding read_host
  read_host-text =
      ap (λ h. port_at h (drop (suc (length (reverse s.host))) text) (print_more ss))
        (reverse-reverse s.host)
      ∙ ap (λ r. port_at s.host r (print_more ss)) port-text
      ∙ port_at-text (decimal 10 s.port) refl

  read_location-text : read_location text ≡ good s (print_locations ss)
  unfolding read_location
  read_location-text =
      rw
        (
          start-text,
          item_of-text,
          rest-text,
          place_not_empty s.host (decimal 10 s.port) 58,
          end-place,
        )
        read_host-text

-- One round.
parse_locations-good :
    (fuel : ℕ) (text : Str) (s : Sentinel) (rest : Str) (before : List Sentinel)
    → is_empty text ≡ false
    → read_location text ≡ good s rest
    → parse_locations (suc fuel) text before ≡ parse_locations fuel rest (before ++ (s ∷ []))
unfolding parse_locations
parse_locations-good fuel [] s rest before n e = absurd (ground (arith, n))
parse_locations-good fuel (c ∷ cs) s rest before n e =
    ap
      (λ place. elim place [
        | bad code ↦ rejected code
        | good sentinel rest ↦ parse_locations fuel rest (before ++ (sentinel ∷ []))
      ])
      e

place_not_empty-append : (s t : Str) → is_empty s ≡ false → is_empty (s ++ t) ≡ false
place_not_empty-append [] t e = absurd (ground (arith, e))
place_not_empty-append (c ∷ cs) t e = refl

parse_locations-print_locations :
    (fuel : ℕ) (ss : List Sentinel) (before : List Sentinel)
    → length ss ≤ fuel
    → All IsPrintable ss
    → parse_locations fuel (print_locations ss) before ≡ complete (before ++ ss)
unfolding parse_locations print_locations print_location
parse_locations-print_locations fuel [] before h v = ap complete (sym (append-nil before))
parse_locations-print_locations zero (s ∷ ss) before h v = absurd (omega arith)
parse_locations-print_locations (suc fuel) (s ∷ ss) before h (v, vs) =
    parse_locations-good fuel (print_locations (s ∷ ss)) s (print_locations ss) before
      (place_not_empty-append (print_location s) (print_more ss)
        (place_not_empty s.host (decimal 10 s.port) 58))
      (read_location-text s ss v vs)
    ∙ parse_locations-print_locations fuel ss (before ++ (s ∷ [])) (omega (arith, h)) vs
    ∙ ap complete (append_assoc before (s ∷ []) ss)

length-print_more : (ss : List Sentinel) → length ss ≤ length (print_more ss)
unfolding print_more
length-print_more [] = omega arith
length-print_more (s ∷ ss) =
    omega (arith, length-print_more ss, length-append (print_location s) (print_more ss))

length-print_locations : (ss : List Sentinel) → length ss ≤ length (print_locations ss)
unfolding print_locations print_location
length-print_locations [] = omega arith
length-print_locations (s ∷ ss) = omega (
  arith,
  length-print_more ss,
  length-append (print_location s) (print_more ss),
  length-append s.host (58 ∷ decimal 10 s.port),
)

-- Locations that are written as HOST:PORT, with commas between them, are read back in their order. A
-- host has no comma and begins with no space, and a port is at most 65536.
pub unsafe_set_locations-print_locations :
    (ss : List Sentinel) → All IsPrintable ss → unsafe_set_locations (print_locations ss) ≡ ss
unfolding unsafe_set_locations
unsafe_set_locations-print_locations ss v = ap sentinels_of (
    parse_locations-print_locations (length (print_locations ss)) ss [] (length-print_locations ss)
      v)
