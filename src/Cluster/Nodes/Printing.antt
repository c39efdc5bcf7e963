-- ===== src/Cluster/Nodes/Printing.antt =====
-- The location that unsafe_add_node() of src/cluster.c prints is the one that new_redis_server() of
-- src/core.c reads.
use libvmod_redis.Base.{
  ℕ, zero, suc, ◌+◌, ◌-◌, ◌*◌, ◌/◌, ◌%◌, ◌^◌, ◌≤◌, ◌<◌, ◌≡◌, refl, ap, ◌∙◌, false, ◌&&◌, ◌||◌, none,
  some, [], ◌∷◌, ◌++◌, ltb, leb, ◌==◌, All, All-append, arith, Bool-cases, inl, inr, Str,
}
use libvmod_redis.Core.Types.{host}
use libvmod_redis.Core.Registry.{strrchr, digits, atoi, parse_location}
use libvmod_redis.Cluster.Nodes.{Node, decimal, node_location}

-- A digit.
abbrev pub IsDigit : ℕ → Type 0
IsDigit c = (48 ≤ c) × (c ≤ 57)

pub decimal-IsDigit : (fuel n : ℕ) → All IsDigit (decimal fuel n)
unfolding decimal
decimal-IsDigit zero n = tt
decimal-IsDigit (suc fuel) n = elim (Bool-cases (ltb n 10)) [
  | inl h ↦ rw h ((omega arith, ground arith), tt)
  | inr h ↦ rw h (
      All-append IsDigit (decimal fuel (n / 10)) ((48 + n % 10) ∷ [])
        (decimal-IsDigit fuel (n / 10)) ((omega arith, omega arith), tt))
]

-- Reading on from the value of the digits so far.
digits-append :
    (m c : ℕ) (s : Str)
    → All IsDigit s
    → IsDigit c
    → digits m (s ++ (c ∷ [])) ≡ 10 * digits m s + (c - 48)
unfolding digits
digits-append m c [] h d = ground arith
digits-append m c (x ∷ s) h d =
    let more = digits-append (10 * m + (x - 48)) c s h.1 d in
    let low = h.0.0 in let high = h.0.1 in ground arith

pub digits-decimal : (fuel n : ℕ) → n < 10 ^ fuel → digits 0 (decimal fuel n) ≡ n
unfolding decimal digits
digits-decimal zero n h = ground arith
digits-decimal (suc fuel) n h = elim (Bool-cases (ltb n 10)) [
  | inl k ↦ rw k (ground arith)
  | inr k ↦
      let short : n / 10 < 10 ^ fuel = omega arith in
      let more = digits-decimal fuel (n / 10) short in
      rw k (
        digits-append 0 (48 + n % 10) (decimal fuel (n / 10)) (decimal-IsDigit fuel (n / 10))
          (omega arith, omega arith)
        ∙ omega (arith, more))
]

pub atoi-IsDigit : (s : Str) → All IsDigit s → atoi s ≡ digits 0 s % 2 ^ 32
unfolding atoi digits
atoi-IsDigit [] h = ground arith
atoi-IsDigit (c ∷ s) h =
    let low = h.0.0 in
    let high = h.0.1 in
    let spaced : (c == 32 || (leb 9 c && leb c 13)) ≡ false = ground arith in
    let minus : (c == 45) ≡ false = ground arith in
    let plus : (c == 43) ≡ false = ground arith in rw (spaced, minus, plus) refl

strrchr-none : (s : Str) → All IsDigit s → strrchr 58 s ≡ none
unfolding strrchr
strrchr-none [] h = refl
strrchr-none (c ∷ s) h =
    let low = h.0.0 in
    let high = h.0.1 in
    let other : (c == 58) ≡ false = ground arith in rw (strrchr-none s h.1, other) refl

strrchr-last : (a s : Str) → All IsDigit s → strrchr 58 (a ++ 58 ∷ s) ≡ some (a, s)
unfolding strrchr
strrchr-last [] s h = rw (strrchr-none s h) refl
strrchr-last (c ∷ a) s h = rw (strrchr-last a s h) refl

-- In the location that unsafe_add_node() prints for a node with a port up to 65535,
-- new_redis_server() reads the endpoint and the port of the node, whatever bytes the endpoint has
-- (colons too, as in IPv6 addresses).
pub parse_location-node_location :
    (node : Node)
    → node.port ≤ 65535
    → let location = node_location node in
      parse_location location (strrchr 58 location) ≡ host node.endpoint node.port
unfolding node_location parse_location
parse_location-node_location node h =
    let port = decimal 10 node.port in
    let ds = decimal-IsDigit 10 node.port in
    let value : atoi port ≡ node.port =
      atoi-IsDigit port ds
      ∙ ap (λ n. n % 2 ^ 32) (digits-decimal 10 node.port (omega arith))
      ∙ omega arith in
    rw (strrchr-last node.endpoint port ds) (ap (host node.endpoint) value)
