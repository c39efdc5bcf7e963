-- ===== src/Vmod/Weights.antt =====
-- redis.weights() of src/vmod_redis.c. Whether a regular expression compiles, and to what, is an
-- argument, and so is the environment.
pub mod Bounds
pub mod Printing
use libvmod_redis.Base.{
  ℕ, zero, suc, ◌+◌, ◌-◌, ◌*◌, ◌%◌, ◌^◌, Bool, true, false, ◌&&◌, ◌||◌, not, Option, none, some,
  List, [], ◌∷◌, ◌++◌, ltb, leb, ◌==◌, length, if◌then◌else◌, Str,
}
use libvmod_redis.Core.Types.{nredis_server_weights}
use libvmod_redis.Core.Registry.{WeightRule}

abbrev pub is_space : ℕ → Bool
is_space c = c == 32 || (leb 9 c && leb c 13)

abbrev pub is_blank : ℕ → Bool
is_blank c = c == 32 || c == 9

abbrev pub is_digit : ℕ → Bool
is_digit c = leb 48 c && leb c 57

unfoldable pub drop_while : (ℕ → Bool) → Str → Str
drop_while test [] = []
drop_while test (c ∷ cs) = let rest = drop_while test cs in if test c then rest else c ∷ cs

-- The digits that a text begins with, and what follows.
unfoldable pub read_digits : ℕ → Str → ℕ × Str
read_digits n [] = (n, [])
read_digits n (c ∷ cs) =
    let more = read_digits (10 * n + (c - 48)) cs in if is_digit c then more else (n, c ∷ cs)

unfoldable pub read_number : Str → Option (ℕ × Str)
unfolding read_digits
read_number [] = none
read_number (c ∷ cs) = if is_digit c then some (read_digits 0 (c ∷ cs)) else none

-- A long is cut to an int, which stands as the number of its 32 bits.
abbrev pub to_int : Bool → Option (ℕ × Str) → Option (ℕ × Str)
to_int negative none = none
to_int false (some (n, rest)) = some ((if ltb n (2 ^ 63) then n else 2 ^ 63 - 1) % 2 ^ 32, rest)
to_int true (some (n, rest)) =
    some ((2 ^ 64 - (if ltb n (2 ^ 63) then n else 2 ^ 63)) % 2 ^ 32, rest)

unfoldable pub read_signed : Str → Option (ℕ × Str)
unfolding read_number
read_signed [] = none
read_signed (c ∷ cs) =
    if c == 45
    then to_int true (read_number cs)
    else if c == 43
    then to_int false (read_number cs)
    else to_int false (read_number (c ∷ cs))

-- strtol() in base 10; `none` if there is no number.
unfoldable pub strtol : Str → Option (ℕ × Str)
unfolding read_signed drop_while
strtol s = read_signed (drop_while is_space s)

-- A line, and what follows from its end on.
unfoldable pub line : Str → Str
line [] = []
line (c ∷ cs) = let rest = line cs in if c == 10 then [] else c ∷ rest

abbrev pub is_empty : Str → Bool
is_empty [] = true
is_empty (c ∷ cs) = false

-- Without the blanks and carriage returns at the end.
unfoldable pub strip : Str → Str
strip [] = []
strip (c ∷ cs) =
    let rest = strip cs in if is_empty rest && (is_blank c || c == 13) then [] else c ∷ rest

pub data Item : Type 0 where
  bad : ℕ → Item
  good : WeightRule → Str → Item

abbrev pub compiled : ℕ → Option ℕ → Str → Item
compiled weight none rest = bad 30
compiled weight (some vre) rest = good (record { weight = weight; vre = vre }) rest

-- One rule, after its weight.
unfoldable pub read_regexp : (Str → Option ℕ) → ℕ → Str → Item
unfolding drop_while line strip
read_regexp compile weight q =
    let p = drop_while is_blank q in
    let regexp = strip (line p) in
    let rest = drop_while (λ c. is_blank c || c == 10) (drop_while (λ c. not (c == 10)) p) in
    if is_empty regexp then bad 20 else compiled weight (compile regexp) rest

abbrev pub weighed : (Str → Option ℕ) → Option (ℕ × Str) → Item
weighed compile none = bad 10
weighed compile (some (weight, q)) =
    if leb (2 ^ 31) weight || leb nredis_server_weights weight
    then bad 10
    else read_regexp compile weight q

unfoldable pub read_rule : (Str → Option ℕ) → Str → Item
unfolding strtol
read_rule compile p = weighed compile (strtol p)

pub data Parsed : Type 0 where
  parsed : List WeightRule → Parsed
  failed : ℕ → Parsed
  unfinished : Parsed

unfoldable pub parse_rules : ℕ → (Str → Option ℕ) → Str → List WeightRule → Parsed
unfolding read_rule
parse_rules fuel compile [] rules = parsed rules
parse_rules zero compile (c ∷ cs) rules = unfinished
parse_rules (suc fuel) compile (c ∷ cs) rules = elim (read_rule compile (c ∷ cs)) [
  | bad code ↦ failed code
  | good rule rest ↦ parse_rules fuel compile rest (rules ++ (rule ∷ []))
]

abbrev pub rules_of : Parsed → List WeightRule
rules_of (parsed rules) = rules
rules_of (failed code) = []
rules_of unfinished = []

-- Each rule takes a byte at least.
unfoldable pub unsafe_set_weight_rules : (Str → Option ℕ) → Str → List WeightRule → List WeightRule
unfolding parse_rules
unsafe_set_weight_rules compile text rules = rules_of (parse_rules (length text) compile text rules)

abbrev pub or_environment : Option Str → Option Str → Option Str
or_environment none environment = environment
or_environment (some []) environment = environment
or_environment (some (c ∷ cs)) environment = some (c ∷ cs)

abbrev pub set_from : (Str → Option ℕ) → Option Str → List WeightRule → List WeightRule
set_from compile none rules = rules
set_from compile (some []) rules = rules
set_from compile (some (c ∷ cs)) rules = unsafe_set_weight_rules compile (c ∷ cs) rules

abbrev pub has_none {ℓ} : {A : Type ℓ} → List A → Bool
has_none [] = true
has_none (x ∷ xs) = false

-- The number of databases, the environment, the argument, and the rules.
unfoldable pub vmod_weights :
    (Str → Option ℕ) → ℕ → Option Str → Option Str → List WeightRule → List WeightRule
unfolding unsafe_set_weight_rules
vmod_weights compile databases environment text rules =
    if databases == 0 && has_none rules
    then set_from compile (or_environment text environment) rules
    else rules
