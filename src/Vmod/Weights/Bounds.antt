-- ===== src/Vmod/Weights/Bounds.antt =====
-- The rules of redis.weights() of src/vmod_redis.c: their parsing ends, and their weights are in range.
use libvmod_redis.Base.{
  ℕ, zero, suc, ◌+◌, ◌-◌, ◌*◌, ◌^◌, ◌≤◌, ◌<◌, ◌≢◌, Bool, true, false, ◌&&◌, ◌||◌, not, Option, none,
  some, List, [], ◌∷◌, ◌++◌, leb, ◌==◌, length, All, All-append, Str, arith, Bool-cases, inl, inr,
}
use libvmod_redis.Core.Types.{nredis_server_weights}
use libvmod_redis.Core.Registry.{WeightRule}
use libvmod_redis.Vmod.Weights.{
  is_space, is_blank, is_digit, drop_while, read_digits, read_number, to_int, read_signed, strtol,
  line, strip, is_empty, Item, bad, good, compiled, read_regexp, weighed, read_rule, Parsed, parsed,
  failed, unfinished, parse_rules, rules_of, unsafe_set_weight_rules, or_environment, set_from,
  has_none, vmod_weights,
}

pub length-drop_while : (test : ℕ → Bool) (s : Str) → length (drop_while test s) ≤ length s
unfolding drop_while
length-drop_while test [] = omega arith
length-drop_while test (c ∷ cs) = elim (Bool-cases (test c)) [
  | inl k ↦ rw k (omega (arith, length-drop_while test cs))
  | inr k ↦ rw k (omega arith)
]

length-read_digits : (n : ℕ) (s : Str) → length (read_digits n s).1 ≤ length s
unfolding read_digits
length-read_digits n [] = omega arith
length-read_digits n (c ∷ cs) = elim (Bool-cases (is_digit c)) [
  | inl k ↦ rw k (omega (arith, length-read_digits (10 * n + (c - 48)) cs))
  | inr k ↦ rw k (omega arith)
]

-- What is left after a number is shorter.
abbrev IsShorter : Str → Option (ℕ × Str) → Type 0
IsShorter s none = Unit {0}
IsShorter s (some (n, rest)) = length rest < length s

read_number-IsShorter : (s : Str) → IsShorter s (read_number s)
unfolding read_number
read_number-IsShorter [] = tt
read_number-IsShorter (c ∷ cs) = elim (Bool-cases (is_digit c)) [
  | inl k ↦ rw k (omega (arith, length-read_digits (0 + (c - 48)) cs))
  | inr k ↦ rw k tt
]

to_int-IsShorter :
    (negative : Bool) (s : Str) (o : Option (ℕ × Str))
    → IsShorter s o
    → IsShorter s (to_int negative o)
to_int-IsShorter negative s none h = tt
to_int-IsShorter false s (some (n, rest)) h = h
to_int-IsShorter true s (some (n, rest)) h = h

longer-IsShorter :
    (s s' : Str) (o : Option (ℕ × Str)) → length s' ≤ length s → IsShorter s' o → IsShorter s o
longer-IsShorter s s' none h k = tt
longer-IsShorter s s' (some (n, rest)) h k = omega (arith, h, k)

read_signed-IsShorter : (s : Str) → IsShorter s (read_signed s)
unfolding read_signed
read_signed-IsShorter [] = tt
read_signed-IsShorter (c ∷ cs) =
    let o = read_number cs in
    let short = read_number-IsShorter cs in
    elim (Bool-cases (c == 45)) [
      | inl k ↦ rw k (
          longer-IsShorter (c ∷ cs) cs (to_int true o) (omega arith)
            (to_int-IsShorter true cs o short))
      | inr k ↦ elim (Bool-cases (c == 43)) [
        | inl l ↦
            rw (k, l)
              (longer-IsShorter (c ∷ cs) cs (to_int false o) (omega arith)
                (to_int-IsShorter false cs o short))
        | inr l ↦
            rw (k, l)
              (to_int-IsShorter false (c ∷ cs) (read_number (c ∷ cs))
                (read_number-IsShorter (c ∷ cs)))
      ]
    ]

strtol-IsShorter : (s : Str) → IsShorter s (strtol s)
unfolding strtol
strtol-IsShorter s =
    longer-IsShorter s (drop_while is_space s) (read_signed (drop_while is_space s))
      (length-drop_while is_space s) (read_signed-IsShorter (drop_while is_space s))

-- A rule with a weight in range, and less text left.
abbrev IsRule : Str → Item → Type 0
IsRule s (bad code) = Unit {0}
IsRule s (good rule rest) = (rule.weight < nredis_server_weights) × (length rest < length s)

compiled-IsRule :
    (s : Str) (weight : ℕ) (o : Option ℕ) (rest : Str)
    → weight < nredis_server_weights
    → length rest < length s
    → IsRule s (compiled weight o rest)
compiled-IsRule s weight none rest w h = tt
compiled-IsRule s weight (some vre) rest w h = (w, h)

read_regexp-IsRule :
    (compile : Str → Option ℕ) (s : Str) (weight : ℕ) (q : Str)
    → weight < nredis_server_weights
    → length q < length s
    → IsRule s (read_regexp compile weight q)
unfolding read_regexp
read_regexp-IsRule compile s weight q w h =
    let p = drop_while is_blank q in
    let end = drop_while (λ c. not (c == 10)) p in
    elim (Bool-cases (is_empty (strip (line p)))) [
      | inl k ↦ rw k tt
      | inr k ↦ rw k (
          compiled-IsRule s weight (compile (strip (line p)))
            (drop_while (λ c. is_blank c || c == 10) end) w
            (omega (
              arith,
              h,
              length-drop_while is_blank q,
              length-drop_while (λ c. not (c == 10)) p,
              length-drop_while (λ c. is_blank c || c == 10) end,
            )))
    ]

weighed-IsRule :
    (compile : Str → Option ℕ) (s : Str) (o : Option (ℕ × Str))
    → IsShorter s o
    → IsRule s (weighed compile o)
weighed-IsRule compile s none h = tt
weighed-IsRule compile s (some (weight, q)) h =
    elim (Bool-cases (leb (2 ^ 31) weight || leb nredis_server_weights weight)) [
      | inl k ↦ rw k tt
      | inr k ↦ rw k (read_regexp-IsRule compile s weight q (ground (arith, k)) h)
    ]

read_rule-IsRule : (compile : Str → Option ℕ) (s : Str) → IsRule s (read_rule compile s)
unfolding read_rule
read_rule-IsRule compile s = weighed-IsRule compile s (strtol s) (strtol-IsShorter s)

abbrev pub AreInRange : List WeightRule → Type 0
AreInRange rules = All (λ r. r.weight < nredis_server_weights) rules

-- A parsing that has ended.
abbrev IsParsed : Parsed → Type 0
IsParsed (parsed rules) = AreInRange rules
IsParsed (failed code) = Unit {0}
IsParsed unfinished = ⊥

parse_rules-IsParsed :
    (fuel : ℕ) (compile : Str → Option ℕ) (s : Str) (rules : List WeightRule)
    → length s ≤ fuel
    → AreInRange rules
    → IsParsed (parse_rules fuel compile s rules)
unfolding parse_rules
parse_rules-IsParsed fuel compile [] rules h v = v
parse_rules-IsParsed zero compile (c ∷ cs) rules h v = absurd (omega arith)
parse_rules-IsParsed (suc fuel) compile (c ∷ cs) rules h v =
    elim (read_rule compile (c ∷ cs))
        as (λ item.
          IsRule (c ∷ cs) item
          → IsParsed (elim item [
            | bad code ↦ failed code
            | good rule rest ↦ parse_rules fuel compile rest (rules ++ (rule ∷ []))
          ])) [
            | bad code ↦ λ _. tt
            | good rule rest ↦ λ r.
                parse_rules-IsParsed fuel compile rest (rules ++ (rule ∷ []))
                  (omega (arith, r.1, h))
                  (All-append (λ x. x.weight < nredis_server_weights) rules (rule ∷ []) v (r.0, tt))
          ]
      (read_rule-IsRule compile (c ∷ cs))

-- The parsing of the weights ends within as many rules as the text has bytes, with rules or with an
-- error.
pub parse_rules-finishes :
    (compile : Str → Option ℕ) (s : Str) → parse_rules (length s) compile s [] ≢ unfinished
parse_rules-finishes compile s e =
    finished (parse_rules (length s) compile s [])
      (parse_rules-IsParsed (length s) compile s [] (omega arith) tt) e
  where
    finished : (p : Parsed) → IsParsed p → p ≢ unfinished
    finished (parsed rules) v e = ground (arith, e)
    finished (failed code) v e = ground (arith, e)
    finished unfinished v e = v

-- Whatever redis.weights() is given, by its argument or by the environment, the rules have weights in
-- range afterwards, so that each names a queue of servers.
pub vmod_weights-AreInRange :
    (compile : Str → Option ℕ) (databases : ℕ) (environment text : Option Str)
    (rules : List WeightRule)
    → AreInRange rules
    → AreInRange (vmod_weights compile databases environment text rules)
unfolding vmod_weights unsafe_set_weight_rules
vmod_weights-AreInRange compile databases environment text rules v =
    elim (Bool-cases (databases == 0 && has_none rules)) [
      | inl k ↦ rw k (from (or_environment text environment))
      | inr k ↦ rw k v
    ]
  where
    in_range : (p : Parsed) → IsParsed p → AreInRange (rules_of p)
    in_range (parsed rules) v = v
    in_range (failed code) v = tt
    in_range unfinished v = tt

    from : (o : Option Str) → AreInRange (set_from compile o rules)
    from none = v
    from (some []) = v
    from (some (c ∷ cs)) =
        in_range (parse_rules (length (c ∷ cs)) compile (c ∷ cs) rules)
          (parse_rules-IsParsed (length (c ∷ cs)) compile (c ∷ cs) rules (omega arith) v)
