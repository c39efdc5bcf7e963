-- ===== src/Vmod/Weights/Printing.antt =====
-- The rules that redis.weights() of src/vmod_redis.c reads back from a text.
use mathlib.Core.List.{append-nil, append_assoc}
use libvmod_redis.Base.{
  ℕ, zero, suc, ◌+◌, ◌≤◌, ◌<◌, ◌^◌, ◌≡◌, refl, sym, ap, ◌∙◌, false, ◌||◌, not, Option, some, List,
  [], ◌∷◌, ◌++◌, leb, ◌==◌, length, length-append, map, All, Str, arith,
}
use libvmod_redis.Core.Types.{nredis_server_weights}
use libvmod_redis.Core.Registry.{WeightRule}
use libvmod_redis.Vmod.Weights.{
  is_blank, drop_while, strtol, line, strip, bad, good, read_regexp, read_rule, parsed, failed,
  parse_rules, rules_of, unsafe_set_weight_rules,
}

-- A rule as it is written: a weight, the first byte of a regular expression, the bytes after it, and
-- what it compiles to.
pub record Entry : Type 0 where
  pub weight : ℕ
  pub first : ℕ
  pub more : Str
  pub vre : ℕ

abbrev pub regexp : Entry → Str
regexp e = e.first ∷ e.more

-- The regular expression is in one line, begins and ends with a byte that is no blank, and compiles.
pub record IsEntry (compile : Str → Option ℕ) (e : Entry) : Type 0 where
  pub in_range : e.weight < nredis_server_weights
  pub no_blank : is_blank e.first ≡ false
  pub one_line : All (λ c. (c == 10) ≡ false) (regexp e)
  pub stripped : strip (regexp e) ≡ regexp e
  pub compiles : compile (regexp e) ≡ some e.vre

-- One rule in each line.
unfoldable pub print_rules : List Entry → Str
print_rules [] = []
print_rules (e ∷ es) = (48 + e.weight) ∷ 32 ∷ (regexp e ++ (10 ∷ print_rules es))

abbrev pub rule : Entry → WeightRule
rule e = record { weight = e.weight; vre = e.vre }

line-append : (s rest : Str) → All (λ c. (c == 10) ≡ false) s → line (s ++ (10 ∷ rest)) ≡ s
unfolding line
line-append [] rest v = refl
line-append (c ∷ cs) rest (u, v) = rw (u, line-append cs rest v) refl

drop_while-line :
    (s rest : Str)
    → All (λ c. (c == 10) ≡ false) s
    → drop_while (λ c. not (c == 10)) (s ++ (10 ∷ rest)) ≡ 10 ∷ rest
unfolding drop_while
drop_while-line [] rest v = refl
drop_while-line (c ∷ cs) rest (u, v) = rw (u, drop_while-line cs rest v) refl

module _ (compile : Str → Option ℕ) where
  read_regexp-entry :
      (e : Entry) (weight : ℕ) (rest : Str)
      → IsEntry compile e
      → read_regexp compile weight (32 ∷ (regexp e ++ (10 ∷ rest)))
        ≡ good
            (record { weight = weight; vre = e.vre })
            (drop_while (λ c. is_blank c || c == 10) rest)
  unfolding read_regexp drop_while
  read_regexp-entry e weight rest v =
      rw
        (
          v.no_blank,
          line-append (regexp e) rest v.one_line,
          v.stripped,
          drop_while-line (regexp e) rest v.one_line,
          v.compiles,
        )
        refl

  strtol-entry :
      (weight : ℕ) (rest : Str)
      → weight < nredis_server_weights
      → strtol ((48 + weight) ∷ 32 ∷ rest) ≡ some (weight, 32 ∷ rest)
  unfolding strtol
  strtol-entry zero rest h = refl
  strtol-entry (suc zero) rest h = refl
  strtol-entry (suc (suc zero)) rest h = refl
  strtol-entry (suc (suc (suc zero))) rest h = refl
  strtol-entry (suc (suc (suc (suc n)))) rest h = absurd (omega arith)

  -- A line begins with a digit.
  drop_while-print_rules :
      (es : List Entry)
      → All (IsEntry compile) es
      → drop_while (λ c. is_blank c || c == 10) (print_rules es) ≡ print_rules es
  unfolding print_rules drop_while
  drop_while-print_rules [] v = refl
  drop_while-print_rules (e ∷ es) (v, vs) =
      let digit : (is_blank (48 + e.weight) || (48 + e.weight) == 10) ≡ false = ground arith in
      rw digit refl

  read_rule-entry :
      (e : Entry) (es : List Entry)
      → IsEntry compile e
      → All (IsEntry compile) es
      → read_rule compile (print_rules (e ∷ es)) ≡ good (rule e) (print_rules es)
  unfolding read_rule print_rules
  read_rule-entry e es v vs =
      let small : (leb (2 ^ 31) e.weight || leb nredis_server_weights e.weight) ≡ false =
        ground (arith, v.in_range) in
      rw (strtol-entry e.weight (regexp e ++ (10 ∷ print_rules es)) v.in_range, small)
        (read_regexp-entry e e.weight (print_rules es) v
          ∙ ap (good (rule e)) (drop_while-print_rules es vs))

  parse_rules-print_rules :
      (fuel : ℕ) (es : List Entry) (rules : List WeightRule)
      → length es ≤ fuel
      → All (IsEntry compile) es
      → parse_rules fuel compile (print_rules es) rules ≡ parsed (rules ++ map rule es)
  unfolding parse_rules print_rules
  parse_rules-print_rules fuel [] rules h v = ap parsed (sym (append-nil rules))
  parse_rules-print_rules zero (e ∷ es) rules h v = absurd (omega arith)
  parse_rules-print_rules (suc fuel) (e ∷ es) rules h (v, vs) =
      ap
        (λ item. elim item [
          | bad code ↦ failed code
          | good rule rest ↦ parse_rules fuel compile rest (rules ++ (rule ∷ []))
        ])
        (read_rule-entry e es v vs)
      ∙ parse_rules-print_rules fuel es (rules ++ (rule e ∷ [])) (omega (arith, h)) vs
      ∙ ap parsed (append_assoc rules (rule e ∷ []) (map rule es))

  length-print_rules : (es : List Entry) → length es ≤ length (print_rules es)
  unfolding print_rules
  length-print_rules [] = omega arith
  length-print_rules (e ∷ es) =
      omega (arith, length-print_rules es, length-append (regexp e) (10 ∷ print_rules es))

  -- Rules that are written in lines are read back, in their order, with what their regular expressions
  -- compile to.
  pub unsafe_set_weight_rules-print_rules :
      (es : List Entry)
      → All (IsEntry compile) es
      → unsafe_set_weight_rules compile (print_rules es) [] ≡ map rule es
  unfolding unsafe_set_weight_rules
  unsafe_set_weight_rules-print_rules es v =
      ap rules_of
        (parse_rules-print_rules (length (print_rules es)) es [] (length-print_rules es) v)
