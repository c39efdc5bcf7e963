-- ===== src/Sentinel/Locations/Reading.antt =====
-- Lemmas on the parts of a location, for unsafe_set_locations() of src/sentinel.c.
use mathlib.Core.List.{reverse, reverse-append, append_assoc}
use mathlib.Core.Path.{subst}
use libvmod_redis.Base.{
  ℕ, suc, ◌+◌, ◌-◌, ◌*◌, ◌/◌, ◌%◌, ◌^◌, ◌<◌, ◌≡◌, ◌≢◌, refl, sym, ap, ◌∙◌, Bool, true, false, none,
  some, [], ◌∷◌, ◌++◌, ltb, ◌==◌, length, length-append, drop, All, All-append, All-map, Str, arith,
  Bool-cases, inl, inr, if◌then◌else◌,
}
use libvmod_redis.Core.Registry.{digits}
use libvmod_redis.Cluster.Nodes.{decimal}
use libvmod_redis.Cluster.Nodes.Printing.{IsDigit}
use libvmod_redis.Vmod.Weights.{
  is_space, is_digit, drop_while, read_digits, read_number, to_int, read_signed, strtol,
}
use libvmod_redis.Sentinel.Locations.{item_of}

pub drop_while-passes :
    (test : ℕ → Bool) (s t : Str)
    → All (λ c. test c ≡ true) s
    → drop_while test (s ++ t) ≡ drop_while test t
unfolding drop_while
drop_while-passes test [] t v = refl
drop_while-passes test (c ∷ s) t (u, v) = rw u (drop_while-passes test s t v)

pub item_of-append :
    (s t : Str) → All (λ c. (c == 44) ≡ false) s → item_of (s ++ t) ≡ s ++ item_of t
unfolding item_of
item_of-append [] t v = refl
item_of-append (c ∷ s) t (u, v) = rw u (ap (◌∷◌ c) (item_of-append s t v))

pub drop-past : (s t : Str) (c : ℕ) → drop (suc (length s)) (s ++ (c ∷ t)) ≡ t
drop-past [] t c = refl
drop-past (x ∷ s) t c = drop-past s t c

pub length-reverse : (s : Str) → length (reverse s) ≡ length s
length-reverse [] = refl
length-reverse (c ∷ s) =
    ap length (reverse-append (c ∷ []) s)
    ∙ length-append (reverse s) (c ∷ [])
    ∙ omega (arith, length-reverse s)

pub All-reverse : (P : ℕ → Type 0) (s : Str) → All P s → All P (reverse s)
All-reverse P [] v = tt
All-reverse P (c ∷ s) (u, v) =
    subst (All P) (sym (reverse-append (c ∷ []) s))
      (All-append P (reverse s) (c ∷ []) (All-reverse P s v) (u, tt))

pub digit-no_space : (c : ℕ) → IsDigit c → is_space c ≡ false
digit-no_space c (low, high) = ground arith

pub digit-is_digit : (c : ℕ) → IsDigit c → is_digit c ≡ true
digit-is_digit c (low, high) = ground arith

pub digit-no_comma : (c : ℕ) → IsDigit c → (c == 44) ≡ false
digit-no_comma c (low, high) = ground arith

-- From the end: the port, the colon and the host.
pub drop_while-reversed :
    (ds t : Str)
    → All IsDigit ds
    → drop_while is_digit (drop_while is_space (ds ++ (58 ∷ t))) ≡ 58 ∷ t
unfolding drop_while
drop_while-reversed [] t v = refl
drop_while-reversed (c ∷ ds) t (u, v) =
    rw (digit-no_space c u, digit-is_digit c u)
      (drop_while-passes is_digit ds (58 ∷ t) (All-map IsDigit _ ds digit-is_digit v))

pub reverse-location :
    (host ds : Str) → reverse (host ++ (58 ∷ ds)) ≡ reverse ds ++ (58 ∷ reverse host)
reverse-location host ds =
    reverse-append host (58 ∷ ds)
    ∙ ap (λ s. s ++ reverse host) (reverse-append (58 ∷ []) ds)
    ∙ append_assoc (reverse ds) (58 ∷ []) (reverse host)

-- What follows a port.
abbrev pub stops : Str → Bool
stops [] = true
stops (c ∷ cs) = c == 44

pub read_digits-append :
    (n : ℕ) (ds t : Str)
    → All IsDigit ds
    → stops t ≡ true
    → read_digits n (ds ++ t) ≡ (digits n ds, t)
unfolding read_digits digits
read_digits-append n [] [] v e = refl
read_digits-append n [] (c ∷ t) v e =
    let other : is_digit c ≡ false = ground (arith, e) in rw other refl
read_digits-append n (c ∷ ds) t (u, v) e =
    rw (digit-is_digit c u) (read_digits-append (10 * n + (c - 48)) ds t v e)

pub to_int-small : (n : ℕ) (t : Str) → n < 2 ^ 32 → to_int false (some (n, t)) ≡ some (n, t)
to_int-small n t h =
    let long : ltb n (2 ^ 63) ≡ true = ground (arith, h) in
    let int : n % 2 ^ 32 ≡ n = omega (arith, h) in rw long (ap (λ k. some (k, t)) int)

module _ (c : ℕ) (ds t : Str) (v : All IsDigit (c ∷ ds)) (e : stops t ≡ true) where
  pub read_number-append : read_number ((c ∷ ds) ++ t) ≡ some (digits 0 (c ∷ ds), t)
  unfolding read_number
  read_number-append =
      ap (λ b. if b then some (read_digits 0 ((c ∷ ds) ++ t)) else none) (digit-is_digit c v.0)
      ∙ ap some (read_digits-append 0 (c ∷ ds) t v e)

  pub strtol-append :
      digits 0 (c ∷ ds) < 2 ^ 32 → strtol ((c ∷ ds) ++ t) ≡ some (digits 0 (c ∷ ds), t)
  unfolding strtol read_signed drop_while
  strtol-append h =
      let low = v.0.0 in
      let high = v.0.1 in
      let minus : (c == 45) ≡ false = ground arith in
      let plus : (c == 43) ≡ false = ground arith in
      rw (digit-no_space c v.0, minus, plus)
        (ap (to_int false) read_number-append ∙ to_int-small (digits 0 (c ∷ ds)) t h)

-- The text of the port, with its first digit.
pub port_text : (n : ℕ) → length (decimal 10 n) ≢ 0
unfolding decimal
port_text n h = elim (Bool-cases (ltb n 10)) [
  | inl k ↦ ground (arith, h, k)
  | inr k ↦
      let more = length-append (decimal 9 (n / 10)) ((48 + n % 10) ∷ []) in
      ground (arith, h, k, more)
]
