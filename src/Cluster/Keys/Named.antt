-- ===== src/Cluster/Keys/Named.antt =====
-- The names that get_key_index() of src/cluster.c knows.
use libvmod_redis.Base.{
  ℕ, zero, suc, ◌+◌, ◌≤◌, ◌<◌, ◌≡◌, ◌≢◌, refl, sym, ap, ◌∙◌, Bool, true, false, ◌&&◌, ◌||◌, not,
  List, [], ◌∷◌, ◌++◌, ◌==◌, ltb, leb, All, take, length, length-append, if◌then◌else◌, Str, arith,
  Bool-cases, inl, inr,
}
use libvmod_redis.Core.Reply.{pos, negsuc}
use libvmod_redis.Core.Script.{to_lower, str_case_eq}
use libvmod_redis.Cluster.Keys.{bar, has_case_prefix, strcasestr, barred, get_key_index}

-- The two lists of names.
abbrev pub banned : List Str
banned =
    (73 ∷ 78 ∷ 70 ∷ 79 ∷ [])
    ∷ (77 ∷ 85 ∷ 76 ∷ 84 ∷ 73 ∷ [])
    ∷ (69 ∷ 88 ∷ 69 ∷ 67 ∷ [])
    ∷ (83 ∷ 76 ∷ 65 ∷ 86 ∷ 69 ∷ 79 ∷ 70 ∷ [])
    ∷ (82 ∷ 69 ∷ 80 ∷ 76 ∷ 73 ∷ 67 ∷ 65 ∷ 79 ∷ 70 ∷ [])
    ∷ (67 ∷ 79 ∷ 78 ∷ 70 ∷ 73 ∷ 71 ∷ [])
    ∷ (83 ∷ 72 ∷ 85 ∷ 84 ∷ 68 ∷ 79 ∷ 87 ∷ 78 ∷ [])
    ∷ (83 ∷ 67 ∷ 82 ∷ 73 ∷ 80 ∷ 84 ∷ [])
    ∷ []

abbrev pub keyed_third : List Str
keyed_third =
    (69 ∷ 86 ∷ 65 ∷ 76 ∷ [])
    ∷ (69 ∷ 86 ∷ 65 ∷ 76 ∷ 83 ∷ 72 ∷ 65 ∷ [])
    ∷ (69 ∷ 86 ∷ 65 ∷ 76 ∷ 95 ∷ 82 ∷ 79 ∷ [])
    ∷ (69 ∷ 86 ∷ 65 ∷ 76 ∷ 83 ∷ 72 ∷ 65 ∷ 95 ∷ 82 ∷ 79 ∷ [])
    ∷ []

-- Whether a command is one of some names, in upper or lower case.
unfoldable pub is_among : Str → List Str → Bool
is_among command [] = false
is_among command (name ∷ names) = str_case_eq command name || is_among command names

-- A name without a bar.
abbrev pub IsBarless : Str → Type 0
IsBarless s = All (λ c. c ≢ bar) s

-- The names with a bar after each.
abbrev after : List Str → Str
after [] = []
after (name ∷ names) = name ++ (bar ∷ after names)

to_lower-bar : (c : ℕ) → c ≢ bar → (to_lower c == bar) ≡ false
to_lower-bar c h = elim (Bool-cases (to_lower c == bar)) [
  | inl k ↦ absurd (h (ground arith))
  | inr k ↦ k
]

-- What a list begins with.
has_case_prefix-name :
    (command name : Str) (rest : Str)
    → IsBarless command
    → IsBarless name
    → has_case_prefix (command ++ (bar ∷ [])) (name ++ (bar ∷ rest)) ≡ str_case_eq command name
unfolding has_case_prefix str_case_eq
has_case_prefix-name [] [] rest u v = refl
has_case_prefix-name [] (d ∷ ds) rest u (v, vs) = ground (arith, to_lower-bar d v)
has_case_prefix-name (c ∷ cs) [] rest (u, us) v = rw (to_lower-bar c u) refl
has_case_prefix-name (c ∷ cs) (d ∷ ds) rest (u, us) (v, vs) =
    ap (λ b. to_lower c == to_lower d && b) (has_case_prefix-name cs ds rest us vs)

-- A match begins at a bar.
strcasestr-skip :
    (name rest needle : Str)
    → IsBarless name
    → strcasestr (name ++ rest) (bar ∷ needle) ≡ strcasestr rest (bar ∷ needle)
unfolding strcasestr has_case_prefix
strcasestr-skip [] rest needle v = refl
strcasestr-skip (d ∷ ds) rest needle (v, vs) =
    let other : (bar == to_lower d) ≡ false = ground (arith, to_lower-bar d v) in
    rw other (strcasestr-skip ds rest needle vs)

strcasestr-names :
    (command : Str) (names : List Str)
    → IsBarless command
    → All IsBarless names
    → strcasestr (bar ∷ after names) (bar ∷ (command ++ (bar ∷ []))) ≡ is_among command names
unfolding strcasestr has_case_prefix is_among
strcasestr-names [] [] u v = refl
strcasestr-names (c ∷ cs) [] u v = refl
strcasestr-names command (name ∷ names) u (v, vs) =
    rw
      (
        has_case_prefix-name command name (after names) u v,
        strcasestr-skip name (bar ∷ after names) (command ++ (bar ∷ [])) v,
        strcasestr-names command names u vs,
      )
      refl

abbrev is_barless : Str → Bool
is_barless [] = true
is_barless (c ∷ cs) = not (c == bar) && is_barless cs

is_barless-IsBarless : (s : Str) → is_barless s ≡ true → IsBarless s
is_barless-IsBarless [] e = tt
is_barless-IsBarless (c ∷ cs) e =
    (λ k. ground (arith, e), is_barless-IsBarless cs (ground (arith, e)))

-- Names without bars and shorter than `n`.
abbrev are_short : ℕ → List Str → Bool
are_short n [] = true
are_short n (name ∷ names) = is_barless name && ltb (length name) n && are_short n names

are_short-IsBarless : (n : ℕ) (names : List Str) → are_short n names ≡ true → All IsBarless names
are_short-IsBarless n [] e = tt
are_short-IsBarless n (name ∷ names) e =
    (is_barless-IsBarless name (ground (arith, e)), are_short-IsBarless n names (ground (arith, e)))

pub str_case_eq-length : (s s' : Str) → str_case_eq s s' ≡ true → length s ≡ length s'
unfolding str_case_eq
str_case_eq-length [] [] e = refl
str_case_eq-length [] (d ∷ ds) e = absurd (ground arith)
str_case_eq-length (c ∷ cs) [] e = absurd (ground arith)
str_case_eq-length (c ∷ cs) (d ∷ ds) e = ap suc (str_case_eq-length cs ds (ground (arith, e)))

is_among-long :
    (n : ℕ) (command : Str) (names : List Str)
    → are_short n names ≡ true
    → n ≤ length command
    → is_among command names ≡ false
unfolding is_among
is_among-long n command [] e h = refl
is_among-long n command (name ∷ names) e h = elim (Bool-cases (str_case_eq command name)) [
  | inl k ↦ absurd (ground (arith, e, h, str_case_eq-length command name k))
  | inr k ↦ rw k (is_among-long n command names (ground (arith, e)) h)
]

has_case_prefix-length :
    (needle s : Str) → has_case_prefix needle s ≡ true → length needle ≤ length s
unfolding has_case_prefix
has_case_prefix-length [] s e = omega arith
has_case_prefix-length (c ∷ cs) [] e = absurd (ground arith)
has_case_prefix-length (c ∷ cs) (d ∷ ds) e =
    omega (arith, has_case_prefix-length cs ds (ground (arith, e)))

strcasestr-long : (s needle : Str) → length s < length needle → strcasestr s needle ≡ false
unfolding strcasestr
strcasestr-long [] needle h = refl
strcasestr-long (d ∷ ds) needle h = elim (Bool-cases (has_case_prefix needle (d ∷ ds))) [
  | inl k ↦ absurd (omega (arith, has_case_prefix-length needle (d ∷ ds) k, h))
  | inr k ↦ rw k (strcasestr-long ds needle (omega (arith, h)))
]

take-all : (n : ℕ) (s : Str) → length s ≤ n → take n s ≡ s
take-all zero [] h = refl
take-all (suc n) [] h = refl
take-all zero (c ∷ cs) h = absurd (omega arith)
take-all (suc n) (c ∷ cs) h = ap (λ x. c ∷ x) (take-all n cs (omega (arith, h)))

length-take-full : (n : ℕ) (s : Str) → n ≤ length s → length (take n s) ≡ n
length-take-full zero [] h = refl
length-take-full (suc n) [] h = absurd (omega arith)
length-take-full zero (c ∷ cs) h = refl
length-take-full (suc n) (c ∷ cs) h = ap suc (length-take-full n cs (omega (arith, h)))

-- The search in a list of names, none of which fills the buffer, for a command of any length.
strcasestr-barred :
    (command : Str) (names : List Str)
    → IsBarless command
    → are_short 60 names ≡ true
    → length (bar ∷ after names) < 63
    → strcasestr (bar ∷ after names) (barred command) ≡ is_among command names
unfolding barred
strcasestr-barred command names u short h =
    let whole = bar ∷ (command ++ (bar ∷ [])) in
    let longer : length whole ≡ length command + 2 =
      omega (arith, length-append command (bar ∷ [])) in
    elim (Bool-cases (leb (length command + 2) 63)) [
      | inl k ↦
          rw (take-all 63 whole (ground (arith, longer, k)))
            (strcasestr-names command names u (are_short-IsBarless 60 names short))
      | inr k ↦
          strcasestr-long (bar ∷ after names) (take 63 whole)
            (omega (arith, h, length-take-full 63 whole (ground (arith, longer, k))))
          ∙ sym (is_among-long 60 command names short (ground (arith, k)))
    ]

-- get_key_index() of a command without a bar says -1 for exactly the banned commands, 3 for those with
-- a script, and 1 for all others, in upper or lower case and of whatever length.
pub get_key_index_lem :
    (command : Str)
    → IsBarless command
    → get_key_index command ≡ (
        if is_among command banned
        then negsuc 0
        else if is_among command keyed_third
        then pos 3
        else pos 1)
unfolding get_key_index
get_key_index_lem command u =
    rw
      (
        strcasestr-barred command banned u refl (omega arith),
        strcasestr-barred command keyed_third u refl (omega arith),
      )
      refl
