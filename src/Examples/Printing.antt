-- ===== src/Examples/Printing.antt =====
-- The theorem on the text of a reply (src/core.c), at a map.
use libvmod_redis.Base.{
  ℕ, ◌+◌, ◌/◌, ◌%◌, ◌<◌, ◌≡◌, refl, true, ltb, ◌||◌, some, [], ◌∷◌, leb, ◌==◌, if◌then◌else◌, Str,
  arith, Bool-cases, inl, inr,
}
use libvmod_redis.Core.Reply.{negsuc, Reply, string, integer, array, map, cons, end}
use libvmod_redis.Core.Serialize.{Printer, redis_reply_to_string}
use libvmod_redis.Core.Serialize.Grammar.{
  IsBody, done, plain, escaped, unicode, is_hex, IsJson, IsPrintable,
}
use libvmod_redis.Core.Serialize.Json.{redis_reply_to_string-IsJson}

abbrev hex_digit : ℕ → ℕ
hex_digit n = if ltb n 10 then 48 + n else 87 + n

-- A quote and a backslash behind a backslash, and control bytes by their codes.
abbrev quote : Str → Str
quote [] = []
quote (c ∷ cs) =
    let rest = quote cs in
    if c == 34 || c == 92
    then 92 ∷ c ∷ rest
    else if leb 32 c
    then c ∷ rest
    else 92 ∷ 117 ∷ 48 ∷ 48 ∷ (48 + c / 16) ∷ hex_digit (c % 16) ∷ rest

hex_digit-hex : (n : ℕ) → n < 16 → is_hex (hex_digit n) ≡ true
hex_digit-hex n h = ground arith

quote-IsBody : (s : Str) → IsBody (quote s)
quote-IsBody [] = done
quote-IsBody (c ∷ cs) = elim (Bool-cases (c == 34 || c == 92)) [
  | inl k ↦ rw k (escaped c (quote cs) (ground (arith, k)) (quote-IsBody cs))
  | inr k ↦ elim (Bool-cases (leb 32 c)) [
    | inl l ↦
        rw (k, l)
          (plain c (quote cs) (ground (arith, l)) (λ e. ground (arith, k, e))
            (λ e. ground (arith, k, e)) (quote-IsBody cs))
    | inr l ↦
        rw (k, l)
          (unicode 48 48 (48 + c / 16) (hex_digit (c % 16)) (quote cs) refl refl
            (digit c (ground (arith, l))) (hex_digit-hex (c % 16) (omega arith)) (quote-IsBody cs))
  ]
]
  where
    digit : (c : ℕ) → c < 32 → is_hex (48 + c / 16) ≡ true
    digit c h = ground (arith, h)

abbrev printer : Printer
printer = record { quote = quote; dval = [] }

-- A map of a quote and a line feed to an array of -5.
abbrev reply : Reply
reply = map (cons (string (34 ∷ 10 ∷ [])) (cons (array (cons (integer (negsuc 4)) end)) end))

redis_reply_to_string-IsJson_example : IsJson (redis_reply_to_string printer (some reply))
unfolding IsPrintable
redis_reply_to_string-IsJson_example =
    redis_reply_to_string-IsJson printer quote-IsBody done reply (tt, tt, (tt, tt), tt)
