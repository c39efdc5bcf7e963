-- ===== src/Core/Serialize/Json.antt =====
-- What serialize_redis_reply() of src/core.c prints is JSON.
use libvmod_redis.Base.{
  ℕ, zero, suc, ◌+◌, ◌/◌, ◌%◌, ◌≡◌, refl, Bool, true, false, not, ◌&&◌, some, [], ◌∷◌, ◌++◌, take,
  leb, ltb, ◌==◌, Str, arith, Bool-cases, inl, inr,
}
use Prim.Native.String.{String}
use mathlib.Core.List.{append-nil}
use mathlib.Core.Path.{subst}
use libvmod_redis.Core.Reply.{
  ℤ, pos, negsuc, Reply, Replies, status, error, integer, nil, string, double, boolean, verb,
  bignum, array, set, push, map, attr, cons, end,
}
use libvmod_redis.Cluster.Nodes.{decimal}
use libvmod_redis.Core.Serialize.{
  codes, quoted, in_brackets, in_braces, wrapped, is_zero, Printer, double_text, print_integer,
  serialize_redis_reply, items, more_items, members, more_members, redis_reply_to_string,
}
use libvmod_redis.Core.Serialize.Grammar.{
  IsBody, done, plain, escaped, unicode, IsString, quotes, IsJson, text, brackets, braces, IsItems,
  no_items, first_item, IsMoreItems, last_item, next_item, IsMembers, no_members, first_member,
  IsMoreMembers, last_member, next_member, IsScalar, IsPrintable, ArePrintable, ArePairs,
}

IsBody-append : (s s' : Str) → IsBody s → IsBody s' → IsBody (s ++ s')
IsBody-append _ s' done v = v
IsBody-append _ s' (plain c s h q b u) v = plain c (s ++ s') h q b (IsBody-append s s' u v)
IsBody-append _ s' (escaped c s h u) v = escaped c (s ++ s') h (IsBody-append s s' u v)
IsBody-append _ s' (unicode a b c d s h i j k u) v =
    unicode a b c d (s ++ s') h i j k (IsBody-append s s' u v)

abbrev is_plain : Str → Bool
is_plain [] = true
is_plain (c ∷ cs) = leb 32 c && not (c == 34) && not (c == 92) && is_plain cs

is_plain-IsBody : (s : Str) → is_plain s ≡ true → IsBody s
is_plain-IsBody [] e = done
is_plain-IsBody (c ∷ cs) e =
    plain c cs (ground (arith, e)) (λ k. ground (arith, e, k)) (λ k. ground (arith, e, k))
      (is_plain-IsBody cs (ground (arith, e)))

decimal-IsBody : (fuel n : ℕ) → IsBody (decimal fuel n)
unfolding decimal
decimal-IsBody zero n = done
decimal-IsBody (suc fuel) n = elim (Bool-cases (ltb n 10)) [
  | inl k ↦
      rw k
        (plain (48 + n) [] (omega arith) (λ e. omega (arith, e)) (λ e. ground (arith, k, e)) done)
  | inr k ↦ rw k (
      IsBody-append (decimal fuel (n / 10)) ((48 + n % 10) ∷ []) (decimal-IsBody fuel (n / 10))
        (plain (48 + n % 10) [] (omega arith) (λ e. omega (arith, e)) (λ e. omega (arith, e)) done))
]

print_integer-IsBody : (z : ℤ) → IsBody (print_integer z)
unfolding print_integer
print_integer-IsBody (pos n) = decimal-IsBody 20 n
print_integer-IsBody (negsuc n) =
    plain 45 (decimal 20 (n + 1)) (omega arith) (λ e. omega (arith, e)) (λ e. omega (arith, e))
      (decimal-IsBody 20 (n + 1))

-- A text after a plain one.
tagged : (tag s : Str) → is_plain tag ≡ true → IsBody s → IsString (quoted (tag ++ s))
tagged tag s e v = quotes (tag ++ s) (IsBody-append tag s (is_plain-IsBody tag e) v)

wrapped-IsJson :
    (key : String) (v : Str) → is_plain (codes key) ≡ true → IsJson v → IsJson (wrapped key v)
wrapped-IsJson key v e j = braces (quoted (codes key) ++ (codes ": " ++ v)) (
    subst (λ x. IsMembers (quoted (codes key) ++ (codes ": " ++ x))) (append-nil v)
      (first_member (quoted (codes key)) v [] (quotes (codes key) (is_plain-IsBody (codes key) e)) j
        last_member))

module _ (p : Printer) (quote : (s : Str) → IsBody (p.quote s)) (dval : IsBody p.dval) where
  double_text-IsBody : (s : Str) → IsBody s → IsBody (double_text p s)
  double_text-IsBody [] v = dval
  double_text-IsBody (c ∷ cs) v = v

  scalar-IsString : (r : Reply) → IsScalar r → IsPrintable r → IsString (serialize_redis_reply p r)
  unfolding serialize_redis_reply IsPrintable
  scalar-IsString (status s) u v = tagged (codes "(status) ") (p.quote s) refl (quote s)
  scalar-IsString (error s) u v = tagged (codes "(error) ") (p.quote s) refl (quote s)
  scalar-IsString (integer z) u v =
      tagged (codes "(integer) ") (print_integer z) refl (print_integer-IsBody z)
  scalar-IsString nil u v = quotes (codes "(nil)") (is_plain-IsBody (codes "(nil)") refl)
  scalar-IsString (string s) u v = quotes (p.quote s) (quote s)
  scalar-IsString (double s) u v =
      tagged (codes "(double) ") (double_text p s) refl (double_text-IsBody s v)
  scalar-IsString (boolean z) u v = elim (Bool-cases (is_zero z)) [
    | inl k ↦ rw k (quotes (codes "(bool) false") (is_plain-IsBody (codes "(bool) false") refl))
    | inr k ↦ rw k (quotes (codes "(bool) true") (is_plain-IsBody (codes "(bool) true") refl))
  ]
  scalar-IsString (verb s t) u v =
      tagged (codes "(verbatim ") (take 3 t ++ (codes ") " ++ p.quote s)) refl (
        IsBody-append (take 3 t) (codes ") " ++ p.quote s) v
          (IsBody-append (codes ") ") (p.quote s) (is_plain-IsBody (codes ") ") refl) (quote s)))
  scalar-IsString (bignum s) u v = tagged (codes "(bignum) ") s refl v
  scalar-IsString (array rs) u v = absurd u
  scalar-IsString (set rs) u v = absurd u
  scalar-IsString (push rs) u v = absurd u
  scalar-IsString (map rs) u v = absurd u
  scalar-IsString (attr rs) u v = absurd u

  mutual
    unfolding serialize_redis_reply IsPrintable

    serialize-IsJson : (r : Reply) → IsPrintable r → IsJson (serialize_redis_reply p r)
    serialize-IsJson (array rs) v = brackets (items p rs) (items-IsItems rs v)
    serialize-IsJson (set rs) v =
        wrapped-IsJson "(set)" (in_brackets (items p rs)) refl
          (brackets (items p rs) (items-IsItems rs v))
    serialize-IsJson (push rs) v =
        wrapped-IsJson "(push)" (in_brackets (items p rs)) refl
          (brackets (items p rs) (items-IsItems rs v))
    serialize-IsJson (map rs) v = braces (members p rs) (members-IsMembers rs v)
    serialize-IsJson (attr rs) v =
        wrapped-IsJson "(attr)" (in_braces (members p rs)) refl
          (braces (members p rs) (members-IsMembers rs v))
    serialize-IsJson (status s) v = text _ (scalar-IsString (status s) tt v)
    serialize-IsJson (error s) v = text _ (scalar-IsString (error s) tt v)
    serialize-IsJson (integer z) v = text _ (scalar-IsString (integer z) tt v)
    serialize-IsJson nil v = text _ (scalar-IsString nil tt v)
    serialize-IsJson (string s) v = text _ (scalar-IsString (string s) tt v)
    serialize-IsJson (double s) v = text _ (scalar-IsString (double s) tt v)
    serialize-IsJson (boolean z) v = text _ (scalar-IsString (boolean z) tt v)
    serialize-IsJson (verb s t) v = text _ (scalar-IsString (verb s t) tt v)
    serialize-IsJson (bignum s) v = text _ (scalar-IsString (bignum s) tt v)

    items-IsItems : (rs : Replies) → ArePrintable rs → IsItems (items p rs)
    items-IsItems end v = no_items
    items-IsItems (cons r rs) (v, vs) =
        first_item (serialize_redis_reply p r) (more_items p rs) (serialize-IsJson r v)
          (more_items-IsMoreItems rs vs)

    more_items-IsMoreItems : (rs : Replies) → ArePrintable rs → IsMoreItems (more_items p rs)
    more_items-IsMoreItems end v = last_item
    more_items-IsMoreItems (cons r rs) (v, vs) =
        next_item (serialize_redis_reply p r) (more_items p rs) (serialize-IsJson r v)
          (more_items-IsMoreItems rs vs)

    members-IsMembers : (rs : Replies) → ArePairs rs → IsMembers (members p rs)
    members-IsMembers end v = no_members
    members-IsMembers (cons k end) v = absurd v
    members-IsMembers (cons k (cons x rs)) (s, v, w, vs) =
        first_member (serialize_redis_reply p k) (serialize_redis_reply p x)
          (more_members p false rs) (scalar-IsString k s v) (serialize-IsJson x w)
          (more_members-IsMoreMembers rs vs)

    more_members-IsMoreMembers :
        (rs : Replies) → ArePairs rs → IsMoreMembers (more_members p false rs)
    more_members-IsMoreMembers end v = last_member
    more_members-IsMoreMembers (cons k end) v = absurd v
    more_members-IsMoreMembers (cons k (cons x rs)) (s, v, w, vs) =
        next_member (serialize_redis_reply p k) (serialize_redis_reply p x)
          (more_members p false rs) (scalar-IsString k s v) (serialize-IsJson x w)
          (more_members-IsMoreMembers rs vs)

  -- If VSB_quote() gives the inside of a JSON string, the text of a reply is JSON: its maps have
  -- scalar keys, each with a value, and its doubles, big numbers and names of formats need no quoting.
  pub redis_reply_to_string-IsJson :
      (r : Reply) → IsPrintable r → IsJson (redis_reply_to_string p (some r))
  unfolding redis_reply_to_string
  redis_reply_to_string-IsJson r v = serialize-IsJson r v
