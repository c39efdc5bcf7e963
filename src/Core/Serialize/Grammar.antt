-- ===== src/Core/Serialize/Grammar.antt =====
-- JSON, and the replies that serialize_redis_reply() of src/core.c prints as JSON.
use libvmod_redis.Base.{
  ℕ, ◌≡◌, Bool, true, ◌&&◌, ◌||◌, leb, ◌==◌, ◌≤◌, ◌≢◌, [], ◌∷◌, ◌++◌, take, Str,
}
use libvmod_redis.Core.Reply.{
  Reply, Replies, double, verb, bignum, array, set, push, map, attr, cons, end,
}
use libvmod_redis.Core.Serialize.{codes, quoted, in_brackets, in_braces}

-- What may stand after a backslash in a JSON string, but for the u of a code in four hexadecimal digits.
abbrev pub is_escape : ℕ → Bool
is_escape c =
    c == 34 || c == 92 || c == 47 || c == 98 || c == 102 || c == 110 || c == 114 || c == 116

abbrev pub is_hex : ℕ → Bool
is_hex c = (leb 48 c && leb c 57) || (leb 65 c && leb c 70) || (leb 97 c && leb c 102)

-- The bytes between the quotes of a JSON string: no control byte, no quote and no backslash but in one
-- of the escapes of JSON.
pub data IsBody : Str → Type 0 where
  done : IsBody []
  plain : (c : ℕ) (s : Str) → 32 ≤ c → c ≢ 34 → c ≢ 92 → IsBody s → IsBody (c ∷ s)
  escaped : (c : ℕ) (s : Str) → is_escape c ≡ true → IsBody s → IsBody (92 ∷ c ∷ s)
  unicode :
      (a b c d : ℕ) (s : Str)
      → is_hex a ≡ true
      → is_hex b ≡ true
      → is_hex c ≡ true
      → is_hex d ≡ true
      → IsBody s
      → IsBody (92 ∷ 117 ∷ a ∷ b ∷ c ∷ d ∷ s)

pub data IsString : Str → Type 0 where
  quotes : (s : Str) → IsBody s → IsString (quoted s)

-- JSON of strings, arrays and objects, with the separators of src/core.c.
mutual
  pub data IsJson : Str → Type 0 where
    text : (s : Str) → IsString s → IsJson s
    brackets : (s : Str) → IsItems s → IsJson (in_brackets s)
    braces : (s : Str) → IsMembers s → IsJson (in_braces s)

  pub data IsItems : Str → Type 0 where
    no_items : IsItems []
    first_item : (v m : Str) → IsJson v → IsMoreItems m → IsItems (v ++ m)

  pub data IsMoreItems : Str → Type 0 where
    last_item : IsMoreItems []
    next_item : (v m : Str) → IsJson v → IsMoreItems m → IsMoreItems (codes ", " ++ (v ++ m))

  pub data IsMembers : Str → Type 0 where
    no_members : IsMembers []
    first_member :
        (k v m : Str)
        → IsString k
        → IsJson v
        → IsMoreMembers m
        → IsMembers (k ++ (codes ": " ++ (v ++ m)))

  pub data IsMoreMembers : Str → Type 0 where
    last_member : IsMoreMembers []
    next_member :
        (k v m : Str)
        → IsString k
        → IsJson v
        → IsMoreMembers m
        → IsMoreMembers (codes ", " ++ (k ++ (codes ": " ++ (v ++ m))))

-- A reply of one value.
abbrev pub IsScalar : Reply → Type 0
IsScalar (array rs) = ⊥
IsScalar (set rs) = ⊥
IsScalar (push rs) = ⊥
IsScalar (map rs) = ⊥
IsScalar (attr rs) = ⊥
IsScalar r = Unit {0}

-- A reply whose numbers, and names of formats, are plain text, and whose maps have scalar keys.
unfoldable mutual
  pub IsPrintable : Reply → Type 0
  IsPrintable (double s) = IsBody s
  IsPrintable (verb s t) = IsBody (take 3 t)
  IsPrintable (bignum s) = IsBody s
  IsPrintable (array rs) = ArePrintable rs
  IsPrintable (set rs) = ArePrintable rs
  IsPrintable (push rs) = ArePrintable rs
  IsPrintable (map rs) = ArePairs rs
  IsPrintable (attr rs) = ArePairs rs
  IsPrintable r = Unit {0}

  pub ArePrintable : Replies → Type 0
  ArePrintable end = Unit {0}
  ArePrintable (cons r rs) = IsPrintable r × ArePrintable rs

  pub ArePairs : Replies → Type 0
  ArePairs end = Unit {0}
  ArePairs (cons k end) = ⊥
  ArePairs (cons k (cons v rs)) = IsScalar k × IsPrintable k × IsPrintable v × ArePairs rs
