-- ===== src/Core/Serialize.antt =====
-- serialize_redis_reply() of src/core.c: a reply as JSON. VSB_quote() and the text of a double that
-- came without one ("%.17g") are arguments.
pub mod Grammar
pub mod Json
use Prim.Native.Char.{code}
use Prim.Native.String.{String}
use libvmod_redis.Base.{
  ℕ, zero, suc, ◌+◌, ◌≡◌, refl, Bool, true, false, not, Option, none, some, List, [], ◌∷◌, ◌++◌,
  take, ◌==◌, if◌then◌else◌, Str,
}
use libvmod_redis.Core.Reply.{
  ℤ, pos, negsuc, Reply, Replies, status, error, integer, nil, string, double, boolean, verb,
  bignum, array, set, push, map, attr, cons, end,
}
use libvmod_redis.Cluster.Nodes.{decimal}

abbrev pub codes : String → Str
codes String.[] = []
codes (String.◌∷◌ c s) = code c ∷ codes s

-- A text between quotes, an array, and an object.
abbrev pub quoted : Str → Str
quoted body = 34 ∷ (body ++ (34 ∷ []))

abbrev pub in_brackets : Str → Str
in_brackets items = 91 ∷ (items ++ (93 ∷ []))

abbrev pub in_braces : Str → Str
in_braces members = 123 ∷ (members ++ (125 ∷ []))

-- An object with one member, `key`.
abbrev pub wrapped : String → Str → Str
wrapped key value = in_braces (quoted (codes key) ++ (codes ": " ++ value))

-- "%lld": a long long has at most 20 bytes.
unfoldable pub print_integer : ℤ → Str
unfolding decimal
print_integer (pos n) = decimal 20 n
print_integer (negsuc n) = 45 ∷ decimal 20 (n + 1)

abbrev pub is_zero : ℤ → Bool
is_zero (pos zero) = true
is_zero _ = false

-- What other code prints: VSB_quote() with VSB_QUOTE_JSON, and "%.17g" of a double without text.
pub record Printer : Type 0 where
  pub quote : Str → Str
  pub dval : Str

abbrev pub double_text : Printer → Str → Str
double_text p [] = p.dval
double_text p (c ∷ cs) = c ∷ cs

unfoldable mutual
  pub serialize_redis_reply : Printer → Reply → Str
  serialize_redis_reply p (status s) = quoted (codes "(status) " ++ p.quote s)
  serialize_redis_reply p (error s) = quoted (codes "(error) " ++ p.quote s)
  serialize_redis_reply p (integer z) = quoted (codes "(integer) " ++ print_integer z)
  serialize_redis_reply p nil = quoted (codes "(nil)")
  serialize_redis_reply p (string s) = quoted (p.quote s)
  serialize_redis_reply p (double s) = quoted (codes "(double) " ++ double_text p s)
  serialize_redis_reply p (boolean z) =
      quoted (if is_zero z then codes "(bool) false" else codes "(bool) true")
  serialize_redis_reply p (verb s t) =
      quoted (codes "(verbatim " ++ (take 3 t ++ (codes ") " ++ p.quote s)))
  serialize_redis_reply p (bignum s) = quoted (codes "(bignum) " ++ s)
  serialize_redis_reply p (array rs) = in_brackets (items p rs)
  serialize_redis_reply p (set rs) = wrapped "(set)" (in_brackets (items p rs))
  serialize_redis_reply p (push rs) = wrapped "(push)" (in_brackets (items p rs))
  serialize_redis_reply p (map rs) = in_braces (members p rs)
  serialize_redis_reply p (attr rs) = wrapped "(attr)" (in_braces (members p rs))

  -- The elements of an array, with ", " before all but the first.
  pub items : Printer → Replies → Str
  items p end = []
  items p (cons r rs) = serialize_redis_reply p r ++ more_items p rs

  pub more_items : Printer → Replies → Str
  more_items p end = []
  more_items p (cons r rs) = codes ", " ++ (serialize_redis_reply p r ++ more_items p rs)

  -- The elements of a map, with ": " before the odd ones.
  pub members : Printer → Replies → Str
  members p end = []
  members p (cons r rs) = serialize_redis_reply p r ++ more_members p true rs

  pub more_members : Printer → Bool → Replies → Str
  more_members p odd end = []
  more_members p odd (cons r rs) =
      (if odd then codes ": " else codes ", ")
      ++ (serialize_redis_reply p r ++ more_members p (not odd) rs)

-- redis_reply_to_string(), of a reply that may be NULL.
unfoldable pub redis_reply_to_string : Printer → Option Reply → Str
unfolding serialize_redis_reply
redis_reply_to_string p none = quoted (codes "(null)")
redis_reply_to_string p (some r) = serialize_redis_reply p r
