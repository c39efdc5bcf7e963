-- ===== src/Vmod/Answers.antt =====
-- The methods of src/vmod_redis.c that read the reply of a command: .replied(), .reply_is_*(),
-- .get_reply(), .get_*_reply(), .get_array_reply_length(), .array_reply_is_*() and
-- .get_array_reply_value(). Those that a macro defines for each kind of reply are one function of the
-- kind. Whether the workspace has room for a copy is an argument.
pub mod Agreeing
use libvmod_redis.Base.{
  ℕ, zero, suc, ◌+◌, ◌/◌, ◌%◌, Bool, true, false, ◌&&◌, ◌||◌, Option, none, some, List, [], ◌∷◌,
  ◌++◌, ltb, is_some, if◌then◌else◌, Str,
}
use libvmod_redis.Core.Reply.{
  ℤ, pos, negsuc, Reply, Replies, status, error, integer, nil, string, double, boolean, verb,
  bignum, array, set, push, map, attr, cons, end,
}
use libvmod_redis.Core.Types.{Ptr, Task, Db}
use libvmod_redis.Core.Serialize.{print_integer}
use libvmod_redis.Vmod.Command.{get_task_state, owned_by}

pub data Kind : Type 0 where
  error_kind nil_kind status_kind integer_kind boolean_kind double_kind string_kind array_kind :
      Kind

-- The condition of each kind, with RESP3.
abbrev pub has_kind : Kind → Reply → Bool
has_kind error_kind (error s) = true
has_kind nil_kind nil = true
has_kind status_kind (status s) = true
has_kind integer_kind (integer z) = true
has_kind boolean_kind (boolean z) = true
has_kind double_kind (double s) = true
has_kind string_kind (string s) = true
has_kind string_kind (verb s t) = true
has_kind array_kind (array rs) = true
has_kind array_kind (map rs) = true
has_kind array_kind (set rs) = true
has_kind _ _ = false

-- The reply, if the database is the one of the command and has replied.
unfoldable pub reply_of : Db → Option Task → Option Reply
unfolding get_task_state
reply_of db priv =
    let t = get_task_state priv false in
    if owned_by db.id t.command.db then t.command.reply else none

unfoldable pub vmod_db_replied : Db → Option Task → Bool
unfolding reply_of
vmod_db_replied db priv = is_some (reply_of db priv)

abbrev pub reply_test : (Reply → Bool) → Option Reply → Bool
reply_test test none = false
reply_test test (some r) = test r

unfoldable pub vmod_db_reply_is : Kind → Db → Option Task → Bool
unfolding reply_of
vmod_db_reply_is kind db priv = reply_test (has_kind kind) (reply_of db priv)

-- WS_Copy() and WS_Printf(): `none` when VRT_fail() is called.
abbrev pub copied : Bool → Str → Option Str
copied has_room s = if has_room then some s else none

unfoldable pub get_reply : Bool → Reply → Option Str
unfolding print_integer
get_reply has_room (error s) = copied has_room s
get_reply has_room (status s) = copied has_room s
get_reply has_room (string s) = copied has_room s
get_reply has_room (verb s t) = copied has_room s
get_reply has_room (double s) = copied has_room s
get_reply has_room (integer z) = copied has_room (print_integer z)
get_reply has_room (boolean z) = copied has_room (print_integer z)
get_reply has_room _ = none

abbrev pub and_then {ℓ} : {B : Type ℓ} → (Reply → Option B) → Option Reply → Option B
and_then f none = none
and_then f (some r) = f r

unfoldable pub vmod_db_get_reply : Bool → Db → Option Task → Option Str
unfolding reply_of get_reply
vmod_db_get_reply has_room db priv = and_then (get_reply has_room) (reply_of db priv)

-- .get_integer_reply() and .get_boolean_reply().
abbrev pub integer_of : Option Reply → ℤ
integer_of (some (integer z)) = z
integer_of _ = pos 0

abbrev pub boolean_of : Option Reply → ℤ
boolean_of (some (boolean z)) = z
boolean_of _ = pos 0

unfoldable pub vmod_db_get_integer_reply : Db → Option Task → ℤ
unfolding reply_of
vmod_db_get_integer_reply db priv = integer_of (reply_of db priv)

unfoldable pub vmod_db_get_boolean_reply : Db → Option Task → ℤ
unfolding reply_of
vmod_db_get_boolean_reply db priv = boolean_of (reply_of db priv)

-- .get_error_reply(), .get_status_reply() and .get_string_reply(): the text of a reply of a kind.
abbrev pub text_of : Reply → Str
text_of (error s) = s
text_of (status s) = s
text_of (string s) = s
text_of (verb s t) = s
text_of _ = []

abbrev pub text_if : Bool → Kind → Reply → Option Str
text_if has_room kind r = if has_kind kind r then copied has_room (text_of r) else none

unfoldable pub vmod_db_get_text_reply : Kind → Bool → Db → Option Task → Option Str
unfolding reply_of
vmod_db_get_text_reply kind has_room db priv = and_then (text_if has_room kind) (reply_of db priv)

abbrev pub count : Replies → ℕ
count end = 0
count (cons r rs) = count rs + 1

abbrev pub elements : Reply → Option Replies
elements (array rs) = some rs
elements (map rs) = some rs
elements (set rs) = some rs
elements _ = none

abbrev pub count_of : Option Replies → ℕ
count_of none = 0
count_of (some rs) = count rs

unfoldable pub vmod_db_get_array_reply_length : Db → Option Task → ℕ
unfolding reply_of
vmod_db_get_array_reply_length db priv = count_of (and_then elements (reply_of db priv))

-- A VCL_INT is compared with a size_t: a negative one is out of range.
abbrev pub element : ℕ → Replies → Option Reply
element n end = none
element zero (cons r rs) = some r
element (suc n) (cons r rs) = element n rs

abbrev pub element_at : ℤ → Option Replies → Option Reply
element_at z none = none
element_at (pos n) (some rs) = element n rs
element_at (negsuc n) (some rs) = none

-- Only arrays, here.
abbrev pub array_elements : Reply → Option Replies
array_elements (array rs) = some rs
array_elements _ = none

unfoldable pub vmod_db_array_reply_is : Kind → Db → Option Task → ℤ → Bool
unfolding reply_of
vmod_db_array_reply_is kind db priv index =
    reply_test (has_kind kind) (element_at index (and_then array_elements (reply_of db priv)))

unfoldable pub vmod_db_get_array_reply_value : Bool → Db → Option Task → ℤ → Option Str
unfolding reply_of get_reply
vmod_db_get_array_reply_value has_room db priv index =
    and_then (get_reply has_room) (element_at index (and_then elements (reply_of db priv)))
