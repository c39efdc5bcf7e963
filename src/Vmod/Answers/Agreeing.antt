-- ===== src/Vmod/Answers/Agreeing.antt =====
-- How the methods of src/vmod_redis.c that read a reply agree with each other.
use libvmod_redis.Base.{ℕ, zero, suc, ◌<◌, ◌≡◌, refl, Bool, true, false, Option, none, some, arith}
use libvmod_redis.Core.Reply.{ℤ, pos, negsuc, Reply, Replies, array, cons, end}
use libvmod_redis.Core.Types.{Task, Db}
use libvmod_redis.Vmod.Command.{get_task_state, owned_by}
use libvmod_redis.Vmod.Answers.{
  Kind, has_kind, reply_of, reply_test, and_then, elements, array_elements, element, element_at,
  count, count_of, vmod_db_replied, vmod_db_reply_is, vmod_db_get_reply, vmod_db_get_integer_reply,
  vmod_db_get_text_reply, vmod_db_get_array_reply_length, vmod_db_array_reply_is,
  vmod_db_get_array_reply_value,
}

-- Another database sees no reply: every method gives its fallback.
pub record IsUnseen (db : Db) (priv : Option Task) : Type 0 where
  pub replied : vmod_db_replied db priv ≡ false
  pub no_kind : (kind : Kind) → vmod_db_reply_is kind db priv ≡ false
  pub no_reply : (has_room : Bool) → vmod_db_get_reply has_room db priv ≡ none
  pub no_text :
      (kind : Kind) (has_room : Bool) → vmod_db_get_text_reply kind has_room db priv ≡ none
  pub zero_integer : vmod_db_get_integer_reply db priv ≡ pos 0
  pub no_elements : vmod_db_get_array_reply_length db priv ≡ 0
  pub no_element : (kind : Kind) (index : ℤ) → vmod_db_array_reply_is kind db priv index ≡ false
  pub no_value :
      (has_room : Bool) (index : ℤ) → vmod_db_get_array_reply_value has_room db priv index ≡ none

-- A database that is not the one of the command of the task sees no reply, whatever the command has
-- been answered.
pub other_db-IsUnseen :
    (db : Db) (priv : Option Task)
    → owned_by db.id (get_task_state priv false).command.db ≡ false
    → IsUnseen db priv
unfolding vmod_db_replied vmod_db_reply_is vmod_db_get_reply vmod_db_get_text_reply
    vmod_db_get_integer_reply vmod_db_get_array_reply_length vmod_db_array_reply_is
    vmod_db_get_array_reply_value
other_db-IsUnseen db priv h =
    let unseen : reply_of db priv ≡ none = rw h refl in
    record {
      replied = rw unseen refl;
      no_kind = λ kind. rw unseen refl;
      no_reply = λ has_room. rw unseen refl;
      no_text = λ kind has_room. rw unseen refl;
      zero_integer = rw unseen refl;
      no_elements = rw unseen refl;
      no_element = λ kind index. rw unseen refl;
      no_value = λ has_room index. rw unseen refl;
    }

-- An index within an array reply.
pub record IsWithin (db : Db) (priv : Option Task) (index : ℤ) : Type 0 where
  pub place : ℕ
  pub not_negative : index ≡ pos place
  pub in_bounds : place < vmod_db_get_array_reply_length db priv

element-bounds :
    (kind : Kind) (n : ℕ) (rs : Replies)
    → reply_test (has_kind kind) (element n rs) ≡ true
    → n < count rs
element-bounds kind n end h = absurd (ground (arith, h))
element-bounds kind zero (cons r rs) h = omega arith
element-bounds kind (suc n) (cons r rs) h = omega (arith, element-bounds kind n rs h)

within :
    (kind : Kind) (o : Option Reply) (index : ℤ)
    → reply_test (has_kind kind) (element_at index (and_then array_elements o)) ≡ true
    → (n : ℕ) × (index ≡ pos n) × (n < count_of (and_then elements o))
within kind none index h = absurd (ground (arith, h))
within kind (some (array rs)) (pos n) h = (n, refl, element-bounds kind n rs h)
within kind (some (array rs)) (negsuc n) h = absurd (ground (arith, h))
within kind (some r) index h = absurd (ground (arith, h))

-- Whichever test of an element succeeds, its index is within the length that .get_array_reply_length()
-- gives, and not negative.
pub vmod_db_array_reply_is-IsWithin :
    (kind : Kind) (db : Db) (priv : Option Task) (index : ℤ)
    → vmod_db_array_reply_is kind db priv index ≡ true
    → IsWithin db priv index
unfolding vmod_db_array_reply_is vmod_db_get_array_reply_length
vmod_db_array_reply_is-IsWithin kind db priv index h =
    let (place, not_negative, in_bounds) = within kind (reply_of db priv) index h in
    record { place = place; not_negative = not_negative; in_bounds = in_bounds }
