-- ===== src/Core/Reply.antt =====
-- redisReply of hiredis, as far as src/ reads it: the type of a reply and the fields that go with it.
use libvmod_redis.Base.{ℕ, Bool, true, false, Str}

-- `negsuc n` is -(n + 1).
pub data ℤ : Type 0 where
  pos : ℕ → ℤ
  negsuc : ℕ → ℤ

-- `double` and `bignum` carry the text that the server sent, `verb` its three letters as well.
mutual
  pub data Reply : Type 0 where
    status : Str → Reply
    error : Str → Reply
    integer : ℤ → Reply
    nil : Reply
    string : Str → Reply
    double : Str → Reply
    boolean : ℤ → Reply
    verb : Str → Str → Reply
    bignum : Str → Reply
    array : Replies → Reply
    set : Replies → Reply
    push : Replies → Reply
    map : Replies → Reply
    attr : Replies → Reply

  pub data Replies : Type 0 where
    end : Replies
    cons : Reply → Replies → Replies

-- type == REDIS_REPLY_ERROR.
abbrev pub is_error : Reply → Bool
is_error (error s) = true
is_error _ = false
