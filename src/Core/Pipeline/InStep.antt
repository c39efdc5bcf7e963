-- ===== src/Core/Pipeline/InStep.antt =====
-- The replies of src/core.c stay in step with the commands.
use libvmod_redis.Base.{ℕ, ◌≡◌, refl, Bool, true, false, ◌&&◌, some, List, length, get_elem?, Str}
use libvmod_redis.Core.Types.{slave, role_eq, Context, Db}
use libvmod_redis.Core.Pipeline.{Replies, Exchange, pipeline, get_redis_repy}

-- As many replies are fetched as commands are sent, and the reply that counts is the one to the
-- command `argv`, by its place among those sent.
pub record IsInStep (replies : Replies) (argv : List Str) (x : Exchange) : Type 0 where
  pub place : ℕ
  pub command : get_elem? x.sent place ≡ some argv
  pub answer : x.reply ≡ replies x.sent place
  pub all_read : x.fetched ≡ length x.sent

pipeline-IsInStep :
    (replies : Replies) (readonly asking : Bool) (argv : List Str)
    → IsInStep replies argv (pipeline replies readonly asking argv)
unfolding pipeline
pipeline-IsInStep replies true true argv = record {
  place = 2;
  command = refl;
  answer = refl;
  all_read = refl;
}
pipeline-IsInStep replies true false argv = record {
  place = 1;
  command = refl;
  answer = refl;
  all_read = refl;
}
pipeline-IsInStep replies false true argv = record {
  place = 1;
  command = refl;
  answer = refl;
  all_read = refl;
}
pipeline-IsInStep replies false false argv = record {
  place = 0;
  command = refl;
  answer = refl;
  all_read = refl;
}

-- get_redis_repy() reads a reply for each command that it sends, so that none is left for the next
-- user of the connection, and returns the one to the command that it was given, whatever stands
-- before and after it.
pub get_redis_repy-IsInStep :
    (db : Db) (replies : Replies) (c : Context) (argv : List Str) (asking : Bool)
    → IsInStep replies argv (get_redis_repy db replies c argv asking)
unfolding get_redis_repy
get_redis_repy-IsInStep db replies c argv asking =
    pipeline-IsInStep replies (db.enabled && role_eq (db.mem c.server).role slave) asking argv
