-- ===== src/Core/Script.antt =====
-- What redis_execute() of src/core.c says over a connection in one try, EVAL by way of EVALSHA. All that
-- the outside decides in a try is in a record `Try`. sha1() prints what a copy of another project's
-- code computes, and is an argument.
use libvmod_redis.Base.{
  ℕ, ◌+◌, Bool, true, false, ◌&&◌, ◌||◌, Option, none, some, List, [], ◌∷◌, leb, ◌==◌, not,
  if◌then◌else◌, Str,
}
use libvmod_redis.Core.Reply.{Reply, error}
use libvmod_redis.Core.Types.{Context, Db, Env, inc}
use libvmod_redis.Core.Valid.{with_stats}
use libvmod_redis.Core.Pipeline.{Replies, get_redis_repy}

-- tolower() of ASCII.
abbrev pub to_lower : ℕ → ℕ
to_lower c = if leb 65 c && leb c 90 then c + 32 else c

-- strcasecmp() == 0.
unfoldable pub str_case_eq : Str → Str → Bool
str_case_eq [] [] = true
str_case_eq [] (d ∷ ds) = false
str_case_eq (c ∷ cs) [] = false
str_case_eq (c ∷ cs) (d ∷ ds) = to_lower c == to_lower d && str_case_eq cs ds

-- strncmp(s, prefix, strlen(prefix)) == 0.
unfoldable pub has_prefix : Str → Str → Bool
has_prefix [] s = true
has_prefix (c ∷ cs) [] = false
has_prefix (c ∷ cs) (d ∷ ds) = c == d && has_prefix cs ds

-- "EVAL", "EVALSHA" and "NOSCRIPT".
abbrev pub eval_word : Str
eval_word = 69 ∷ 86 ∷ 65 ∷ 76 ∷ []

abbrev pub evalsha_word : Str
evalsha_word = 69 ∷ 86 ∷ 65 ∷ 76 ∷ 83 ∷ 72 ∷ 65 ∷ []

abbrev pub noscript_word : Str
noscript_word = 78 ∷ 79 ∷ 83 ∷ 67 ∷ 82 ∷ 73 ∷ 80 ∷ 84 ∷ []

-- One try: what is seen of the connections, the time, the address and the connection of a new context,
-- what others do while it waits, whether the workspace has room for the two copies and the hash, the
-- replies to the first and to the second command, and the error flag after the first.
pub record Try : Type 0 where
  pub env : Env
  pub now : ℕ
  pub id : ℕ
  pub dial : Option ℕ
  pub others : List (Db → Db)
  pub room_evalsha : Bool
  pub room_sha1 : Bool
  pub room_eval : Bool
  pub first : Replies
  pub first_err : Bool
  pub second : Replies

-- What has been said over a connection: the arguments as they are now, the reply, the database, and
-- whether the workspace was full.
pub record Talk : Type 0 where
  pub argv : List Str
  pub reply : Option Reply
  pub db : Db
  pub failed_ws : Bool

abbrev pub is_noscript : Bool → Option Reply → Bool
is_noscript err (some (error s)) = not err && has_prefix noscript_word s
is_noscript err _ = false

-- The command as it is.
unfoldable pub send_plain : Replies → Bool → Context → List Str → Db → Talk
send_plain replies asking c argv db = record {
  argv = argv;
  reply = (get_redis_repy db replies c argv asking).reply;
  db = db;
  failed_ws = false;
}

-- VRT_fail() follows: the arguments, of which one is NULL, are not used again.
abbrev pub full : List Str → Db → Talk
full argv db = record { argv = argv; reply = none; db = db; failed_ws = true }

-- EVAL again, after EVALSHA was answered by NOSCRIPT.
unfoldable pub send_eval : Try → Bool → Context → Str → List Str → Db → Talk
unfolding send_plain
send_eval t asking c script args db =
    if t.room_eval
    then send_plain t.second asking c (eval_word ∷ script ∷ args)
        (with_stats db (record (db.stats) { commands_noscript = inc db.stats.commands_noscript }))
    else full (eval_word ∷ script ∷ args) db

module _ (sha1 : Str → Str) where
  unfoldable pub send_evalsha : Try → Bool → Context → Str → List Str → Db → Talk
  unfolding send_plain send_eval
  send_evalsha t asking c script args db =
      let said = send_plain t.first asking c (evalsha_word ∷ sha1 script ∷ args) db in
      if not t.room_evalsha || not t.room_sha1
      then full (evalsha_word ∷ script ∷ args) db
      else if is_noscript t.first_err said.reply
      then send_eval t asking c script args db
      else said

  -- EVAL is sent as EVALSHA at first.
  unfoldable pub talk : Try → Bool → Context → List Str → Db → Talk
  unfolding send_evalsha send_plain
  talk t asking c [] db = send_plain t.first asking c [] db
  talk t asking c (command ∷ []) db = send_plain t.first asking c (command ∷ []) db
  talk t asking c (command ∷ script ∷ args) db =
      if str_case_eq command eval_word
      then send_evalsha t asking c script args db
      else send_plain t.first asking c (command ∷ script ∷ args) db
