-- ===== src/Examples/Tries.antt =====
-- A server with scripts, and a try of a command at it.
use libvmod_redis.Base.{
  Bool, true, false, Option, none, some, List, [], ◌∷◌, Str, length, get_elem?, ltb,
}
use libvmod_redis.Core.Reply.{Reply, error, string}
use libvmod_redis.Core.Pipeline.{Replies}
use libvmod_redis.Core.Script.{Try, noscript_word}
use libvmod_redis.Core.Execute.{Planning}
use libvmod_redis.Examples.Data.{env}

-- A server that knows no script by its hash, and echoes the first argument of any other command.
abbrev pub refuse : Str → Bool → Option Reply
refuse key true = some (error noscript_word)
refuse key false = some (string key)

abbrev pub serve : List Str → Option Reply
serve [] = none
serve (command ∷ []) = some (error [])
serve (command ∷ key ∷ args) = refuse (echo args) (ltb 4 (length command))
  where
    echo : List Str → Str
    echo [] = []
    echo (arg ∷ args) = arg

abbrev pub answer : Option (List Str) → Option Reply
answer none = none
answer (some argv) = serve argv

abbrev pub replies : Replies
replies sent n = answer (get_elem? sent n)

abbrev pub sha1 : Str → Str
sha1 script = length script ∷ []

abbrev pub first_try : Try
first_try = record {
  env = env;
  now = 5;
  id = 100;
  dial = some 2;
  others = [];
  room_evalsha = true;
  room_sha1 = true;
  room_eval = true;
  first = replies;
  first_err = false;
  second = replies;
}

abbrev pub planning : Planning
planning = record { env = env; now = 5; has_room = true; ws1 = 64; ws2 = 64 }
