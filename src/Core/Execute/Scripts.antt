-- ===== src/Core/Execute/Scripts.antt =====
-- EVAL by way of EVALSHA in redis_execute() of src/core.c.
use libvmod_redis.Base.{
  ℕ, ◌≡◌, ◌⊎◌, refl, sym, ap, ◌∙◌, Bool, true, false, ◌||◌, not, Option, some, List, [], ◌∷◌,
  get_elem?, Str, arith, Bool-cases, inl, inr,
}
use libvmod_redis.Core.Reply.{Reply, error}
use libvmod_redis.Core.Types.{Context, Db, inc}
use libvmod_redis.Core.Valid.{with_stats}
use libvmod_redis.Core.Pipeline.{Replies, get_redis_repy}
use libvmod_redis.Core.Pipeline.InStep.{get_redis_repy-IsInStep}
use libvmod_redis.Core.Script.{
  Try, talk, is_noscript, has_prefix, str_case_eq, eval_word, evalsha_word, noscript_word,
  send_plain, send_eval, send_evalsha,
}

-- A connection to a server: the replies come in the order of the commands, and each is what `serve`
-- says.
abbrev pub Serves : (List Str → Option Reply) → Replies → Type 0
Serves serve replies =
    (sent : List (List Str)) (n : ℕ) (cmd : List Str)
    → get_elem? sent n ≡ some cmd
    → replies sent n ≡ serve cmd

send_plain-reply :
    (serve : List Str → Option Reply) (replies : Replies) (asking : Bool) (c : Context)
    (argv : List Str) (db : Db)
    → Serves serve replies
    → (send_plain replies asking c argv db).reply ≡ serve argv
unfolding send_plain
send_plain-reply serve replies asking c argv db s =
    let x = get_redis_repy-IsInStep db replies c argv asking in
    x.answer ∙ s (get_redis_repy db replies c argv asking).sent x.place argv x.command

-- A server with scripts: it answers EVALSHA like EVAL, or by NOSCRIPT, and does not tell `EVAL` from
-- `eval`.
pub record RunsScripts (sha1 : Str → Str) (serve : List Str → Option Reply) : Type 0 where
  pub by_hash :
      (script : Str) (args : List Str)
      → (serve (evalsha_word ∷ sha1 script ∷ args) ≡ serve (eval_word ∷ script ∷ args))
        ⊎ ((s : Str) × (serve (evalsha_word ∷ sha1 script ∷ args) ≡ some (error s))
            × (has_prefix noscript_word s ≡ true))
  pub any_case :
      (command : Str) (args : List Str)
      → str_case_eq command eval_word ≡ true
      → serve (command ∷ args) ≡ serve (eval_word ∷ args)

module _ (sha1 : Str → Str) (serve : List Str → Option Reply) (t : Try) (asking : Bool)
    (c : Context) (db : Db) (runs : RunsScripts sha1 serve) (first : Serves serve t.first)
    (second : Serves serve t.second) (sound : t.first_err ≡ false) (room1 : t.room_evalsha ≡ true)
    (room2 : t.room_sha1 ≡ true) (room3 : t.room_eval ≡ true) where
  send_eval-reply :
      (script : Str) (args : List Str)
      → (send_eval t asking c script args db).reply ≡ serve (eval_word ∷ script ∷ args)
  unfolding send_eval
  send_eval-reply script args =
      let counted =
        with_stats db (record (db.stats) { commands_noscript = inc db.stats.commands_noscript }) in
      rw room3 (send_plain-reply serve t.second asking c (eval_word ∷ script ∷ args) counted second)

  send_evalsha-reply :
      (script : Str) (args : List Str)
      → (send_evalsha sha1 t asking c script args db).reply ≡ serve (eval_word ∷ script ∷ args)
  unfolding send_evalsha
  send_evalsha-reply script args =
      let cmd = evalsha_word ∷ sha1 script ∷ args in
      let said = send_plain t.first asking c cmd db in
      let answer = send_plain-reply serve t.first asking c cmd db first in
      let roomy : (not t.room_evalsha || not t.room_sha1) ≡ false = ground arith in
      elim (Bool-cases (is_noscript t.first_err said.reply)) [
        | inl k ↦ rw (roomy, k) (send_eval-reply script args)
        | inr k ↦
            rw (roomy, k)
              (elim (runs.by_hash script args) [
                | inl same ↦ answer ∙ same
                | inr (s, refused, unknown) ↦
                    let seen : is_noscript t.first_err said.reply ≡ true =
                      ap (is_noscript t.first_err) (answer ∙ refused) ∙ known s unknown in
                    absurd (ground (arith, k, seen))
              ])
      ]
    where
      known :
          (s : Str)
          → has_prefix noscript_word s ≡ true
          → is_noscript t.first_err (some (error s)) ≡ true
      known s e = rw (sound, e) refl

  -- With a server that runs scripts, room in the workspace and no error of the connection, a command
  -- gets the reply that the server gives to it, and the caller does not notice that EVAL was sent as
  -- EVALSHA.
  pub talk-reply : (argv : List Str) → (talk sha1 t asking c argv db).reply ≡ serve argv
  unfolding talk
  talk-reply [] = send_plain-reply serve t.first asking c [] db first
  talk-reply (command ∷ []) = send_plain-reply serve t.first asking c (command ∷ []) db first
  talk-reply (command ∷ script ∷ args) = elim (Bool-cases (str_case_eq command eval_word)) [
    | inl k ↦ rw k (send_evalsha-reply script args ∙ sym (runs.any_case command (script ∷ args) k))
    | inr k ↦ rw k (send_plain-reply serve t.first asking c (command ∷ script ∷ args) db first)
  ]

-- The fallback to EVAL works only once: when the first answer to the hash of a script is not NOSCRIPT,
-- but an error such as a redirection or none at all, a later round starts from the arguments as they
-- are then, and asks for the hash as for a command of the caller. Whatever error comes back, NOSCRIPT
-- too, is the reply, whether or not there is room for EVAL.
pub talk-argv-noscript :
    (sha1 : Str → Str) (t t' : Try) (asking asking' : Bool) (c c' : Context) (db db' : Db)
    (script : Str) (args : List Str) (s : Str)
    → t.room_evalsha ≡ true
    → t.room_sha1 ≡ true
    → is_noscript t.first_err
        (get_redis_repy db t.first c (evalsha_word ∷ sha1 script ∷ args) asking).reply
      ≡ false
    → (get_redis_repy db' t'.first c' (evalsha_word ∷ sha1 script ∷ args) asking').reply
      ≡ some (error s)
    → let later = (talk sha1 t asking c (eval_word ∷ script ∷ args) db).argv in
      (talk sha1 t' asking' c' later db').reply ≡ some (error s)
unfolding talk send_evalsha send_plain str_case_eq
talk-argv-noscript sha1 t t' asking asking' c c' db db' script args s room1 room2 known unknown =
    rw (room1, room2, known) unknown
