-- ===== src/Core/Pipeline.antt =====
-- get_redis_repy() of src/core.c: the commands that it sends in one go, and the reply that it takes.
-- `replies sent n` is what the n-th call of redisGetReply() gives when `sent` was sent; `none` is a
-- NULL reply.
pub mod InStep
use libvmod_redis.Base.{
  ℕ, ◌+◌, Bool, true, false, ◌&&◌, Option, List, [], ◌∷◌, ◌++◌, if◌then◌else◌, Str,
}
use libvmod_redis.Core.Reply.{Reply}
use libvmod_redis.Core.Types.{slave, role_eq, Context, Db}

-- "READONLY", "READWRITE" and "ASKING".
abbrev pub readonly_word : Str
readonly_word = 82 ∷ 69 ∷ 65 ∷ 68 ∷ 79 ∷ 78 ∷ 76 ∷ 89 ∷ []

abbrev pub readwrite_word : Str
readwrite_word = 82 ∷ 69 ∷ 65 ∷ 68 ∷ 87 ∷ 82 ∷ 73 ∷ 84 ∷ 69 ∷ []

abbrev pub asking_word : Str
asking_word = 65 ∷ 83 ∷ 75 ∷ 73 ∷ 78 ∷ 71 ∷ []

-- What was sent, how many replies were fetched, and the reply that counts.
pub record Exchange : Type 0 where
  pub sent : List (List Str)
  pub fetched : ℕ
  pub reply : Option Reply

-- redisAppendCommand() of one word, under a flag.
abbrev pub append_if : Bool → Str → List (List Str) → List (List Str)
append_if flag word sent = if flag then sent ++ ((word ∷ []) ∷ []) else sent

-- A reply that is fetched and released, under a flag.
abbrev pub skip_if : Bool → ℕ → ℕ
skip_if flag n = if flag then n + 1 else n

-- The server's side of an exchange.
abbrev pub Replies : Type 0
Replies = List (List Str) → ℕ → Option Reply

unfoldable pub pipeline : Replies → Bool → Bool → List Str → Exchange
pipeline replies readonly asking argv =
    let before = append_if asking asking_word (append_if readonly readonly_word []) in
    let skipped = skip_if asking (skip_if readonly 0) in
    let sent = append_if readonly readwrite_word (before ++ (argv ∷ [])) in
    record { sent = sent; fetched = skip_if readonly (skipped + 1); reply = replies sent skipped }

unfoldable pub get_redis_repy : Db → Replies → Context → List Str → Bool → Exchange
unfolding pipeline
get_redis_repy db replies c argv asking =
    pipeline replies (db.enabled && role_eq (db.mem c.server).role slave) asking argv
