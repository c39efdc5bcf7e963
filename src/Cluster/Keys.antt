-- ===== src/Cluster/Keys.antt =====
-- get_key_index() of src/cluster.c: which argument of a command is its key.
pub mod Named
use libvmod_redis.Base.{
  ℕ, Bool, true, false, ◌&&◌, ◌||◌, List, [], ◌∷◌, ◌++◌, ◌==◌, take, if◌then◌else◌, Str,
}
use libvmod_redis.Core.Reply.{ℤ, pos, negsuc}
use libvmod_redis.Core.Script.{to_lower}

-- '|'.
abbrev pub bar : ℕ
bar = 124

-- "|INFO|MULTI|EXEC|SLAVEOF|REPLICAOF|CONFIG|SHUTDOWN|SCRIPT|".
abbrev pub banned_commands : Str
banned_commands =
    124 ∷ 73 ∷ 78 ∷ 70 ∷ 79 ∷ 124 ∷ 77 ∷ 85 ∷ 76 ∷ 84 ∷ 73 ∷ 124 ∷ 69 ∷ 88 ∷ 69 ∷ 67 ∷ 124 ∷ 83 ∷ 76
    ∷ 65 ∷ 86 ∷ 69 ∷ 79 ∷ 70 ∷ 124 ∷ 82 ∷ 69 ∷ 80 ∷ 76 ∷ 73 ∷ 67 ∷ 65 ∷ 79 ∷ 70 ∷ 124 ∷ 67 ∷ 79 ∷ 78
    ∷ 70 ∷ 73 ∷ 71 ∷ 124 ∷ 83 ∷ 72 ∷ 85 ∷ 84 ∷ 68 ∷ 79 ∷ 87 ∷ 78 ∷ 124 ∷ 83 ∷ 67 ∷ 82 ∷ 73 ∷ 80 ∷ 84
    ∷ 124 ∷ []

-- "|EVAL|EVALSHA|EVAL_RO|EVALSHA_RO|".
abbrev pub key_index3_commands : Str
key_index3_commands =
    124 ∷ 69 ∷ 86 ∷ 65 ∷ 76 ∷ 124 ∷ 69 ∷ 86 ∷ 65 ∷ 76 ∷ 83 ∷ 72 ∷ 65 ∷ 124 ∷ 69 ∷ 86 ∷ 65 ∷ 76 ∷ 95
    ∷ 82 ∷ 79 ∷ 124 ∷ 69 ∷ 86 ∷ 65 ∷ 76 ∷ 83 ∷ 72 ∷ 65 ∷ 95 ∷ 82 ∷ 79 ∷ 124 ∷ []

-- strncasecmp(s, prefix, strlen(prefix)) == 0.
unfoldable pub has_case_prefix : Str → Str → Bool
has_case_prefix [] s = true
has_case_prefix (c ∷ cs) [] = false
has_case_prefix (c ∷ cs) (d ∷ ds) = to_lower c == to_lower d && has_case_prefix cs ds

-- strcasestr(haystack, needle) != NULL, for a needle that is not empty.
unfoldable pub strcasestr : Str → Str → Bool
strcasestr [] needle = false
strcasestr (c ∷ cs) needle = has_case_prefix needle (c ∷ cs) || strcasestr cs needle

-- snprintf() of "|%s|" in 64 bytes, the last of which is the NUL.
unfoldable pub barred : Str → Str
barred command = take 63 (bar ∷ (command ++ (bar ∷ [])))

unfoldable pub get_key_index : Str → ℤ
unfolding barred
get_key_index command =
    if strcasestr banned_commands (barred command)
    then negsuc 0
    else if strcasestr key_index3_commands (barred command)
    then pos 3
    else pos 1
