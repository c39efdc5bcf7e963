-- ===== src/Core/Registry.antt =====
-- The registration of servers in src/core.c: new_redis_server(), the discovery of their role, and
-- unsafe_add_redis_server(). Weight rules are regular expressions of Varnish, so whether one matches
-- is an argument, and so is what a server answers.
pub mod Invariant
pub mod Adding
pub mod Listed
pub mod Others
use libvmod_redis.Base.{
  ℕ, ◌+◌, ◌-◌, ◌*◌, ◌%◌, ◌^◌, Bool, true, false, ◌&&◌, ◌||◌, Option, none, some, List, [], ◌∷◌,
  ◌++◌, ltb, leb, ◌==◌, not, if◌then◌else◌, Str,
}
use libvmod_redis.Core.Reply.{Reply, Replies, string, array, cons, end}
use libvmod_redis.Core.Types.{
  Ptr, Role, slave, master, tbd, role_eq, Location, host, socket, Server, Db, inc, set_mem,
  set_queue, nredis_server_weights,
}
use libvmod_redis.Core.Valid.{with_stats}
use libvmod_redis.Core.Connect.{with_server, new_rcontext}
use libvmod_redis.Core.Plan.Servers.{Cell, grid, remove}

-- strcmp() == 0.
unfoldable pub str_eq : Str → Str → Bool
str_eq [] [] = true
str_eq [] (d ∷ ds) = false
str_eq (c ∷ cs) [] = false
str_eq (c ∷ cs) (d ∷ ds) = c == d && str_eq cs ds

-- strrchr(): the text before the last `x`, and the text after it.
abbrev split_at : ℕ → ℕ → Str → Option (Str × Str) → Option (Str × Str)
split_at x c s none = if c == x then some ([], s) else none
split_at x c s (some (a, b)) = some (c ∷ a, b)

unfoldable pub strrchr : ℕ → Str → Option (Str × Str)
strrchr x [] = none
strrchr x (c ∷ s) = split_at x c s (strrchr x s)

-- atoi(), as an unsigned. C leaves a number that an int does not hold undefined; here it wraps.
unfoldable pub digits : ℕ → Str → ℕ
digits n [] = n
digits n (c ∷ s) =
    let more = digits (10 * n + (c - 48)) s in if leb 48 c && leb c 57 then more else n

unfoldable pub signed : Str → ℕ
unfolding digits
signed [] = 0
signed (c ∷ s) =
    if c == 45
    then (2 ^ 32 - digits 0 s % 2 ^ 32) % 2 ^ 32
    else if c == 43
    then digits 0 s % 2 ^ 32
    else digits 0 (c ∷ s) % 2 ^ 32

unfoldable pub atoi : Str → ℕ
unfolding signed
atoi [] = 0
atoi (c ∷ s) =
    let more = atoi s in if c == 32 || (leb 9 c && leb c 13) then more else signed (c ∷ s)

-- The location of a server; 58 is ':'.
unfoldable pub parse_location : Str → Option (Str × Str) → Location
unfolding atoi
parse_location location none = socket location
parse_location location (some (a, b)) = host a (atoi b)

abbrev pub is_socket : Location → Bool
is_socket (host a p) = false
is_socket (socket p) = true

-- new_redis_server().
unfoldable pub new_redis_server : Db → Str → Role → Option Server
unfolding strrchr parse_location
new_redis_server db location role =
    let parsed = parse_location location (strrchr 58 location) in
    if db.enabled && is_socket parsed
    then none
    else some (record {
      db = db.id;
      raw = location;
      location = parsed;
      role = role;
      weight = 0;
      ncontexts = 0;
      free_contexts = [];
      busy_contexts = [];
      slots = λ i. false;
      sickness_tst = 0;
      sickness_exp = 0;
    })

-- "master" and "slave".
abbrev pub master_word : Str
master_word = 109 ∷ 97 ∷ 115 ∷ 116 ∷ 101 ∷ 114 ∷ []

abbrev pub slave_word : Str
slave_word = 115 ∷ 108 ∷ 97 ∷ 118 ∷ 101 ∷ []

-- The role in the reply to ROLE; `none` is no reply, or an error of the connection.
unfoldable pub role_of : Option Reply → Role
unfolding str_eq
role_of (some (array (cons (string s) rest))) =
    if str_eq s master_word then master else if str_eq s slave_word then slave else tbd
role_of _ = tbd

-- unsafe_discover_redis_server_role().
abbrev asked : Option Reply → Option ℕ × Db → Role × Db
asked answer (none, db) = (tbd, db)
asked answer (some _, db) = (role_of answer, db)

unfoldable pub discover_role : ℕ → Option ℕ → Option Reply → Ptr → Db → Role × Db
unfolding role_of new_rcontext
discover_role now dial answer p db = asked answer (new_rcontext now true dial p db)

-- weight_rule_t; `vre` names the compiled expression.
pub record WeightRule : Type 0 where
  pub weight : ℕ
  pub vre : ℕ

unfoldable pub weigh : (Str → ℕ → Bool) → Str → List WeightRule → ℕ
weigh re_match raw [] = nredis_server_weights - 1
weigh re_match raw (r ∷ rs) = if re_match raw r.vre then r.weight else weigh re_match raw rs

unfoldable pub find_in : (Ptr → Server) → Str → List Ptr → Option Ptr
unfolding str_eq
find_in mem location [] = none
find_in mem location (p ∷ ps) =
    if str_eq (mem p).raw location then some p else find_in mem location ps

-- The first server with a location, and the queue that it stands in.
abbrev in_cell : Cell → Option Ptr → Option (Cell × Ptr) → Option (Cell × Ptr)
in_cell c none more = more
in_cell c (some p) more = some (c, p)

unfoldable pub find_server : Db → Str → List Cell → Option (Cell × Ptr)
unfolding find_in
find_server db location [] = none
find_server db location ((w, r) ∷ cs) =
    in_cell (w, r) (find_in db.mem location (db.servers w r)) (find_server db location cs)

-- VTAILQ_REMOVE from a queue, and VTAILQ_INSERT_TAIL in the queue of the server's weight and role.
unfoldable pub take_out : ℕ → Role → Ptr → Db → Db
take_out w r p db = record db { servers = set_queue db.servers w r (remove p (db.servers w r)) }

unfoldable pub insert : Ptr → Db → Db
insert p db =
    let s = db.mem p in
    record db {
      servers = set_queue db.servers s.weight s.role (db.servers s.weight s.role ++ (p ∷ []));
    }

-- A server that was not known. `p` is the address that malloc() returns.
unfoldable pub create :
    (Str → ℕ → Bool)
    → List WeightRule
    → ℕ
    → Option ℕ
    → Option Reply
    → Ptr
    → Option Server
    → Db
    → Option Ptr × Db
unfolding discover_role weigh insert
create re_match rules now dial answer p none db =
    (none, with_stats db (record (db.stats) { servers_failed = inc db.stats.servers_failed }))
create re_match rules now dial answer p (some s) db =
    let placed = with_server db p s in
    let (role, called) =
      if role_eq s.role tbd then discover_role now dial answer p placed else (s.role, placed) in
    let named = with_server called p (record (called.mem p) {
      role = role;
      weight = if is_socket s.location then 0 else weigh re_match s.raw rules;
    }) in
    (
      some p,
      insert p (
          with_stats named
            (record (named.stats) { servers_total = inc named.stats.servers_total })),
    )

-- A server that is registered again. `now2` is the time of the second call of time().
unfoldable pub update : ℕ → ℕ → Option ℕ → Option Reply → Role → Ptr → Db → Option Ptr × Db
unfolding discover_role insert
update now now2 dial answer role p db =
    let (found, called) =
      if role_eq role tbd then discover_role now dial answer p db else (role, db) in
    let s = called.mem p in
    let updated = with_server called p (record s {
      role = if role_eq found tbd then s.role else found;
      sickness_exp = if ltb now2 s.sickness_exp then now2 else s.sickness_exp;
    }) in
    (some p, insert p updated)

-- unsafe_add_redis_server().
abbrev add_found :
    (Str → ℕ → Bool)
    → List WeightRule
    → ℕ
    → ℕ
    → Option ℕ
    → Option Reply
    → Ptr
    → Db
    → Str
    → Role
    → Option (Cell × Ptr)
    → Option Ptr × Db
add_found re_match rules now now2 dial answer fresh db location role none =
    create re_match rules now dial answer fresh (new_redis_server db location role) db
add_found re_match rules now now2 dial answer fresh db location role (some ((w, r), p)) =
    update now now2 dial answer role p (take_out w r p db)

unfoldable pub unsafe_add_redis_server :
    (Str → ℕ → Bool)
    → List WeightRule
    → ℕ
    → ℕ
    → Option ℕ
    → Option Reply
    → Ptr
    → Db
    → Str
    → Role
    → Option Ptr × Db
unsafe_add_redis_server re_match rules now now2 dial answer fresh db location role =
    add_found re_match rules now now2 dial answer fresh db location role
      (find_server db location grid)
