-- ===== src/Sentinel/Notification.antt =====
-- parse_sentinel_notification() of src/sentinel.c, with RESP3 compiled in.
pub mod Switched
use libvmod_redis.Base.{
  ℕ, Bool, true, false, ◌&&◌, ◌||◌, not, Option, none, some, List, [], ◌∷◌, ◌==◌, if◌then◌else◌,
  Str,
}
use libvmod_redis.Core.Reply.{pos, negsuc, Reply, Replies, string, array, push, cons, end}
use libvmod_redis.Core.Types.{Role, master, slave}
use libvmod_redis.Core.Registry.{str_eq, atoi, master_word, slave_word}
use libvmod_redis.Core.Serialize.{codes}
use libvmod_redis.Sentinel.Inventory.{State, store_sentinel_reply}

-- strtok_r() on spaces, called until it returns NULL: the word that a text begins with, and the words
-- after it.
abbrev pub flush : Str → List Str → List Str
flush [] ts = ts
flush (c ∷ cs) ts = (c ∷ cs) ∷ ts

unfoldable pub scan : Str → Str × List Str
scan [] = ([], [])
scan (c ∷ cs) = let (word, ts) = scan cs in if c == 32 then ([], flush word ts) else (c ∷ word, ts)

unfoldable pub strtok : Str → List Str
unfolding scan
strtok s = flush (scan s).0 (scan s).1

-- The event and the payload of a notification.
abbrev message_of : Replies → Option (Str × Str)
message_of (cons (string kind) (cons _ (cons (string event) (cons (string payload) end)))) =
    if str_eq kind (codes "pmessage") then some (event, payload) else none
message_of _ = none

abbrev pub message : Option Reply → Option (Str × Str)
message (some (array es)) = message_of es
message (some (push es)) = message_of es
message _ = none

abbrev pub instance_type : Str → Option Role
instance_type t =
    if str_eq t master_word then some master else if str_eq t slave_word then some slave else none

abbrev pub is_down_event : Str → Bool
is_down_event event =
    str_eq event (codes "+sdown")
    || str_eq event (codes "-sdown")
    || str_eq event (codes "+odown")
    || str_eq event (codes "-odown")

-- event[0] == '+'.
abbrev pub is_plus : Str → Bool
is_plus [] = false
is_plus (c ∷ cs) = c == 43

module _ (clock : ℕ → ℕ) (sentinel : ℕ) where
  abbrev pub report_typed : Str → Str → Str → Option Role → State → State
  report_typed event ip port none st = st
  report_typed event ip port (some role) st =
      store_sentinel_reply clock sentinel ip (atoi port) role (pos (if is_plus event then 1 else 0))
        st

  -- <instance type> <master name> <IP> <port> ...
  unfoldable pub report_down : Str → List Str → State → State
  unfolding atoi
  report_down event (type ∷ name ∷ ip ∷ port ∷ rest) st =
      report_typed event ip port (instance_type type) st
  report_down event _ st = st

  -- <master name> <old IP> <old port> <new IP> <new port> ...
  unfoldable pub switch_master : List Str → State → State
  unfolding atoi
  switch_master (name ∷ old_ip ∷ old_port ∷ new_ip ∷ new_port ∷ rest) st =
      store_sentinel_reply clock sentinel new_ip (atoi new_port) master (pos 0)
        (store_sentinel_reply clock sentinel old_ip (atoi old_port) slave (negsuc 0) st)
  switch_master _ st = st

  unfoldable pub notify : Option (Str × Str) → State → State
  unfolding strtok report_down switch_master
  notify none st = st
  notify (some (event, payload)) st =
      if is_down_event event
      then report_down event (strtok payload) st
      else if str_eq event (codes "+switch-master")
      then switch_master (strtok payload) st
      else st

  unfoldable pub parse_sentinel_notification : Option Reply → State → State
  unfolding notify
  parse_sentinel_notification reply st = notify (message reply) st
