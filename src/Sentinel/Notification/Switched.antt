-- ===== src/Sentinel/Notification/Switched.antt =====
-- A failover that a Redis Sentinel announces to src/sentinel.c.
use libvmod_redis.Base.{
  ℕ, ◌+◌, ◌/◌, ◌%◌, ◌^◌, ◌<◌, ◌≡◌, refl, ap, ◌∙◌, Bool, false, true, Option, none, some, List, [],
  ◌∷◌, ◌++◌, ltb, ◌==◌, All, All-map, Str, arith, Bool-cases, inl, inr, if◌then◌else◌,
}
use libvmod_redis.Core.Reply.{Reply, Replies, pos, negsuc, string, array, cons, end}
use libvmod_redis.Core.Types.{Role, master, slave}
use libvmod_redis.Core.Registry.{atoi, str_eq}
use libvmod_redis.Core.Serialize.{codes}
use libvmod_redis.Cluster.Nodes.{decimal}
use libvmod_redis.Cluster.Nodes.Printing.{IsDigit, decimal-IsDigit, digits-decimal, atoi-IsDigit}
use libvmod_redis.Sentinel.Inventory.{State, store_sentinel_reply}
use libvmod_redis.Sentinel.Inventory.Lookup.{same, known, down_after, store_sentinel_reply-known}
use libvmod_redis.Sentinel.Notification.{
  flush, scan, strtok, switch_master, notify, parse_sentinel_notification,
}

abbrev pub is_word : Str → Bool
is_word [] = false
is_word (c ∷ cs) = true

-- A word of a payload.
pub record IsWord (w : Str) : Type 0 where
  pub begun : is_word w ≡ true
  pub spaceless : All (λ c. (c == 32) ≡ false) w

scan-word : (w t : Str) → All (λ c. (c == 32) ≡ false) w → scan (w ++ (32 ∷ t)) ≡ (w, strtok t)
unfolding scan strtok
scan-word [] t v = refl
scan-word (c ∷ w) t (u, v) = rw (scan-word w t v, u) refl

scan_last : (w : Str) → All (λ c. (c == 32) ≡ false) w → scan w ≡ (w, [])
unfolding scan
scan_last [] v = refl
scan_last (c ∷ w) (u, v) = rw (scan_last w v, u) refl

flush-word : (w : Str) (ts : List Str) → is_word w ≡ true → flush w ts ≡ w ∷ ts
flush-word [] ts e = absurd (ground (arith, e))
flush-word (c ∷ w) ts e = refl

strtok-word : (w t : Str) → IsWord w → strtok (w ++ (32 ∷ t)) ≡ w ∷ strtok t
unfolding strtok
strtok-word w t v =
    ap (λ (r : Str × List Str). flush r.0 r.1) (scan-word w t v.spaceless)
    ∙ flush-word w (strtok t) v.begun

strtok_last : (w : Str) → IsWord w → strtok w ≡ w ∷ []
unfolding strtok
strtok_last w v =
    ap (λ (r : Str × List Str). flush r.0 r.1) (scan_last w v.spaceless) ∙ flush-word w [] v.begun

decimal-begun : (n : ℕ) → is_word (decimal 10 n) ≡ true
unfolding decimal
decimal-begun n = elim (Bool-cases (ltb n 10)) [
  | inl k ↦ rw k refl
  | inr k ↦ rw k (grown (decimal 9 (n / 10)))
]
  where
    grown : (s : Str) → is_word (s ++ ((48 + n % 10) ∷ [])) ≡ true
    grown [] = refl
    grown (c ∷ s) = refl

decimal-IsWord : (n : ℕ) → IsWord (decimal 10 n)
decimal-IsWord n = record {
  begun = decimal-begun n;
  spaceless = All-map IsDigit _ (decimal 10 n) no_space (decimal-IsDigit 10 n);
}
  where
    no_space : (c : ℕ) → IsDigit c → (c == 32) ≡ false
    no_space c (low, high) = ground arith

pub atoi-decimal : (n : ℕ) → n < 2 ^ 32 → atoi (decimal 10 n) ≡ n
atoi-decimal n h =
    atoi-IsDigit (decimal 10 n) (decimal-IsDigit 10 n)
    ∙ ap (λ m. m % 2 ^ 32) (digits-decimal 10 n (omega (arith, h)))
    ∙ omega (arith, h)

-- What a Sentinel says of a failover.
pub record Failover : Type 0 where
  pub name : Str
  pub old_host : Str
  pub old_port : ℕ
  pub new_host : Str
  pub new_port : ℕ

pub record IsFailover (f : Failover) : Type 0 where
  pub name : IsWord f.name
  pub old_host : IsWord f.old_host
  pub old_port : f.old_port < 2 ^ 32
  pub new_host : IsWord f.new_host
  pub new_port : f.new_port < 2 ^ 32

unfoldable pub print_failover : Failover → Str
print_failover f =
    f.name
    ++ (32
        ∷ (f.old_host
            ++ (32
                ∷ (decimal 10 f.old_port ++ (32 ∷ (f.new_host ++ (32 ∷ decimal 10 f.new_port)))))))

strtok-print_failover :
    (f : Failover)
    → IsFailover f
    → strtok (print_failover f)
      ≡ f.name ∷ f.old_host ∷ decimal 10 f.old_port ∷ f.new_host ∷ decimal 10 f.new_port ∷ []
unfolding print_failover
strtok-print_failover f v =
    rw
      (
        strtok-word f.name _ v.name,
        strtok-word f.old_host _ v.old_host,
        strtok-word (decimal 10 f.old_port) _ (decimal-IsWord f.old_port),
        strtok-word f.new_host _ v.new_host,
        strtok_last (decimal 10 f.new_port) (decimal-IsWord f.new_port),
      )
      refl

told : (o : Option (Role × ℕ)) → down_after (pos 0) o ≡ 0
told none = refl
told (some (role, down)) = refl

-- The message of a subscription by a pattern.
abbrev pub switched : Reply → Failover → Replies
switched pattern f =
    cons (string (codes "pmessage"))
      (cons pattern (cons (string (codes "+switch-master")) (cons (string (print_failover f)) end)))

module _ (clock : ℕ → ℕ) (sentinel : ℕ) (pattern : Reply) (f : Failover) (st : State)
    (v : IsFailover f) where
  switch_master-print_failover :
      parse_sentinel_notification clock sentinel (some (array (switched pattern f))) st
      ≡ store_sentinel_reply clock sentinel f.new_host f.new_port master
          (pos 0)
          (store_sentinel_reply clock sentinel f.old_host f.old_port slave (negsuc 0) st)
  unfolding parse_sentinel_notification notify switch_master str_eq store_sentinel_reply
  switch_master-print_failover =
      rw
        (
          strtok-print_failover f v,
          atoi-decimal f.old_port v.old_port,
          atoi-decimal f.new_port v.new_port,
        )
        refl

  -- When a Sentinel announces a failover, in the words of its documentation, the new master is known as
  -- a master that is up, the old one as a slave with the down flag that it had (up, if it was not
  -- known), and nothing changes of the other servers.
  pub parse_sentinel_notification-known :
      (h : Str) (p : ℕ)
      → known h p
          (parse_sentinel_notification clock sentinel (some (array (switched pattern f))) st)
        ≡ (if same f.new_host f.new_port h p
            then some (master, 0)
            else if same f.old_host f.old_port h p
            then some (slave, down_after (negsuc 0) (known f.old_host f.old_port st))
            else known h p st)
  parse_sentinel_notification-known h p =
      let demoted = store_sentinel_reply clock sentinel f.old_host f.old_port slave (negsuc 0) st in
      ap (known h p) switch_master-print_failover
      ∙ store_sentinel_reply-known clock sentinel f.new_host f.new_port master (pos 0) demoted h p
      ∙ ap (λ n. if same f.new_host f.new_port h p then some (master, n) else known h p demoted)
          (told (known f.new_host f.new_port demoted))
      ∙ ap (λ o. if same f.new_host f.new_port h p then some (master, 0) else o)
          (store_sentinel_reply-known clock sentinel f.old_host f.old_port slave (negsuc 0) st h p)
