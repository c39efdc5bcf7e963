-- ===== src/Cluster/Hops/Final.antt =====
-- The rounds of cluster_execute() of src/cluster.c: how many there are, and with what reply.
use libvmod_redis.Base.{
  ℕ, zero, suc, ◌+◌, ◌≤◌, ◌≡◌, refl, sym, ap, ◌∙◌, Bool, true, false, ◌&&◌, Option, none, some,
  List, leb, Str, arith, Bool-cases, Option-cases, inl, inr,
}
use libvmod_redis.Core.Reply.{Reply, error}
use libvmod_redis.Core.Registry.{unsafe_add_redis_server}
use libvmod_redis.Core.Types.{tbd, Ptr, Task, Db}
use libvmod_redis.Core.Script.{has_prefix}
use libvmod_redis.Core.Execute.{done, is_going, Loop, redis_execute}
use libvmod_redis.Core.Execute.Ends.{redis_execute-IsOver}
use libvmod_redis.Cluster.Slot.{get_cluster_slot}
use libvmod_redis.Cluster.Hops.{
  Around, Hopping, is_redirection, moved_word, redirect, located, follow, check_reply, is_done,
  settle, key_of, max_hops, redirect_location, one_hop, hop_on, execute_at, cluster_execute,
}

-- A reply that is no redirection, if any.
abbrev pub IsPlain : Option Reply → Type 0
IsPlain o = (text : Str) → o ≡ some (error text) → is_redirection text ≡ false

-- A redirection keeps the counters, and leaves no reply.
record IsFollowed (h h' : Hopping) : Type 0 where
  retries : h'.retries ≡ h.retries
  rounds : h'.rounds ≡ h.rounds
  result : h'.result ≡ none

follow-IsFollowed :
    (a : Around) (text : Str) (h : Hopping) (o : Option Ptr × Db) → IsFollowed h (follow a text h o)
unfolding follow
follow-IsFollowed a text h (none, db) = record { retries = refl; rounds = refl; result = refl }
follow-IsFollowed a text h (some server, db) = elim (Bool-cases (has_prefix moved_word text)) [
  | inl k ↦ rw k (record { retries = refl; rounds = refl; result = refl })
  | inr k ↦ rw k (record { retries = refl; rounds = refl; result = refl })
]

redirect-IsFollowed : (a : Around) (text : Str) (h : Hopping) → IsFollowed h (redirect a text h)
unfolding redirect located
redirect-IsFollowed a text h = at (redirect_location text)
  where
    at : (o : Option Str) → IsFollowed h (located a text h o)
    at none = record { retries = refl; rounds = refl; result = refl }
    at (some location) = follow-IsFollowed a text h (
        unsafe_add_redis_server a.setting.re_match a.setting.rules a.now a.now2 a.dial a.answer
          h.next h.db location tbd)

-- A round.
record IsHop (max_retries : ℕ) (h h' : Hopping) : Type 0 where
  bounded : h'.retries ≤ max_retries
  rounds : h'.rounds ≡ h.rounds + 1
  plain : IsPlain h'.result

check_reply-IsHop :
    (max_retries : ℕ) (a : Around) (h : Hopping) (o : Option Reply)
    → h.retries ≤ max_retries
    → h.result ≡ o
    → let h' = check_reply a h o in
      (h'.retries ≤ max_retries) × (h'.rounds ≡ h.rounds) × IsPlain h'.result
unfolding check_reply
check_reply-IsHop max_retries a h (some (error text)) b e =
    let f = redirect-IsFollowed a text h in
    elim (Bool-cases (is_redirection text)) [
      | inl k ↦ rw k (
        omega (arith, f.retries),
        f.rounds,
        λ text' e'. absurd (ground (arith, sym f.result ∙ e')),
      )
      | inr k ↦ rw k (b, refl, λ text' e'. cc (k, sym e ∙ e'))
    ]
check_reply-IsHop max_retries a h o b e = (b, refl, λ text' e'. absurd (ground (arith, sym e ∙ e')))

-- After at most `n` rounds, the reply is no redirection.
pub record IsFinal (max_retries n : ℕ) (h : Hopping) : Type 0 where
  pub bounded : h.retries ≤ max_retries
  pub few : h.rounds ≤ n
  pub plain : IsPlain h.result

-- What the last round leaves is what the command has come to in it.
pub record IsLast (l : Loop) (h : Hopping) : Type 0 where
  pub status : h.status ≡ l.status
  pub result : l.status ≡ done → h.result ≡ l.result

check_reply-plain :
    (a : Around) (h : Hopping) (o : Option Reply) → IsPlain o → check_reply a h o ≡ h
unfolding check_reply
check_reply-plain a h (some (error text)) p = rw (p text refl) refl
check_reply-plain a h o p = refl

module _ (sha1 : Str → Str) where
  one_hop-IsHop :
      (a : Around) (max_retries : ℕ) (m : Bool) (slot : ℕ) (h : Hopping)
      → h.retries ≤ max_retries
      → IsHop max_retries h (one_hop sha1 a max_retries m slot h)
  unfolding one_hop
  one_hop-IsHop a max_retries m slot h b =
      let l =
        redis_execute sha1 a.planning a.tries h.db h.task max_retries h.argv h.retries h.server
          h.asking m slot in
      let o =
        redis_execute-IsOver sha1 a.planning a.tries h.db h.task max_retries h.argv h.retries
          h.server h.asking m slot b in
      elim (Bool-cases (is_done l.status)) [
        | inl k ↦
            let (x, y, z) = check_reply-IsHop max_retries a _ l.result o.bounded refl in
            rw k (record { bounded = x; rounds = y; plain = z })
        | inr k ↦ rw k (record {
          bounded = o.bounded;
          rounds = refl;
          plain = λ text e. absurd (ground (arith, e));
        })
      ]

  settle-IsFinal :
      (max_retries n : ℕ) (h h' : Hopping)
      → IsHop max_retries h h'
      → h'.rounds ≤ n
      → IsFinal max_retries n (settle h')
  settle-IsFinal max_retries n h h' x r = elim (Bool-cases (is_going h'.status)) [
    | inl k ↦ rw k (record { bounded = x.bounded; few = r; plain = x.plain })
    | inr k ↦ rw k (record { bounded = x.bounded; few = r; plain = x.plain })
  ]

  hop_on-IsFinal :
      (hops : ℕ) (around : ℕ → Around) (max_retries : ℕ) (m : Bool) (slot : ℕ) (h : Hopping)
      → h.retries ≤ max_retries
      → IsFinal max_retries (h.rounds + (hops + 1)) (hop_on sha1 hops around max_retries m slot h)
  unfolding hop_on
  hop_on-IsFinal zero around max_retries m slot h b =
      let x = one_hop-IsHop (around h.rounds) max_retries m slot h b in
      settle-IsFinal max_retries _ h _ x (omega (arith, x.rounds))
  hop_on-IsFinal (suc hops) around max_retries m slot h b =
      let h' = one_hop sha1 (around h.rounds) max_retries m slot h in
      let x = one_hop-IsHop (around h.rounds) max_retries m slot h b in
      elim (is_going h'.status && leb h'.retries max_retries)
        as (λ again. IsFinal max_retries (h.rounds + (suc hops + 1)) (elim again [
          | true ↦ hop_on sha1 hops around max_retries m slot h'
          | false ↦ settle h'
        ])) [
          | true ↦
              let v = hop_on-IsFinal hops around max_retries m slot h' x.bounded in
              record { bounded = v.bounded; few = omega (arith, v.few, x.rounds); plain = v.plain }
          | false ↦ settle-IsFinal max_retries _ h h' x (omega (arith, x.rounds))
        ]

  -- Whatever the servers answer, cluster_execute() makes at most one round more than the redirections that
  -- the database allows, spends no more than the retries that there are, if it starts within them, and has no redirection as its reply.
  pub cluster_execute-IsFinal :
      (crc16 : Str → ℕ) (around : ℕ → Around) (db : Db) (next : Ptr) (t : Task) (max_retries : ℕ)
      (argv : List Str) (retries : ℕ) (m : Bool)
      → retries ≤ max_retries
      → IsFinal max_retries
          (max_hops db + 1)
          (cluster_execute sha1 crc16 around db next t max_retries argv retries m)
  unfolding cluster_execute execute_at
  cluster_execute-IsFinal crc16 around db next t max_retries argv retries m b =
      elim (Option-cases (key_of argv)) [
        | inl k ↦ rw k (record {
          bounded = b;
          few = omega arith;
          plain = λ text e. absurd (ground (arith, e));
        })
        | inr (key, k) ↦
            let v =
              hop_on-IsFinal (max_hops db) around max_retries m (get_cluster_slot crc16 key) _ b in
            rw k (record { bounded = v.bounded; few = omega (arith, v.few); plain = v.plain })
      ]

  -- A round whose reply is no redirection is the last one.
  one_hop-plain :
      (a : Around) (max_retries : ℕ) (m : Bool) (slot : ℕ) (h : Hopping)
      → let l =
          redis_execute sha1 a.planning a.tries h.db h.task max_retries h.argv h.retries h.server
            h.asking m slot in
        IsPlain l.result → IsLast l (one_hop sha1 a max_retries m slot h)
  unfolding one_hop
  one_hop-plain a max_retries m slot h p =
      let l =
        redis_execute sha1 a.planning a.tries h.db h.task max_retries h.argv h.retries h.server
          h.asking m slot in
      elim (Bool-cases (is_done l.status)) [
        | inl k ↦
            rw (k, check_reply-plain a _ l.result p) (record { status = refl; result = λ e. refl })
        | inr k ↦ rw k (record { status = refl; result = λ e. absurd (ground (arith, k, e)) })
      ]

  settle_last : (l : Loop) (h : Hopping) → is_going l.status ≡ false → IsLast l h → settle h ≡ h
  settle_last l h g v = rw (ap is_going v.status ∙ g) refl

  hop_on-plain :
      (hops : ℕ) (around : ℕ → Around) (max_retries : ℕ) (m : Bool) (slot : ℕ) (h : Hopping)
      → let a = around h.rounds in
        let l =
          redis_execute sha1 a.planning a.tries h.db h.task max_retries h.argv h.retries h.server
            h.asking m slot in
        IsPlain l.result
        → is_going l.status ≡ false
        → IsLast l (hop_on sha1 hops around max_retries m slot h)
  unfolding hop_on
  hop_on-plain zero around max_retries m slot h p g =
      let v = one_hop-plain (around h.rounds) max_retries m slot h p in rw (settle_last _ _ g v) v
  hop_on-plain (suc hops) around max_retries m slot h p g =
      let v = one_hop-plain (around h.rounds) max_retries m slot h p in
      let h' = one_hop sha1 (around h.rounds) max_retries m slot h in
      let l =
        redis_execute sha1 (around h.rounds).planning (around h.rounds).tries h.db h.task
          max_retries h.argv h.retries h.server h.asking m slot in
      let stopped : is_going h'.status ≡ false = ap is_going v.status ∙ g in
      (elim (is_going h'.status && leb h'.retries max_retries)
          as (λ again.
            again ≡ false
            → IsLast l (elim again [
              | true ↦ hop_on sha1 hops around max_retries m slot h'
              | false ↦ settle h'
            ])) [
              | true ↦ λ e. absurd (ground (arith, e))
              | false ↦ λ e. rw (settle_last l h' g v) v
            ])
        (ap (λ b. b && leb h'.retries max_retries) stopped)

  -- If the reply to the first round is no redirection, it is the reply of cluster_execute().
  pub cluster_execute-plain :
      (crc16 : Str → ℕ) (around : ℕ → Around) (db : Db) (next : Ptr) (t : Task) (max_retries : ℕ)
      (argv : List Str) (retries : ℕ) (m : Bool) (key : Str)
      → key_of argv ≡ some key
      → let a = around 0 in
        let l =
          redis_execute sha1 a.planning a.tries db t max_retries argv retries none false m
            (get_cluster_slot crc16 key) in
        IsPlain l.result
        → is_going l.status ≡ false
        → IsLast l (cluster_execute sha1 crc16 around db next t max_retries argv retries m)
  unfolding cluster_execute execute_at
  cluster_execute-plain crc16 around db next t max_retries argv retries m key k p g =
      rw k (hop_on-plain (max_hops db) around max_retries m (get_cluster_slot crc16 key) _ p g)
