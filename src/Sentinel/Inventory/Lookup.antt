-- ===== src/Sentinel/Inventory/Lookup.antt =====
-- The inventory of src/sentinel.c as a map from addresses to roles and down flags.
use mathlib.Core.Path.{subst}
use libvmod_redis.Base.{
  is_some, ℕ, ◌≡◌, refl, sym, ap, ◌∙◌, Bool, true, false, ◌&&◌, Option, none, some, List, [], ◌∷◌,
  ◌++◌, ◌==◌, if◌then◌else◌, Str, arith, Bool-cases, inl, inr,
}
use libvmod_redis.Core.Reply.{ℤ, pos, negsuc}
use libvmod_redis.Core.Types.{Role, role_eq→eq}
use libvmod_redis.Core.Registry.{str_eq}
use libvmod_redis.Core.Registry.Listed.{str_eq_refl}
use libvmod_redis.Sentinel.Inventory.{
  KnownServer, State, is_at, find_known, set_known, is_down, down_or, differs, renewed, store_found,
  store_sentinel_reply,
}

pub str_eq→eq : (s t : Str) → str_eq s t ≡ true → s ≡ t
unfolding str_eq
str_eq→eq [] [] h = refl
str_eq→eq [] (d ∷ t) h = absurd (ground (arith, h))
str_eq→eq (c ∷ s) [] h = absurd (ground (arith, h))
str_eq→eq (c ∷ s) (d ∷ t) h =
    let tails : s ≡ t = str_eq→eq s t (ground (arith, h)) in
    let heads : c ≡ d = ground (arith, h) in cc

-- Whether two addresses are the same.
abbrev pub same : Str → ℕ → Str → ℕ → Bool
same host port h p = port == p && str_eq host h

is_at-port : (host : Str) (port : ℕ) (s : KnownServer) → is_at host port s ≡ true → s.port ≡ port
unfolding is_at
is_at-port host port s e = ground (arith, e)

is_at-host : (host : Str) (port : ℕ) (s : KnownServer) → is_at host port s ≡ true → s.host ≡ host
unfolding is_at
is_at-host host port s e = str_eq→eq s.host host (ground (arith, e))

pub is_at-other :
    (host : Str) (port : ℕ) (h : Str) (p : ℕ) (s : KnownServer)
    → is_at host port s ≡ true
    → is_at h p s ≡ same host port h p
is_at-other host port h p s e =
    let ports = is_at-port host port s e in
    let hosts = is_at-host host port s e in
    unfold is_at in
    ap (λ x. x == p && str_eq s.host h) ports ∙ ap (λ x. port == p && str_eq x h) hosts

pub find_known-is_at :
    (host : Str) (port : ℕ) (ss : List KnownServer) (s : KnownServer)
    → find_known host port ss ≡ some s
    → is_at host port s ≡ true
unfolding find_known
find_known-is_at host port [] s e = absurd (ground (arith, e))
find_known-is_at host port (x ∷ ss) s e = elim (Bool-cases (is_at host port x)) [
  | inl k ↦
      let first : find_known host port (x ∷ ss) ≡ some x = rw k refl in
      let one : some x ≡ some s = sym first ∙ e in
      let found : x ≡ s = cc in subst (λ y. is_at host port y ≡ true) found k
  | inr k ↦
      let later : find_known host port (x ∷ ss) ≡ find_known host port ss = rw k refl in
      find_known-is_at host port ss s (sym later ∙ e)
]

-- A new server at the end.
find_known-append :
    (h : Str) (p : ℕ) (ss : List KnownServer) (k : KnownServer)
    → find_known h p (ss ++ (k ∷ [])) ≡ (
        if is_some (find_known h p ss)
        then find_known h p ss
        else if is_at h p k
        then some k
        else none)
unfolding find_known
find_known-append h p [] k = refl
find_known-append h p (x ∷ ss) k = elim (Bool-cases (is_at h p x)) [
  | inl e ↦ rw e refl
  | inr e ↦ rw e (find_known-append h p ss k)
]

pub distinct :
    (host : Str) (port : ℕ) (h : Str) (p : ℕ) (x : KnownServer)
    → is_at h p x ≡ true
    → is_at host port x ≡ false
    → same host port h p ≡ false
distinct host port h p x hit elsewhere = elim (Bool-cases (same host port h p)) [
  | inl k ↦
      let ports : port ≡ p = ground (arith, k) in
      let hosts : host ≡ h = str_eq→eq host h (ground (arith, k)) in
      let both : is_at host port x ≡ is_at h p x = cc in cc
  | inr k ↦ k
]

-- A server in the place of the first one with its address.
find_known-set_known :
    (host : Str) (port : ℕ) (h : Str) (p : ℕ) (k : KnownServer) (ss : List KnownServer)
    → is_at host port k ≡ true
    → find_known h p (set_known host port k ss) ≡ (
        if same host port h p && is_some (find_known host port ss)
        then some k
        else find_known h p ss)
unfolding find_known set_known
find_known-set_known host port h p k [] e = ground (arith)
find_known-set_known host port h p k (x ∷ ss) e = elim (Bool-cases (is_at host port x)) [
  | inl there ↦
      let kept = is_at-other host port h p k e in
      let was = is_at-other host port h p x there in rw (there, kept, was) (ground arith)
  | inr elsewhere ↦ elim (Bool-cases (is_at h p x)) [
    | inl hit ↦
        let other : same host port h p ≡ false = distinct host port h p x hit elsewhere in
        rw (elsewhere, hit, other) refl
    | inr miss ↦ rw (elsewhere, miss) (find_known-set_known host port h p k ss e)
  ]
]

-- What is known of an address: the role and the down flag.
abbrev pub summary : Option KnownServer → Option (Role × ℕ)
summary none = none
summary (some s) = some (s.role, s.down)

abbrev pub known : Str → ℕ → State → Option (Role × ℕ)
known h p st = summary (find_known h p st.servers)

-- The down flag that a reply leaves, from what was known.
abbrev pub down_after : ℤ → Option (Role × ℕ) → ℕ
down_after down none = is_down down
down_after down (some (role, old)) = down_or down old

pub same-find_known :
    (host : Str) (port : ℕ) (h : Str) (p : ℕ) (ss : List KnownServer)
    → same host port h p ≡ true
    → find_known h p ss ≡ find_known host port ss
same-find_known host port h p ss k =
    let ports : port ≡ p = ground (arith, k) in
    let hosts : host ≡ h = str_eq→eq host h (ground (arith, k)) in cc

-- A server about which nothing is new.
unchanged :
    (role : Role) (down : ℤ) (s : KnownServer)
    → differs role down s ≡ false
    → summary (some s) ≡ some (role, down_or down s.down)
unchanged role (pos n) s e =
    let roles : s.role ≡ role = role_eq→eq s.role role (ground (arith, e)) in
    let downs : s.down ≡ n = ground (arith, e) in cc
unchanged role (negsuc n) s e =
    let roles : s.role ≡ role = role_eq→eq s.role role (ground (arith, e)) in cc

or_none : (o : Option KnownServer) → (if is_some o then o else none) ≡ o
or_none none = refl
or_none (some s) = refl

module _ (clock : ℕ → ℕ) (sentinel : ℕ) (host : Str) (port : ℕ) (role : Role) (down : ℤ)
    (st : State) (h : Str) (p : ℕ) where
  pub new-is_at :
      (n : ℕ)
      → is_at host port
          (record { host = host; port = port; role = role; down = n; sentinel = sentinel })
        ≡ true
  unfolding is_at
  new-is_at n = ground (arith, str_eq_refl host)

  pub there_still :
      (s : KnownServer)
      → is_at host port s ≡ true
      → is_at host port (renewed sentinel role down s) ≡ true
  unfolding is_at
  there_still s e = e

  store_found-known :
      (o : Option KnownServer)
      → find_known host port st.servers ≡ o
      → known h p (store_found clock sentinel host port role down o st)
        ≡ (if same host port h p then some (role, down_after down (summary o)) else known h p st)
  store_found-known none e =
      let new : KnownServer = record {
        host = host;
        port = port;
        role = role;
        down = is_down down;
        sentinel = sentinel;
      } in
      let asked = is_at-other host port h p new (new-is_at (is_down down)) in
      let at_end = ap summary (find_known-append h p st.servers new) in
      elim (Bool-cases (same host port h p)) [
        | inl k ↦
            let missing = same-find_known host port h p st.servers k ∙ e in
            let there = asked ∙ k in at_end ∙ rw (missing, there, k) refl
        | inr k ↦
            let elsewhere = asked ∙ k in
            at_end ∙ rw (elsewhere, k) (ap summary (or_none (find_known h p st.servers)))
      ]
  store_found-known (some s) e = elim (Bool-cases (differs role down s)) [
    | inl d ↦
        let new = renewed sentinel role down s in
        let there = find_known-is_at host port st.servers s e in
        let found =
          ap summary (find_known-set_known host port h p new st.servers (there_still s there)) in
        elim (Bool-cases (same host port h p)) [
          | inl k ↦ rw (d, k) (found ∙ rw (k, e) refl)
          | inr k ↦ rw (d, k) (found ∙ rw k refl)
        ]
    | inr d ↦ elim (Bool-cases (same host port h p)) [
      | inl k ↦
          rw (d, k)
            (ap summary (same-find_known host port h p st.servers k ∙ e) ∙ unchanged role down s d)
      | inr k ↦ rw (d, k) refl
    ]
  ]

  -- After a reply about an address, what is known of it is the role of the reply and its down flag (or
  -- the one before, when the reply does not tell), and of all other addresses what was known before.
  pub store_sentinel_reply-known :
      known h p (store_sentinel_reply clock sentinel host port role down st) ≡ (
        if same host port h p
        then some (role, down_after down (known host port st))
        else known h p st)
  unfolding store_sentinel_reply
  store_sentinel_reply-known = store_found-known (find_known host port st.servers) refl
