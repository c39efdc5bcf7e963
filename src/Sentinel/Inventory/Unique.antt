-- ===== src/Sentinel/Inventory/Unique.antt =====
-- The inventory of src/sentinel.c has each server once.
use libvmod_redis.Base.{
  ℕ, ◌+◌, ◌≤◌, ◌≡◌, refl, sym, ◌∙◌, true, Option, none, some, List, [], ◌∷◌, ◌++◌, if◌then◌else◌,
  Str, arith, Bool-cases, inl, inr,
}
use libvmod_redis.Core.Reply.{ℤ}
use libvmod_redis.Core.Types.{Role}
use libvmod_redis.Sentinel.Inventory.{
  KnownServer, State, is_at, find_known, set_known, is_down, differs, renewed, store_found,
  store_sentinel_reply,
}
use libvmod_redis.Sentinel.Inventory.Lookup.{
  is_at-other, same-find_known, find_known-is_at, new-is_at,
}

-- How many servers have the address.
unfoldable pub entries : Str → ℕ → List KnownServer → ℕ
unfolding is_at
entries h p [] = 0
entries h p (s ∷ ss) = (if is_at h p s then 1 else 0) + entries h p ss

pub record IsUnique (st : State) : Type 0 where
  pub once : (h : Str) (p : ℕ) → entries h p st.servers ≤ 1

entries-append :
    (h : Str) (p : ℕ) (ss : List KnownServer) (k : KnownServer)
    → entries h p (ss ++ (k ∷ [])) ≡ entries h p ss + (if is_at h p k then 1 else 0)
unfolding entries
entries-append h p [] k = omega arith
entries-append h p (s ∷ ss) k = omega (arith, entries-append h p ss k)

entries-set_known :
    (host : Str) (port : ℕ) (h : Str) (p : ℕ) (k : KnownServer) (ss : List KnownServer)
    → is_at host port k ≡ true
    → entries h p (set_known host port k ss) ≡ entries h p ss
unfolding entries set_known
entries-set_known host port h p k [] e = omega arith
entries-set_known host port h p k (s ∷ ss) e = elim (Bool-cases (is_at host port s)) [
  | inl there ↦
      let kept : is_at h p k ≡ is_at h p s =
        is_at-other host port h p k e ∙ sym (is_at-other host port h p s there) in
      rw (there, kept) (omega arith)
  | inr elsewhere ↦ rw elsewhere (omega (arith, entries-set_known host port h p k ss e))
]

missing-entries :
    (h : Str) (p : ℕ) (ss : List KnownServer) → find_known h p ss ≡ none → entries h p ss ≡ 0
unfolding entries find_known
missing-entries h p [] e = omega arith
missing-entries h p (s ∷ ss) e = elim (Bool-cases (is_at h p s)) [
  | inl k ↦ absurd (ground (arith, e, k))
  | inr k ↦
      let rest : find_known h p ss ≡ none = ground (arith, e, k) in
      rw k (omega (arith, missing-entries h p ss rest))
]

module _ (clock : ℕ → ℕ) (sentinel : ℕ) (host : Str) (port : ℕ) (role : Role) (down : ℤ)
    (st : State) (v : IsUnique st) where
  store_found-IsUnique :
      (o : Option KnownServer)
      → find_known host port st.servers ≡ o
      → IsUnique (store_found clock sentinel host port role down o st)
  unfolding is_at
  store_found-IsUnique none e = record {
    once = λ h p.
        let new : KnownServer = record {
          host = host;
          port = port;
          role = role;
          down = is_down down;
          sentinel = sentinel;
        } in
        let grown = entries-append h p st.servers new in
        let asked =
          is_at-other host port h p new
            (new-is_at clock sentinel host port role down st h p (is_down down)) in
        elim (Bool-cases (is_at h p new)) [
          | inl k ↦
              let missing : find_known h p st.servers ≡ none =
                same-find_known host port h p st.servers (sym asked ∙ k) ∙ e in
              let empty = missing-entries h p st.servers missing in
              let one = rw k at grown in omega (arith, one, empty)
          | inr k ↦ let none_more = rw k at grown in omega (arith, none_more, v.once h p)
        ];
  }
  store_found-IsUnique (some s) e = elim (Bool-cases (differs role down s)) [
    | inl d ↦ rw d (record {
      once = λ h p. omega (
        arith,
        v.once h p,
        entries-set_known host port h p (renewed sentinel role down s) st.servers
            (still s (find_known-is_at host port st.servers s e)),
      );
    })
    | inr d ↦ rw d v
  ]
    where
      still :
          (s : KnownServer)
          → is_at host port s ≡ true
          → is_at host port (renewed sentinel role down s) ≡ true
      still s e = e

  -- A reply about an address leaves each server in the inventory once.
  pub store_sentinel_reply-IsUnique :
      IsUnique (store_sentinel_reply clock sentinel host port role down st)
  unfolding store_sentinel_reply
  store_sentinel_reply-IsUnique = store_found-IsUnique (find_known host port st.servers) refl
