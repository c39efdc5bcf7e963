-- ===== src/Cluster/Slot/HashTag.antt =====
-- The part of a key that get_cluster_slot() hashes, described by the shape of the key.
use libvmod_redis.Base.{
  ℕ, ◌+◌, ◌-◌, ◌%◌, ◌<◌, ◌≡◌, refl, ap, ◌∙◌, ◌≢◌, [], ◌∷◌, ◌++◌, Str, arith, length, length-append,
  take, drop, take-append, All, ◌||◌, ◌==◌, if◌then◌else◌,
}
use native.Mathlib.Decide.{ℕ_discrete}
use libvmod_redis.Cluster.Slot.{search_byte, slot_of, get_cluster_slot, nredis_cluster_slots}

-- `c` does not occur in the string.
abbrev pub Lacks : ℕ → Str → Type 0
Lacks c = All (λ b. b ≢ c)

search_byte-lacking : (c : ℕ) (s : Str) (i : ℕ) → Lacks c s → search_byte c s i ≡ i + length s
unfolding search_byte
search_byte-lacking c [] i h = omega arith
search_byte-lacking c (b ∷ s) i h = ground (arith, search_byte-lacking c s (i + 1) h.1)

search_byte-found :
    (c : ℕ) (s t : Str) (i : ℕ) → Lacks c s → search_byte c (s ++ c ∷ t) i ≡ i + length s
unfolding search_byte
search_byte-found c [] t i h = ground arith
search_byte-found c (b ∷ s) t i h = ground (arith, search_byte-found c s t (i + 1) h.1)

-- The split of a string at the first `c`.
data Splits (c : ℕ) (s : Str) : Type 0 where
  absent : Lacks c s → Splits c s
  found : (pre post : Str) → s ≡ pre ++ c ∷ post → Lacks c pre → Splits c s

split_at : (c : ℕ) (s : Str) → Splits c s
split_at c [] = absent tt
split_at c (b ∷ s) = elim (ℕ_discrete b c) [
  | yes e ↦ found [] s (ap (λ x. x ∷ s) e) tt
  | no n ↦ elim (split_at c s) [
    | absent l ↦ absent (n, l)
    | found pre post e l ↦ found (b ∷ pre) post (ap (◌∷◌ b) e) (n, l)
  ]
]

-- `part` is what has to be hashed for `key`: the text between the first `{` and the first `}` after
-- it, if there are both and the text is not empty, and the whole key otherwise.
pub data HashPart (key part : Str) : Type 0 where
  unopened : Lacks b'{' key → part ≡ key → HashPart key part
  unclosed :
      (pre rest : Str)
      → key ≡ pre ++ b'{' ∷ rest
      → Lacks b'{' pre
      → Lacks b'}' rest
      → part ≡ key
      → HashPart key part
  empty :
      (pre post : Str)
      → key ≡ pre ++ b'{' ∷ b'}' ∷ post
      → Lacks b'{' pre
      → part ≡ key
      → HashPart key part
  tagged :
      (pre post : Str)
      → key ≡ pre ++ b'{' ∷ (part ++ b'}' ∷ post)
      → Lacks b'{' pre
      → Lacks b'}' part
      → part ≢ []
      → HashPart key part

hash_part : (key : Str) → (part : Str) × HashPart key part
hash_part key = elim (split_at b'{' key) [
  | absent l ↦ (key, unopened l refl)
  | found pre rest k h ↦ elim (split_at b'}' rest) [
    | absent l ↦ (key, unclosed pre rest k h l refl)
    | found [] post r l ↦ (key, empty pre post (k ∙ ap (λ x. pre ++ b'{' ∷ x) r) h refl)
    | found (b ∷ t) post r l ↦
        (b ∷ t, tagged pre post (k ∙ ap (λ x. pre ++ b'{' ∷ x) r) h l (λ e. cc))
  ]
]

drop-suc : (pre rest : Str) (b : ℕ) → drop (length pre + 1) (pre ++ b ∷ rest) ≡ rest
drop-suc [] rest b = refl
drop-suc (x ∷ pre) rest b = ground (arith, drop-suc pre rest b)

module _ (crc16 : Str → ℕ) where
  -- The result in terms of the two indexes.
  by_indexes :
      (key rest : Str) (s e : ℕ)
      → search_byte b'{' key 0 ≡ s
      → drop (s + 1) key ≡ rest
      → search_byte b'}' rest (s + 1) ≡ e
      → get_cluster_slot crc16 key ≡ (
          if s == length key
          then slot_of crc16 key
          else if e == length key || e == s + 1
          then slot_of crc16 key
          else slot_of crc16 (take (e - s - 1) rest))
  unfolding get_cluster_slot
  by_indexes key rest s e p q r = rw (p, q, r)

  unfolded_at :
      (key rest : Str) (s n : ℕ)
      → search_byte b'{' key 0 ≡ 0 + s
      → drop (s + 1) key ≡ rest
      → search_byte b'}' rest (s + 1) ≡ s + 1 + n
      → s < length key
      → get_cluster_slot crc16 key ≡ (
          if s + 1 + n == length key || s + 1 + n == s + 1
          then slot_of crc16 key
          else slot_of crc16 (take n rest))
  unfolded_at key rest s n p q r h = ground (
    arith,
    by_indexes key rest s (s + 1 + n) (omega arith) q r,
    ap (λ (k : ℕ). take k rest) (let e : s + 1 + n - s - 1 ≡ n = omega arith in e),
  )

  get_cluster_slot-HashPart :
      (key part : Str)
      → HashPart key part
      → get_cluster_slot crc16 key ≡ crc16 part % nredis_cluster_slots
  unfolding slot_of
  get_cluster_slot-HashPart key part (unopened h e) =
      let stop : search_byte b'{' key 0 ≡ length key =
        omega (arith, search_byte-lacking b'{' key 0 h) in
      ground (arith, by_indexes key (drop (length key + 1) key) (length key) _ stop refl refl)
  get_cluster_slot-HashPart key part (unclosed pre rest k h l e) =
      rw (e, k)
        (ground (
          arith,
          length-append pre (b'{' ∷ rest),
          unfolded_at (pre ++ b'{' ∷ rest) rest (length pre) (length rest)
              (search_byte-found b'{' pre rest 0 h) (drop-suc pre rest b'{')
              (search_byte-lacking b'}' rest (length pre + 1) l),
        ))
  get_cluster_slot-HashPart key part (empty pre post k h e) =
      rw (e, k)
        (ground (
          arith,
          length-append pre (b'{' ∷ b'}' ∷ post),
          unfolded_at (pre ++ b'{' ∷ b'}' ∷ post) (b'}' ∷ post) (length pre) 0
              (search_byte-found b'{' pre (b'}' ∷ post) 0 h) (drop-suc pre (b'}' ∷ post) b'{')
              (search_byte-found b'}' [] post (length pre + 1) tt),
        ))
  get_cluster_slot-HashPart key [] (tagged pre post k h l n) = absurd (n refl)
  get_cluster_slot-HashPart key (b ∷ t) (tagged pre post k h l n) =
      let part = b ∷ t in
      let rest = part ++ b'}' ∷ post in
      rw k (
        ground (
          arith,
          length-append pre (b'{' ∷ rest),
          length-append part (b'}' ∷ post),
          take-append part (b'}' ∷ post),
          unfolded_at (pre ++ b'{' ∷ rest) rest (length pre) (length part)
              (search_byte-found b'{' pre rest 0 h) (drop-suc pre rest b'{')
              (search_byte-found b'}' part post (length pre + 1) l),
        ))

-- Every key has a part that is hashed, the whole key or what stands between its first `{` and the
-- next `}` if that is not empty, and get_cluster_slot() is the CRC16 of that part, modulo 16384.
pub get_cluster_slot_lem :
    (crc16 : Str → ℕ) (key : Str)
    → (part : Str) × HashPart key part
      × (get_cluster_slot crc16 key ≡ crc16 part % nredis_cluster_slots)
get_cluster_slot_lem crc16 key =
    let (part, h) = hash_part key in (part, h, get_cluster_slot-HashPart crc16 key part h)
