-- ===== src/Core/Plan/Reuse.antt =====
-- The private contexts that a plan of src/core.c uses again, and the counter of those that a task
-- keeps.
use libvmod_redis.Base.{
  ℕ, ◌+◌, ◌-◌, ◌≤◌, ◌<◌, ◌≡◌, refl, ap, ◌∙◌, Bool, true, false, ◌||◌, not, List, [], ◌∷◌, ◌++◌,
  ◌==◌, leb, length, length-append, All, All-append, All-map, arith, Bool-cases, inl, inr,
}
use native.Mathlib.Numerals.{add-one}
use libvmod_redis.Core.Types.{Context, Stats, Task, Db, Env}
use libvmod_redis.Core.Valid.{
  is_valid_redis_context, with_stats, IsUsable, valid→IsUsable, valid-stats, IsUsable-with_stats,
}
use libvmod_redis.Core.Plan.Contexts.{
  Scan, visit_context, scan_contexts, remove_context, rotate_contexts, scan_task,
}

abbrev pub has_context : ℕ → List Context → Bool
has_context i [] = false
has_context i (c ∷ cs) = c.id == i || has_context i cs

has_context-append :
    (i : ℕ) (cs ds : List Context) → has_context i cs ≡ true → has_context i (cs ++ ds) ≡ true
has_context-append i [] ds h = cc
has_context-append i (c ∷ cs) ds h = ground (arith, has_context-append i cs ds)

has_context-last : (c : Context) (cs : List Context) → has_context c.id (cs ++ c ∷ []) ≡ true
has_context-last c [] = ground arith
has_context-last c (d ∷ cs) = ground (arith, has_context-last c cs)

length-remove_context :
    (i : ℕ) (cs : List Context)
    → has_context i cs ≡ true
    → length (remove_context i cs) + 1 ≡ length cs
unfolding remove_context
length-remove_context i [] h = cc
length-remove_context i (c ∷ cs) h = ground (arith, length-remove_context i cs)

module _ (P : Context → Type 0) (matches : Context → Bool) (env : Env) (now free_ws max_size : ℕ)
    (db : Db) where
  abbrev pub IsGood : Context → Type 0
  IsGood c = P c × (matches c ≡ true) × IsUsable env db c now

  -- What holds of the loop before each context.
  pub record Inv (s : Scan) (rest : ℕ) : Type 0 where
    pub counted : s.ncontexts ≡ length s.kept + rest
    pub good : All IsGood s.selected
    pub present : All (λ c. has_context c.id s.kept ≡ true) s.selected
    pub bounded : length s.selected ≤ max_size
    pub open_end : s.stopped ≡ false → length s.selected < max_size
    pub stats_only : s.db ≡ with_stats db s.db.stats
    pub cramped : s.failed ≡ true → free_ws < 8

  grown :
      (c : Context) (cs kept : List Context)
      → All (λ d. has_context d.id kept ≡ true) cs
      → All (λ d. has_context d.id (kept ++ c ∷ []) ≡ true) cs
  grown c cs kept = All-map _ _ cs (λ d. has_context-append d.id kept (c ∷ []))

  keep-Inv :
      (c : Context) (s : Scan) (rest : ℕ) (b f : Bool) (st : Stats)
      → Inv s (rest + 1)
      → (b ≡ false → s.stopped ≡ false)
      → (f ≡ true → free_ws < 8)
      → Inv
          (record s { kept = s.kept ++ (c ∷ []); db = with_stats db st; stopped = b; failed = f })
          rest
  keep-Inv c s rest b f st i h k = record {
    counted = omega (arith, length-append s.kept (c ∷ []), i.counted);
    good = i.good;
    present = grown c s.selected s.kept i.present;
    bounded = i.bounded;
    open_end = λ e. i.open_end (h e);
    stats_only = refl;
    cramped = k;
  }

  take-Inv :
      (c : Context) (s : Scan) (rest : ℕ) (st : Stats)
      → Inv s (rest + 1)
      → s.stopped ≡ false
      → IsGood c
      → Inv
          (record s {
            selected = s.selected ++ (c ∷ []);
            kept = s.kept ++ (c ∷ []);
            db = with_stats db st;
            stopped = length s.selected + 1 == max_size;
          })
          rest
  take-Inv c s rest st i live g = record {
    counted = omega (arith, length-append s.kept (c ∷ []), i.counted);
    good = All-append IsGood s.selected (c ∷ []) i.good (g, tt);
    present =
        All-append _ s.selected (c ∷ []) (grown c s.selected s.kept i.present)
          (has_context-last c s.kept, tt);
    bounded = omega (arith, length-append s.selected (c ∷ []), i.open_end live);
    open_end = λ e. ground (arith, length-append s.selected (c ∷ []), i.open_end live);
    stats_only = refl;
    cramped = i.cramped;
  }

  drop-Inv :
      (s : Scan) (rest : ℕ) (st : Stats)
      → Inv s (rest + 1)
      → Inv (record s { ncontexts = s.ncontexts - 1; db = with_stats db st }) rest
  drop-Inv s rest st i = record {
    counted = omega (arith, i.counted);
    good = i.good;
    present = i.present;
    bounded = i.bounded;
    open_end = i.open_end;
    stats_only = refl;
    cramped = i.cramped;
  }

  -- The context that the loop looks at, once it is known to match.
  checked-Inv :
      (c : Context) (s : Scan) (rest : ℕ) (st : Stats)
      → s.db ≡ with_stats db st
      → P c
      → matches c ≡ true
      → s.stopped ≡ false
      → (s.stopped || not (matches c)) ≡ false
      → Inv s (rest + 1)
      → Inv (visit_context matches env now free_ws max_size c s) rest
  unfolding visit_context
  checked-Inv c s rest st e pc m live enter i =
      let db' = (is_valid_redis_context env s.db c now).1 in
      let same : db' ≡ with_stats db db'.stats =
        valid-stats env s.db c now ∙ ap (λ (d : Db). with_stats d db'.stats) e in
      elim (Bool-cases (is_valid_redis_context env s.db c now).0) [
        | inr bad ↦ rw (enter, bad, same) (drop-Inv s rest db'.stats i)
        | inl ok ↦ elim (Bool-cases (leb 8 free_ws)) [
          | inl room ↦
              rw (enter, ok, room, same)
                (take-Inv c s rest db'.stats i live (
                  pc,
                  m,
                  IsUsable-with_stats env db st c now
                      (rw e at (valid→IsUsable env s.db c now ok).0),
                ))
          | inr full ↦
              rw (enter, ok, full, same)
                (keep-Inv c s rest true true db'.stats i (λ e. cc) (λ e. ground arith))
        ]
      ]

  passed-Inv :
      (c : Context) (s : Scan) (rest : ℕ)
      → Inv s (rest + 1)
      → (s.stopped || not (matches c)) ≡ true
      → Inv (visit_context matches env now free_ws max_size c s) rest
  unfolding visit_context
  passed-Inv c s rest i pass = rw pass (record {
    counted = omega (arith, length-append s.kept (c ∷ []), i.counted);
    good = i.good;
    present = grown c s.selected s.kept i.present;
    bounded = i.bounded;
    open_end = i.open_end;
    stats_only = i.stats_only;
    cramped = i.cramped;
  })

  visit-Inv :
      (c : Context) (s : Scan) (rest : ℕ)
      → P c
      → Inv s (rest + 1)
      → Inv (visit_context matches env now free_ws max_size c s) rest
  visit-Inv c s rest pc i = elim (Bool-cases (s.stopped || not (matches c))) [
    | inl pass ↦ passed-Inv c s rest i pass
    | inr enter ↦
        checked-Inv c s rest s.db.stats i.stats_only pc (ground arith) (ground arith) enter i
  ]

  scan-Inv :
      (cs : List Context) (s : Scan)
      → All P cs
      → Inv s (length cs)
      → Inv (scan_contexts matches env now free_ws max_size cs s) 0
  unfolding scan_contexts
  scan-Inv [] s ps i = i
  scan-Inv (c ∷ cs) s ps i = scan-Inv cs _ ps.1 (visit-Inv c s (length cs) ps.0 (rw add-one i))

  -- What holds of the whole loop over the contexts of a task.
  pub scan_task-Inv :
      (t : Task)
      → 0 < max_size
      → t.ncontexts ≡ length t.contexts
      → All P t.contexts
      → Inv (scan_task matches env now free_ws max_size db t) 0
  unfolding scan_task
  scan_task-Inv t h e ps = scan-Inv t.contexts _ ps (record {
    counted = omega arith;
    good = tt;
    present = tt;
    bounded = omega arith;
    open_end = λ _. h;
    stats_only = refl;
    cramped = λ e. cc;
  })

-- The rotation of the contexts of a task keeps their number.
pub length-rotate_contexts :
    (cs kept : List Context)
    → All (λ c. has_context c.id kept ≡ true) cs
    → length (rotate_contexts cs kept) ≡ length kept
unfolding rotate_contexts
length-rotate_contexts [] kept h = refl
length-rotate_contexts (c ∷ cs) kept h =
    omega (
      arith,
      length-append (remove_context c.id kept) (c ∷ []),
      length-remove_context c.id kept h.0,
    )
