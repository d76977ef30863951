-- ===== src/Snapshots/Purge/Laws.antt =====
-- What the purge of snapshots leaves on disk.
pub mod Kept
use ido_bata_server_bot.Prelude.{
  ◌∙◌, ap, ℕ, ◌≡◌, refl, Bool, true, false, not, String, Option, none, some, List, [], ◌∷◌, arith,
  str_eq, eq_iff, if-intro, keep, any, all, Outcome, ok, threw,
}
use ido_bata_server_bot.Snapshots.Purge.{
  SnapshotDir, has_path, apply_retention_plan, PurgeSnapshotsResult, purged, declined, FreshHook,
  purge_but, check_leftover, remove_planned, after_hook, purge_listed, purge_all_snapshots,
}

-- Every snapshot is the one that was kept; without a kept one there is no snapshot.
abbrev pub is_only : Option String → List String → Bool
is_only none paths = all (λ _. false) paths
is_only (some fresh) paths = all (λ p. str_eq p fresh) paths

-- What a result promises of the directory; a missing one has no files.
pub data IsPurged : PurgeSnapshotsResult → SnapshotDir → Type 0 where
  clean :
      (n : ℕ) (kept : Option String) (dir : SnapshotDir)
      → is_only kept dir.paths ≡ true
      → IsPurged (purged n kept) dir
  no_directory : (dir : SnapshotDir) → dir.exists ≡ false → IsPurged (purged 0 none) dir
  refused : (e : _) (dir : SnapshotDir) → IsPurged (declined e) dir

abbrev pub is_nonempty : List String → Bool
is_nonempty paths = any (λ _. true) paths

has_path-nonempty :
    (path : String) (paths : List String) → has_path path paths ≡ true → is_nonempty paths ≡ true
has_path-nonempty path [] h = cc
has_path-nonempty path (p ∷ ps) h = refl

has_path-keep :
    (path fresh : String) (paths : List String)
    → str_eq path fresh ≡ false
    → has_path fresh (keep (λ p. not (str_eq p path)) paths) ≡ has_path fresh paths
has_path-keep path fresh [] h = refl
has_path-keep path fresh (p ∷ ps) h =
    ground (arith, has_path-keep path fresh ps h, eq_iff p path, eq_iff p fresh)

abbrev Purged : PurgeSnapshotsResult × SnapshotDir → Type 0
Purged r = IsPurged r.0 r.1

nothing_else :
    (fresh : String) (ps : List String)
    → any (λ p. not (str_eq p fresh)) ps ≡ false
    → all (λ p. str_eq p fresh) ps ≡ true
nothing_else fresh [] h = refl
nothing_else fresh (p ∷ ps) h = ground (arith, nothing_else fresh ps)

check_leftover-IsPurged :
    (fresh : String) (n : ℕ) (dir : SnapshotDir) → Purged (check_leftover fresh n dir)
unfolding check_leftover
check_leftover-IsPurged fresh n dir =
    if-intro Purged (any (λ p. not (str_eq p fresh)) dir.paths) (λ h. refused _ dir)
      (λ h. clean n (some fresh) dir (nothing_else fresh dir.paths h))

check_leftover_dir :
    (fresh : String) (n : ℕ) (dir : SnapshotDir) → (check_leftover fresh n dir).1 ≡ dir
unfolding check_leftover
check_leftover_dir fresh n dir =
    if-intro (λ (r : PurgeSnapshotsResult × SnapshotDir). r.1 ≡ dir)
      (any (λ p. not (str_eq p fresh)) dir.paths) (λ _. refl) (λ _. refl)

module _ (locked : String → Bool) where
  after_hook-IsPurged :
      (paths : List String) (r : Outcome (Option String) × SnapshotDir)
      → Purged (after_hook locked paths r)
  unfolding after_hook purge_but
  after_hook-IsPurged paths (threw _, dir) = refused _ dir
  after_hook-IsPurged paths (ok none, dir) = refused _ dir
  after_hook-IsPurged paths (ok (some fresh), dir) =
      if-intro Purged (str_eq fresh "") (λ h. refused _ dir)
        (λ h. check_leftover-IsPurged fresh _ _)

  purge_listed-IsPurged :
      (hook : Option FreshHook) (paths : List String) (dir : SnapshotDir)
      → dir.paths ≡ paths
      → Purged (purge_listed locked hook paths dir)
  unfolding purge_listed
  purge_listed-IsPurged hook [] dir h = clean 0 none dir (ap (all (λ _. false)) h)
  purge_listed-IsPurged none (p ∷ ps) dir h = refused _ dir
  purge_listed-IsPurged (some take) (p ∷ ps) dir h = after_hook-IsPurged (p ∷ ps) (take dir)

  -- A purge that answers success leaves no snapshot but the fresh one that it names, whatever
  -- files the hook writes and the system refuses to remove.
  pub purge_all_snapshots-IsPurged :
      (hook : Option FreshHook) (dir : SnapshotDir)
      → IsPurged (purge_all_snapshots locked hook dir).0 (purge_all_snapshots locked hook dir).1
  unfolding purge_all_snapshots
  purge_all_snapshots-IsPurged hook dir =
      if-intro Purged (not dir.exists) (λ h. no_directory dir (ground arith))
        (λ h. purge_listed-IsPurged hook dir.paths dir refl)

  remove_planned-has_path :
      (dry_run : Bool) (path fresh : String) (dir : SnapshotDir)
      → str_eq path fresh ≡ false
      → has_path fresh (remove_planned locked dry_run path dir).paths ≡ has_path fresh dir.paths
  unfolding remove_planned
  remove_planned-has_path dry_run path fresh dir h =
      ground (arith, has_path-keep path fresh dir.paths h)

  -- The pass over a plan that leaves out a path does not remove it.
  apply_retention_plan-has_path :
      (dry_run : Bool) (fresh : String) (plan : List String) (dir : SnapshotDir)
      → has_path fresh
          (apply_retention_plan locked dry_run (keep (λ p. not (str_eq p fresh)) plan) dir).paths
        ≡ has_path fresh dir.paths
  unfolding apply_retention_plan
  apply_retention_plan-has_path dry_run fresh [] dir = refl
  apply_retention_plan-has_path dry_run fresh (p ∷ plan) dir =
      if-intro
        (λ (rest : List String).
          has_path fresh (apply_retention_plan locked dry_run rest dir).paths
          ≡ has_path fresh dir.paths)
        (not (str_eq p fresh))
        (λ h.
          apply_retention_plan-has_path dry_run fresh plan (remove_planned locked dry_run p dir)
          ∙ remove_planned-has_path dry_run p fresh dir (ground arith))
        (λ _. apply_retention_plan-has_path dry_run fresh plan dir)

  purge_but-nonempty :
      (fresh : String) (paths : List String) (dir : SnapshotDir)
      → has_path fresh dir.paths ≡ true
      → is_nonempty (purge_but locked fresh paths dir).1.paths ≡ true
  unfolding purge_but
  purge_but-nonempty fresh paths dir h =
      let after = apply_retention_plan locked false (keep (λ p. not (str_eq p fresh)) paths) dir in
      rw (check_leftover_dir fresh _ after) (
        has_path-nonempty fresh after.paths
          (apply_retention_plan-has_path false fresh paths dir ∙ h))

  after_hook-nonempty :
      (paths : List String) (r : Outcome (Option String) × SnapshotDir)
      → ((fresh : String) → r.0 ≡ ok (some fresh) → has_path fresh r.1.paths ≡ true)
      → is_nonempty r.1.paths ≡ true
      → is_nonempty (after_hook locked paths r).1.paths ≡ true
  unfolding after_hook
  after_hook-nonempty paths (threw _, dir) here h = h
  after_hook-nonempty paths (ok none, dir) here h = h
  after_hook-nonempty paths (ok (some fresh), dir) here h =
      if-intro (λ (r : PurgeSnapshotsResult × SnapshotDir). is_nonempty r.1.paths ≡ true)
        (str_eq fresh "") (λ _. h) (λ _. purge_but-nonempty fresh paths dir (here fresh refl))

  purge_listed-nonempty :
      (take : FreshHook) (paths : List String) (dir : SnapshotDir)
      → ((fresh : String)
          → (take dir).0 ≡ ok (some fresh)
          → has_path fresh (take dir).1.paths ≡ true)
      → is_nonempty (take dir).1.paths ≡ true
      → is_nonempty dir.paths ≡ true
      → is_nonempty (purge_listed locked (some take) paths dir).1.paths ≡ true
  unfolding purge_listed
  purge_listed-nonempty take [] dir here some_left h = h
  purge_listed-nonempty take (p ∷ ps) dir here some_left h =
      after_hook-nonempty (p ∷ ps) (take dir) here some_left

  -- A directory with a snapshot has one after the purge, whether it succeeds or not, if the hook
  -- leaves some snapshot there and a path that it returns is among them.
  pub purge_all_snapshots_keeps_backup :
      (take : FreshHook) (dir : SnapshotDir)
      → ((fresh : String)
          → (take dir).0 ≡ ok (some fresh)
          → has_path fresh (take dir).1.paths ≡ true)
      → is_nonempty (take dir).1.paths ≡ true
      → is_nonempty dir.paths ≡ true
      → is_nonempty (purge_all_snapshots locked (some take) dir).1.paths ≡ true
  unfolding purge_all_snapshots
  purge_all_snapshots_keeps_backup take dir here some_left h =
      if-intro (λ (r : PurgeSnapshotsResult × SnapshotDir). is_nonempty r.1.paths ≡ true)
        (not dir.exists) (λ _. h) (λ _. purge_listed-nonempty take dir.paths dir here some_left h)
