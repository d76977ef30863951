-- ===== src/Snapshots/Purge/Laws/Kept.antt =====
-- The snapshot that a purge keeps is the one that the hook has just taken.
use ido_bata_server_bot.Prelude.{
  ℕ, ◌≡◌, ◌⊎◌, inl, inr, refl, ap, Bool, true, false, not, String, Option, none, some, List, [],
  ◌∷◌, str_eq, if-intro, any, Outcome, ok, threw,
}
use ido_bata_server_bot.Snapshots.Purge.{
  SnapshotDir, FreshHook, PurgeSnapshotsResult, PurgeError, purged, declined, check_leftover,
  purge_but, after_hook, purge_listed, purge_all_snapshots,
}
use ido_bata_server_bot.Snapshots.Purge.Laws.{
  is_only, IsPurged, clean, no_directory, refused, purge_all_snapshots-IsPurged,
}

-- The hook was there and took the snapshot.
abbrev pub HasTaken : Option FreshHook → SnapshotDir → String → Type 0
HasTaken hook before fresh =
    (take : FreshHook) × ((hook ≡ some take) × ((take before).0 ≡ ok (some fresh)))

-- What a purge that succeeds has left: only the snapshot that the hook has taken from the directory
-- `before`, or nothing.
pub data OnlyFresh (hook : Option FreshHook) (before : SnapshotDir) : SnapshotDir → Type 0 where
  only_fresh :
      (fresh : String) (after : SnapshotDir)
      → HasTaken hook before fresh
      → is_only (some fresh) after.paths ≡ true
      → OnlyFresh hook before after
  nothing_left :
      (after : SnapshotDir) → is_only none after.paths ≡ true → OnlyFresh hook before after
  no_snapshots : (after : SnapshotDir) → after.exists ≡ false → OnlyFresh hook before after

check_leftover_kept :
    (fresh kept : String) (n m : ℕ) (dir : SnapshotDir)
    → (check_leftover fresh n dir).0 ≡ purged m (some kept)
    → fresh ≡ kept
unfolding check_leftover
check_leftover_kept fresh kept n m dir =
    if-intro (λ (r : PurgeSnapshotsResult × SnapshotDir). r.0 ≡ purged m (some kept) → fresh ≡ kept)
      (any (λ p. not (str_eq p fresh)) dir.paths) (λ _ h. cc) (λ _ h. cc)

module _ (locked : String → Bool) where
  after_hook_kept :
      (paths : List String) (r : Outcome (Option String) × SnapshotDir) (kept : String) (m : ℕ)
      → (after_hook locked paths r).0 ≡ purged m (some kept)
      → r.0 ≡ ok (some kept)
  unfolding after_hook purge_but
  after_hook_kept paths (threw _, dir) kept m h = cc
  after_hook_kept paths (ok none, dir) kept m h = cc
  after_hook_kept paths (ok (some fresh), dir) kept m h =
      if-intro
        (λ (r : PurgeSnapshotsResult × SnapshotDir).
          r.0 ≡ purged m (some kept) → ok (some fresh) ≡ ok (some kept))
        (str_eq fresh "") (λ _ e. cc)
        (λ _ e. ap (λ (f : String). ok (some f)) (check_leftover_kept fresh kept _ m _ e)) h

  purge_listed_kept :
      (hook : Option FreshHook) (paths : List String) (dir : SnapshotDir) (kept : String) (m : ℕ)
      → (purge_listed locked hook paths dir).0 ≡ purged m (some kept)
      → HasTaken hook dir kept
  unfolding purge_listed
  purge_listed_kept hook [] dir kept m h = cc
  purge_listed_kept none (p ∷ ps) dir kept m h = cc
  purge_listed_kept (some take) (p ∷ ps) dir kept m h =
      (take, (refl, after_hook_kept (p ∷ ps) (take dir) kept m h))

  purge_all_snapshots_kept :
      (hook : Option FreshHook) (dir : SnapshotDir) (kept : String) (m : ℕ)
      → (purge_all_snapshots locked hook dir).0 ≡ purged m (some kept)
      → HasTaken hook dir kept
  unfolding purge_all_snapshots
  purge_all_snapshots_kept hook dir kept m =
      if-intro
        (λ (r : PurgeSnapshotsResult × SnapshotDir).
          r.0 ≡ purged m (some kept) → HasTaken hook dir kept)
        (not dir.exists) (λ _ h. cc) (λ _ h. purge_listed_kept hook dir.paths dir kept m h)

  purged-OnlyFresh :
      (hook : Option FreshHook) (before : SnapshotDir) (r : PurgeSnapshotsResult)
      (after : SnapshotDir)
      → IsPurged r after
      → ((n : ℕ) (kept : String) → r ≡ purged n (some kept) → HasTaken hook before kept)
      → ((e : PurgeError) × (r ≡ declined e)) ⊎ OnlyFresh hook before after
  purged-OnlyFresh hook before _ _ (clean n none dir h) t = inr (nothing_left dir h)
  purged-OnlyFresh hook before _ _ (clean n (some kept) dir h) t =
      inr (only_fresh kept dir (t n kept refl) h)
  purged-OnlyFresh hook before _ _ (no_directory dir h) t = inr (no_snapshots dir h)
  purged-OnlyFresh hook before _ _ (refused e dir) t = inl (e, refl)

  -- A purge declines, or has left only the snapshot that the hook has taken.
  pub purge_all_snapshots-OnlyFresh :
      (hook : Option FreshHook) (dir : SnapshotDir)
      → ((e : PurgeError) × ((purge_all_snapshots locked hook dir).0 ≡ declined e))
        ⊎ OnlyFresh hook dir (purge_all_snapshots locked hook dir).1
  purge_all_snapshots-OnlyFresh hook dir =
      purged-OnlyFresh hook dir _ _ (purge_all_snapshots-IsPurged locked hook dir)
        (λ n kept h. purge_all_snapshots_kept hook dir kept n h)
