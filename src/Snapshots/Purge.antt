-- ===== src/Snapshots/Purge.antt =====
-- src/features/state-snapshot/service.ts and retention.ts: the purge that leaves one snapshot.
-- The directory is the list of its `*.snap.enc` paths; `locked` says which of them `unlinkSync`
-- refuses. The hook that takes a fresh snapshot is the caller's and works on the directory. Of the
-- entries of a plan only the paths are read.
pub mod Laws
use ido_bata_server_bot.Prelude.{
  ℕ, Bool, true, false, not, String, Option, none, some, List, [], ◌∷◌, if◌then◌else◌, str_eq,
  length, keep, any, Outcome, ok, threw,
}

pub record SnapshotDir : Type 0 where
  pub exists : Bool
  pub paths : List String

abbrev pub has_path : String → List String → Bool
has_path path paths = any (λ p. str_eq p path) paths

-- `unlinkSync`
abbrev unlink : String → SnapshotDir → SnapshotDir
unlink path dir = record dir { paths = keep (λ p. not (str_eq p path)) dir.paths }

-- One entry of a plan: a path that is gone is passed over, and so is one that cannot be removed.
unfoldable pub remove_planned : (String → Bool) → Bool → String → SnapshotDir → SnapshotDir
remove_planned locked dry_run path dir =
    if not (has_path path dir.paths)
    then dir
    else if dry_run
    then dir
    else if locked path
    then dir
    else unlink path dir

unfoldable pub apply_retention_plan :
    (String → Bool) → Bool → List String → SnapshotDir → SnapshotDir
unfolding remove_planned
apply_retention_plan locked dry_run [] dir = dir
apply_retention_plan locked dry_run (path ∷ plan) dir =
    apply_retention_plan locked dry_run plan (remove_planned locked dry_run path dir)

pub data PurgeError : Type 0 where
  no_hook hook_threw hook_null leftover : PurgeError

pub data PurgeSnapshotsResult : Type 0 where
  purged : ℕ → Option String → PurgeSnapshotsResult
  declined : PurgeError → PurgeSnapshotsResult

-- `takeFreshSnapshot`
abbrev pub FreshHook : Type 0
FreshHook = SnapshotDir → Outcome (Option String) × SnapshotDir

-- The listing of the directory after the removals; `n` paths were to go.
unfoldable pub check_leftover : String → ℕ → SnapshotDir → PurgeSnapshotsResult × SnapshotDir
check_leftover fresh n dir =
    if any (λ p. not (str_eq p fresh)) dir.paths
    then (declined leftover, dir)
    else (purged n (some fresh), dir)

module _ (locked : String → Bool) where
  -- What follows a fresh snapshot: `paths` was listed before it was taken.
  unfoldable pub purge_but : String → List String → SnapshotDir → PurgeSnapshotsResult × SnapshotDir
  unfolding check_leftover
  purge_but fresh paths dir =
      let del = keep (λ p. not (str_eq p fresh)) paths in
      check_leftover fresh (length del) (apply_retention_plan locked false del dir)

  unfoldable pub after_hook :
      List String → Outcome (Option String) × SnapshotDir → PurgeSnapshotsResult × SnapshotDir
  unfolding purge_but
  after_hook paths (threw _, dir) = (declined hook_threw, dir)
  after_hook paths (ok none, dir) = (declined hook_null, dir)
  after_hook paths (ok (some fresh), dir) =
      if str_eq fresh "" then (declined hook_null, dir) else purge_but fresh paths dir

  -- The part behind the listing of the directory.
  unfoldable pub purge_listed :
      Option FreshHook → List String → SnapshotDir → PurgeSnapshotsResult × SnapshotDir
  unfolding after_hook
  purge_listed hook [] dir = (purged 0 none, dir)
  purge_listed none paths dir = (declined no_hook, dir)
  purge_listed (some take) paths dir = after_hook paths (take dir)

  unfoldable pub purge_all_snapshots :
      Option FreshHook → SnapshotDir → PurgeSnapshotsResult × SnapshotDir
  unfolding purge_listed
  purge_all_snapshots hook dir =
      if not dir.exists then (purged 0 none, dir) else purge_listed hook dir.paths dir
