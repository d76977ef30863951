-- ===== src/Snapshots/Examples.antt =====
-- A purge of two snapshots, one of which cannot be removed.
use ido_bata_server_bot.Prelude.{
  ◌≡◌, refl, Bool, true, false, String, some, [], ◌∷◌, ◌++◌, arith, str_eq, eq_iff, ok,
}
use ido_bata_server_bot.Snapshots.Purge.{
  SnapshotDir, FreshHook, has_path, purge_all_snapshots, purge_listed, after_hook, purge_but,
  check_leftover, apply_retention_plan, remove_planned, declined, purged, leftover,
}
use ido_bata_server_bot.Snapshots.Purge.Laws.{is_nonempty, purge_all_snapshots_keeps_backup}

abbrev dir : SnapshotDir
dir = record { exists = true; paths = "a" ∷ "b" ∷ [] }

abbrev locked : String → Bool
locked path = str_eq path "b"

abbrev take : FreshHook
take d = (ok (some "c"), record d { paths = d.paths ++ "c" ∷ [] })

leftover_run :
    purge_all_snapshots locked (some take) dir
    ≡ (declined leftover, record { exists = true; paths = "b" ∷ "c" ∷ [] })
unfolding purge_all_snapshots purge_listed after_hook purge_but check_leftover apply_retention_plan
    remove_planned
leftover_run = refl

purged_run :
    purge_all_snapshots (λ _. false) (some take) dir
    ≡ (purged 2 (some "c"), record { exists = true; paths = "c" ∷ [] })
unfolding purge_all_snapshots purge_listed after_hook purge_but check_leftover apply_retention_plan
    remove_planned
purged_run = refl

taken_is_there :
    (fresh : String) → (take dir).0 ≡ ok (some fresh) → has_path fresh (take dir).1.paths ≡ true
taken_is_there fresh h = ground (arith, eq_iff "c" fresh)

purge_all_snapshots_keeps_backup_example :
    is_nonempty (purge_all_snapshots locked (some take) dir).1.paths ≡ true
purge_all_snapshots_keeps_backup_example =
    purge_all_snapshots_keeps_backup locked take dir taken_is_there refl refl
