-- ===== src/Privacy/Examples.antt =====
-- One user's data in every file, and its deletion.
use mathlib.Core.Option
use ido_bata_server_bot.Prelude.{
  ◌≡◌, refl, Bool, true, false, String, none, some, List, [], ◌∷◌, subst, ◌++◌, arith, find, ok,
}
use ido_bata_server_bot.Consent.Types.{ConsentRecord, profile, has_key, scope_eq, is_valid_record}
use ido_bata_server_bot.Consent.Repository.Rows.{grants}
use ido_bata_server_bot.Consent.RepositoryJson.{JsonRepository, json_repository, load, remove}
use ido_bata_server_bot.Consent.RepositoryJson.Laws.{IsReady, stored, json_repository-IsRepository}
use ido_bata_server_bot.Consent.Samples.{
  message, new_message, row, service, one_row, one_row-IsCoherent,
}
use ido_bata_server_bot.Consent.Service.{Service, clear, clear_records, clear_one, load_all}
use ido_bata_server_bot.Consent.Service.Laws.{IsCoherent}
use ido_bata_server_bot.Storage.AtomicJson.{
  Disk, JsonFile, mutate_json_file, read_json_file, read_existing, atomic_write_json, parse_content,
  mutate_read, write_changed, finish_write, after_write, create_temp, remove_temp,
}
use ido_bata_server_bot.Storage.AtomicJson
use ido_bata_server_bot.Snapshots.Purge.{
  FreshHook, purge_all_snapshots, purge_listed, after_hook, purge_but, check_leftover,
  apply_retention_plan, remove_planned,
}
use ido_bata_server_bot.Privacy.Consumers.{
  delete_attendance, delete_birthday, delete_votes, delete_reminders, delete_snapshots,
  without_reminders, has_snapshots,
}
use ido_bata_server_bot.Privacy.Clear.{World, registry_result, clear_consent, clear_user_data}
use ido_bata_server_bot.Privacy.Clear.Forgotten.{
  IsForgotten, clear_user_data-IsForgotten, clear_user_data_revokes,
}
use ido_bata_server_bot.Privacy.Clear.Others.{SameOthers, other_rows, clear_user_data-SameOthers}

abbrev disk_with {ℓ} : {T : Type ℓ} → JsonFile T → Disk T
disk_with file = record { file = file; temps = 0; reads = []; writes = [] }

abbrev world : World JsonRepository
world = record {
  consent = some (service one_row);
  history =
      disk_with (AtomicJson.stored (("ann", "2026-01-01" ∷ []) ∷ ("bob", "2026-01-02" ∷ []) ∷ []));
  birthdays = disk_with AtomicJson.missing;
  polls = disk_with AtomicJson.missing;
  reminders = disk_with (
      AtomicJson.stored (
        record {
          id = "r1";
          user_id = "ann";
          message = "tea";
          fire_at = some 5;
          created_at = some 1;
        }
        ∷ record {
          id = "r2";
          user_id = "bob";
          message = "tea";
          fire_at = some 6;
          created_at = some 1;
        }
        ∷ []));
  snapshots = record { exists = true; paths = "old" ∷ [] };
}

abbrev unlocked : String → Bool
unlocked _ = false

abbrev take : FreshHook
take d = (ok (some "new"), record d { paths = d.paths ++ "new" ∷ [] })

cleared_run : (clear_user_data json_repository unlocked (some take) "ann" "t1" world).0.ok ≡ true
unfolding clear_user_data clear_consent registry_result clear clear_records clear_one load_all load
    remove json_repository has_key scope_eq is_valid_record delete_attendance delete_birthday
    delete_votes delete_reminders delete_snapshots without_reminders has_snapshots mutate_json_file
    read_json_file read_existing atomic_write_json parse_content mutate_read write_changed
    finish_write after_write create_temp remove_temp purge_all_snapshots purge_listed after_hook
    purge_but check_leftover apply_retention_plan remove_planned
cleared_run = refl

clear_user_data-IsForgotten_example :
    IsForgotten "ann"
      (some take)
      world.snapshots
      (clear_user_data json_repository unlocked (some take) "ann" "t1" world).1
clear_user_data-IsForgotten_example =
    clear_user_data-IsForgotten json_repository unlocked (some take) "ann" "t1" world cleared_run

clear_user_data_revokes_example :
    Option.map
      (λ s. find (grants "ann" profile) (stored s.storage))
      (clear_user_data json_repository unlocked (some take) "ann" "t1" world).1.consent
    ≡ some none
unfolding has_key scope_eq
clear_user_data_revokes_example =
    clear_user_data_revokes json_repository unlocked (some take) "ann" "t1"
      json_repository-IsRepository world (service one_row) profile refl one_row-IsCoherent
      (omega arith) cleared_run

first_of : {s : Service JsonRepository} → world.consent ≡ some s → service one_row ≡ s
first_of h = cc

-- The service of the world is in order.
world-IsCoherent :
    (service : Service JsonRepository)
    → world.consent ≡ some service
    → IsCoherent stored IsReady service
world-IsCoherent s h = subst (IsCoherent stored IsReady) (first_of h) one_row-IsCoherent

clear_user_data-SameOthers_example :
    let after = (clear_user_data json_repository unlocked none "ann" "t1" world).1 in
    SameOthers "ann" after world
    × (other_rows stored "ann" after.consent ≡ other_rows stored "ann" world.consent)
clear_user_data-SameOthers_example =
    clear_user_data-SameOthers json_repository-IsRepository unlocked none "ann" "t1" world
      world-IsCoherent

-- A row that was revoked in front of an active one, as a pass over a second message leaves them: the
-- clear reports success and the grant is still there.
abbrev revoked_first : List ConsentRecord
revoked_first = row "ann" message (some "t0") ∷ row "ann" new_message none ∷ []

grant_left_run :
    let r = clear json_repository "ann" none "t1" (service revoked_first) in
    (r.0 ≡ ok ((profile, true) ∷ [])) × (stored r.1.storage ≡ row "ann" new_message none ∷ [])
unfolding clear clear_records clear_one load_all load remove json_repository has_key scope_eq
    is_valid_record
grant_left_run = (refl, refl)
