-- ===== src/Timekeeper/Examples.antt =====
-- A session with one user, its timeline and its loop.

use ido_bata_server_bot.Prelude.{
  ◌≡◌, refl, true, false, String, none, some, List, [], ◌∷◌, get, threw, refused,
}
use ido_bata_server_bot.Consent.RepositoryJson.{JsonRepository, json_repository}
use ido_bata_server_bot.Storage.AtomicJson.{
  Disk, JsonFile, stored, missing, mutate_json_file, read_json_file, read_existing,
  atomic_write_json, parse_content, mutate_read, write_changed, finish_write, after_write,
  create_temp, remove_temp,
}
use ido_bata_server_bot.Storage.PlainFile.{written}
use ido_bata_server_bot.Storage.Erasure.{Satisfies}
use ido_bata_server_bot.Snapshots.Purge.{purge_all_snapshots, purge_listed}
use ido_bata_server_bot.Privacy.Consumers.{
  delete_attendance, delete_birthday, delete_votes, delete_reminders, delete_snapshots,
  without_reminders, has_snapshots,
}
use ido_bata_server_bot.Privacy.Clear.{World, clear_consent, clear_user_data}
use ido_bata_server_bot.Timekeeper.Engagement.{
  Attendance, Session, Gate, create_session_engagement, load_attendance_history,
  persist_session_attendance,
}
use ido_bata_server_bot.Timekeeper.Engagement.History.{persist_session_attendance-get}
use ido_bata_server_bot.Timekeeper.Engagement.Deletion.{clear_user_data-persist_session_attendance}

abbrev sort : List String → List String
sort dates = dates

abbrev session : Session
session = record {
  attendance_dates_by_user_id = ("ann", "2026-01-01" ∷ []) ∷ [];
  check_ins_by_user_id = ("ann", 2 ∷ []) ∷ ("bob", 2 ∷ 4 ∷ []) ∷ [];
  id = "s1";
}

-- Everyone but ann may be recorded.
abbrev gate : Gate
gate = record { revoked_users = "ann" ∷ []; authorization = some (λ _. true) }

persist_session_attendance-get_example :
    (history : Attendance) × (((persist_session_attendance sort gate written "2026-01-02" session
          missing).history
        ≡ stored history)
      × (get "bob" history ≡ some ("2026-01-02" ∷ [])))
persist_session_attendance-get_example =
    persist_session_attendance-get sort gate (λ _. true) "2026-01-02" "bob" session missing refl

abbrev disk_with {ℓ} : {T : Type ℓ} → JsonFile T → Disk T
disk_with file = record { file = file; temps = 0; reads = []; writes = [] }

abbrev history : Attendance
history = ("ann", "2026-01-01" ∷ []) ∷ []

abbrev world : World JsonRepository
world = record {
  consent = none;
  history = disk_with (stored history);
  birthdays = disk_with missing;
  polls = disk_with missing;
  reminders = disk_with missing;
  snapshots = record { exists = false; paths = [] };
}

abbrev started : Session
started = record { attendance_dates_by_user_id = history; check_ins_by_user_id = []; id = "s1" }

cleared_run : (clear_user_data json_repository (λ _. false) none "ann" "t1" world).0.ok ≡ true
unfolding clear_user_data clear_consent delete_attendance delete_birthday delete_votes
    delete_reminders delete_snapshots without_reminders has_snapshots mutate_json_file
    read_json_file read_existing atomic_write_json parse_content mutate_read write_changed
    finish_write after_write create_temp remove_temp purge_all_snapshots purge_listed
cleared_run = refl

clear_user_data-persist_session_attendance_example :
    let file =
      (clear_user_data json_repository (λ _. false) none "ann" "t1" world).1.history.file in
    Satisfies (λ entries. get "ann" entries ≡ none) file
    × ((entries : Attendance) × (((persist_session_attendance sort gate written "2026-01-02" session
              file).history
            ≡ stored entries)
          × (get "ann" entries ≡ some ("2026-01-01" ∷ []))))
unfolding create_session_engagement load_attendance_history
clear_user_data-persist_session_attendance_example =
    clear_user_data-persist_session_attendance json_repository (λ _. false) none sort
      (threw refused) "s1" "ann" "t1" "2026-01-02" world history ("2026-01-01" ∷ []) started session
      gate (λ _. true) refl refl refl refl refl refl cleared_run
