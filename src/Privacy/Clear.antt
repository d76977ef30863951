-- ===== src/Privacy/Clear.antt =====
-- src/features/privacy/clear.ts: the consent registry first, then the adapters in their order. An
-- adapter of the model returns its error, so there is nothing to catch around it.
pub mod Forgotten
pub mod Others
use ido_bata_server_bot.Prelude.{
  Bool, true, false, String, Option, none, some, List, [], ◌∷◌, ◌++◌, if◌then◌else◌, all, Outcome,
  ok, threw,
}
use ido_bata_server_bot.Consent.Types.{ConsentScope}
use ido_bata_server_bot.Consent.Repository.{ConsentRepository}
use ido_bata_server_bot.Consent.Service.{Service, clear}
use ido_bata_server_bot.Storage.AtomicJson.{Disk}
use ido_bata_server_bot.Birthday.Storage.{BirthdayEntry}
use ido_bata_server_bot.Poll.State.{Poll}
use ido_bata_server_bot.Reminder.Store.{PersistedReminder}
use ido_bata_server_bot.Snapshots.Purge.{SnapshotDir, FreshHook}
use ido_bata_server_bot.Privacy.Consumers.{
  DeleteResult, deleted, failed, consent_not_cleared, AttendanceHistory, delete_attendance,
  delete_birthday, delete_votes, delete_reminders, delete_snapshots,
}

pub data Consumer : Type 0 where
  consent_registry timekeeper_history birthday poll reminder state_snapshot : Consumer

-- What the clear works on: the consent service, if one is passed, and the files.
pub record World (S : Type 0) : Type 0 where
  pub consent : Option (Service S)
  pub history : Disk AttendanceHistory
  pub birthdays : Disk (List (String × BirthdayEntry))
  pub polls : Disk (List Poll)
  pub reminders : Disk (List PersistedReminder)
  pub snapshots : SnapshotDir

pub record ClearReport : Type 0 where
  pub ok : Bool
  pub results : List (Consumer × DeleteResult)
  pub subject_id : String

abbrev pub is_deleted : DeleteResult → Bool
is_deleted deleted = true
is_deleted (failed _) = false

-- The result of the registry's own clear, from the results of its scopes.
unfoldable pub registry_result : Outcome (List (ConsentScope × Bool)) → DeleteResult
registry_result (ok results) =
    if all (λ r. r.1) results then deleted else failed consent_not_cleared
registry_result (threw _) = failed consent_not_cleared

module _ {S : Type 0} (repository : ConsentRepository S) where
  unfoldable pub clear_consent :
      String → String → Option (Service S) → List (Consumer × DeleteResult) × Option (Service S)
  unfolding registry_result
  clear_consent subject at none = ([], none)
  clear_consent subject at (some service) =
      let (report, next) = clear repository subject none at service in
      ((consent_registry, registry_result report) ∷ [], some next)

  -- `locked` and `hook` are those of the snapshots.
  unfoldable pub clear_user_data :
      (String → Bool) → Option FreshHook → String → String → World S → ClearReport × World S
  unfolding clear_consent
  clear_user_data locked hook subject at w =
      let (registry, consent) = clear_consent subject at w.consent in
      let (r1, history) = delete_attendance subject w.history in
      let (r2, birthdays) = delete_birthday subject w.birthdays in
      let (r3, polls) = delete_votes subject w.polls in
      let (r4, reminders) = delete_reminders subject w.reminders in
      let (r5, snapshots) = delete_snapshots locked hook w.snapshots in
      let results =
        registry
        ++ (timekeeper_history, r1)
          ∷ (birthday, r2)
          ∷ (poll, r3)
          ∷ (reminder, r4)
          ∷ (state_snapshot, r5)
          ∷ [] in
      (
        record { ok = all (λ r. is_deleted r.1) results; results = results; subject_id = subject },
        record {
          consent = consent;
          history = history;
          birthdays = birthdays;
          polls = polls;
          reminders = reminders;
          snapshots = snapshots;
        },
      )
