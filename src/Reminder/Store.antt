-- ===== src/Reminder/Store.antt =====
-- src/features/reminder/store.ts and config.ts. A stored time is the instant of its text, or `none`
-- for a text that is no date. What JSON.parse and the schema library make of the file's text is the
-- kind of its content; a failed write is planned by the environment.
use ido_bata_server_bot.Prelude.{
  ℕ, ◌*◌, Bool, not, ◌&&◌, String, Option, List, [], if◌then◌else◌, str_eq, all, is_none, ok, threw,
  io_failure, Done, next_outcome,
}

abbrev pub max_per_user : ℕ
max_per_user = 10

abbrev pub max_duration_ms : ℕ
max_duration_ms = 7 * (24 * (60 * (60 * 1000)))

pub record PersistedReminder : Type 0 where
  pub id : String
  pub user_id : String
  pub message : String
  pub fire_at : Option ℕ
  pub created_at : Option ℕ

abbrev is_empty : String → Bool
is_empty s = str_eq s ""

-- `reminderSchema`
unfoldable pub is_valid_reminder : PersistedReminder → Bool
is_valid_reminder r =
    not (is_empty r.id)
    && (not (is_empty r.user_id)
        && (not (is_empty r.message) && (not (is_none r.fire_at) && not (is_none r.created_at))))

-- `garbled` is no JSON, `foreign` is JSON that is no list of reminders.
pub data ReminderFile : Type 0 where
  missing garbled foreign : ReminderFile
  stored : List PersistedReminder → ReminderFile

-- What a write meets: it succeeds, the file cannot be opened, or the disk fills while it is written.
pub data WriteOutcome : Type 0 where
  written unopened torn : WriteOutcome

pub record Disk : Type 0 where
  pub file : ReminderFile
  pub writes : List WriteOutcome

unfoldable pub load_reminders : ReminderFile → List PersistedReminder
unfolding is_valid_reminder
load_reminders missing = []
load_reminders garbled = []
load_reminders foreign = []
load_reminders (stored reminders) = if all is_valid_reminder reminders then reminders else []

finish_write : List PersistedReminder → WriteOutcome × List WriteOutcome → Disk → Done × Disk
finish_write reminders (written, plan) disk =
    (ok tt, record { file = stored reminders; writes = plan })
finish_write reminders (unopened, plan) disk = (threw io_failure, record disk { writes = plan })
finish_write reminders (torn, plan) disk =
    (threw io_failure, record { file = garbled; writes = plan })

unfoldable pub save_reminders : List PersistedReminder → Disk → Done × Disk
unfolding finish_write
save_reminders reminders disk = finish_write reminders (next_outcome written disk.writes) disk
