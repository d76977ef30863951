-- ===== src/Privacy/Consumers.antt =====
-- src/features/privacy/consumers/: the adapters that delete one user's data. A file's content is
-- what its schema can read; the texts of errors are their kinds.
pub mod Laws
use ido_bata_server_bot.Prelude.{
  ℕ, Bool, true, false, not, ◌&&◌, ◌||◌, String, Option, none, some, List, [], ◌∷◌, if◌then◌else◌,
  ◌==◌, str_eq, length, keep, all, any, is_none, get, delete, Failure,
}
use ido_bata_server_bot.Storage.AtomicJson.{
  JsonError, Result, value, error, Disk, Options, mutate_json_file,
}
use ido_bata_server_bot.Snapshots.Purge.{
  SnapshotDir, FreshHook, PurgeError, no_hook, PurgeSnapshotsResult, purged, declined,
  purge_all_snapshots,
}
use ido_bata_server_bot.Birthday.Storage.{BirthdayEntry}
use ido_bata_server_bot.Poll.State.{Poll, is_empty}
use ido_bata_server_bot.Reminder.Store.{PersistedReminder}

pub data DeleteError : Type 0 where
  from_file : JsonError → DeleteError
  from_purge : PurgeError → DeleteError
  consent_not_cleared : DeleteError

-- `DeleteResult`
pub data DeleteResult : Type 0 where
  deleted : DeleteResult
  failed : DeleteError → DeleteResult

-- The mutation of an adapter: no file is created.
abbrev pub erasing {ℓ} : {T : Type ℓ} → (T → Bool) → (T → Option T) → Options T
erasing valid mutate = record {
  valid = valid;
  mutate = mutate;
  create_if_missing = false;
  initial = none;
}

abbrev pub outcome_of : Result Bool → DeleteResult
outcome_of (value _) = deleted
outcome_of (error e) = failed (from_file e)

-- The end of an adapter's `runDelete`.
abbrev pub run_delete {ℓ} : {T : Type ℓ} → Options T → Disk T → DeleteResult × Disk T
run_delete options d =
    let (outcome, next) = mutate_json_file options d in (outcome_of outcome, next)

-- The entry of a user goes from a record by users.
abbrev pub without_key {ℓ} : {A : Type ℓ} → String → List (String × A) → Option (List (String × A))
without_key user entries = if is_none (get user entries) then none else some (delete user entries)

-- Dates by user.
abbrev pub AttendanceHistory : Type 0
AttendanceHistory = List (String × List String)

-- consumers/timekeeper.ts; its schema asks no more than the shape.
abbrev pub history_options : String → Options AttendanceHistory
history_options user = erasing (λ _. true) (without_key user)

unfoldable pub delete_attendance :
    String → Disk AttendanceHistory → DeleteResult × Disk AttendanceHistory
delete_attendance user d = run_delete (history_options user) d

-- consumers/birthday.ts
abbrev pub birthday_options : String → Options (List (String × BirthdayEntry))
birthday_options user = erasing (λ _. true) (without_key user)

unfoldable pub delete_birthday :
    String
    → Disk (List (String × BirthdayEntry))
    → DeleteResult × Disk (List (String × BirthdayEntry))
delete_birthday user d = run_delete (birthday_options user) d

-- consumers/reminder.ts
unfoldable pub without_reminders : String → List PersistedReminder → Option (List PersistedReminder)
without_reminders user reminders =
    let filtered = keep (λ r. not (str_eq r.user_id user)) reminders in
    if length filtered == length reminders then none else some filtered

abbrev pub reminder_options : String → Options (List PersistedReminder)
reminder_options user = erasing (λ _. true) (without_reminders user)

unfoldable pub delete_reminders :
    String → Disk (List PersistedReminder) → DeleteResult × Disk (List PersistedReminder)
delete_reminders user d = run_delete (reminder_options user) d

-- consumers/poll.ts: `privacyPollSchema`
unfoldable pub is_privacy_poll : Poll → Bool
is_privacy_poll poll = not (is_empty poll.creator_id) && not (is_empty poll.id)

unfoldable pub has_vote : String → Poll → Bool
has_vote user poll = not (is_none (get user poll.votes))

abbrev pub without_vote : String → Poll → Poll
without_vote user poll = record poll { votes = delete user poll.votes }

-- The loop over the polls: `nextPolls`, and whether anything `changed`.
unfoldable pub next_polls : String → List Poll → List Poll
unfolding has_vote
next_polls user [] = []
next_polls user (poll ∷ polls) =
    let rest = next_polls user polls in
    if str_eq poll.creator_id user
    then rest
    else if has_vote user poll
    then without_vote user poll ∷ rest
    else poll ∷ rest

unfoldable pub is_changed : String → List Poll → Bool
unfolding has_vote
is_changed user polls = any (λ poll. str_eq poll.creator_id user || has_vote user poll) polls

unfoldable pub without_polls : String → List Poll → Option (List Poll)
unfolding next_polls is_changed
without_polls user polls = if is_changed user polls then some (next_polls user polls) else none

abbrev pub poll_options : String → Options (List Poll)
poll_options user = erasing (all is_privacy_poll) (without_polls user)

unfoldable pub delete_votes : String → Disk (List Poll) → DeleteResult × Disk (List Poll)
delete_votes user d = run_delete (poll_options user) d

abbrev pub purge_outcome : PurgeSnapshotsResult → DeleteResult
purge_outcome (purged _ _) = deleted
purge_outcome (declined e) = failed (from_purge e)

-- `hasSnapshots`
unfoldable pub has_snapshots : SnapshotDir → Bool
has_snapshots dir = dir.exists && any (λ _. true) dir.paths

-- consumers/state-snapshot.ts
unfoldable pub delete_snapshots :
    (String → Bool) → Option FreshHook → SnapshotDir → DeleteResult × SnapshotDir
unfolding has_snapshots
delete_snapshots locked hook dir =
    if is_none hook && has_snapshots dir
    then (failed (from_purge no_hook), dir)
    else let (result, next) = purge_all_snapshots locked hook dir in (purge_outcome result, next)
