-- ===== src/Reminder/Examples.antt =====
-- Runs of the reminder queue on concrete reminders.
use ido_bata_server_bot.Prelude.{
  ℕ, ◌+◌, ◌≤◌, true, false, not, String, none, some, List, [], ◌∷◌, str_eq, keep, ok, threw,
  io_failure, ◌≡◌, refl, arith, if◌then◌else◌,
}
use ido_bata_server_bot.Reminder.Store.{
  PersistedReminder, stored, load_reminders, max_per_user, is_valid_reminder,
}
use ido_bata_server_bot.Reminder.Duration.{
  hours, seconds, days, digit, parse_tokens, next_token, token_from, finish, has_token, unit_of,
  digits, parsed, write_token, write_tokens, write_parts, split_duration, all_units, parse_duration,
  format_duration,
}
use ido_bata_server_bot.Reminder.Duration.RoundTrip.{parse_duration-format_duration}
use ido_bata_server_bot.Reminder.Scheduler.{pick_overdue_reminders}
use ido_bata_server_bot.Reminder.Queue.{
  AddReminderInput, Queue, Delivery, create_reminder_queue, add, settle_add, tick, count_for_user,
  check_add, consent_denied,
}
use ido_bata_server_bot.Reminder.Command.{
  RemindRequest, execute_remind_command, add_for, await_add, over_maximum, add_failed,
}
use ido_bata_server_bot.Reminder.Dispatch.{is_done, reminders-tick}
use ido_bata_server_bot.Reminder.Limits.{finish_add, finish_add-limit, overlapping_adds}
use ido_bata_server_bot.Reminder.Durable.{
  Event, settled, dispatched, run, IsSynced, create_reminder_queue-run,
}

abbrev due_at : String → ℕ → PersistedReminder
due_at id at = record {
  id = id;
  user_id = "ann";
  message = "tea";
  fire_at = some at;
  created_at = some 1;
}

abbrev reminders : List PersistedReminder
reminders = due_at "b" 30 ∷ due_at "a" 20 ∷ due_at "c" 90 ∷ due_at "d" 20 ∷ []

abbrev queue : Queue
queue = record { reminders = reminders; disk = record { file = stored reminders; writes = [] } }

-- The message of "d" cannot be delivered.
abbrev deliver : Delivery
deliver r = if str_eq r.id "d" then threw io_failure else ok true

tick_at_fifty : (tick deliver 50 queue).reminders ≡ due_at "c" 90 ∷ due_at "d" 20 ∷ []
unfolding tick pick_overdue_reminders
tick_at_fifty = refl

reminders-tick_example :
    (tick deliver 50 queue).reminders ≡ keep (λ r. not (is_done deliver 50 r)) reminders
reminders-tick_example = reminders-tick deliver 50 queue (refl, (refl, (refl, (refl, tt))))

abbrev input : AddReminderInput
input = record { user_id = "ann"; message = "nap"; fire_at = some 70; created_at = none }

abbrev nap : String → PersistedReminder
nap id = record (due_at id 70) { message = "nap"; created_at = some 50 }

finish_add-limit_example :
    count_for_user "ann" (finish_add (add input 50 "e" true queue) (ok true) queue) ≤ max_per_user
unfolding count_for_user
finish_add-limit_example = finish_add-limit input 50 "e" true (ok true) "ann" queue (omega arith)

-- Nine reminders: one less than the limit.
abbrev nearly_full : Queue
nearly_full = record {
  reminders =
      due_at "1" 80
      ∷ due_at "2" 80
      ∷ due_at "3" 80
      ∷ due_at "4" 80
      ∷ due_at "5" 80
      ∷ due_at "6" 80
      ∷ due_at "7" 80
      ∷ due_at "8" 80
      ∷ due_at "9" 80
      ∷ [];
  disk = record { file = stored []; writes = [] };
}

overlapping_adds_example :
    count_for_user "ann"
      (settle_add (nap "f") (ok true) (settle_add (nap "e") (ok true) nearly_full).1).1
    ≡ max_per_user + 1
unfolding add check_add count_for_user
overlapping_adds_example =
    overlapping_adds input input 50 "e" "f" nearly_full (nap "e") (nap "f") refl refl refl refl

abbrev events : List Event
events = settled (nap "e") (ok true) ∷ dispatched ("a" ∷ "b" ∷ []) ∷ []

abbrev synced : IsSynced queue
unfolding load_reminders is_valid_reminder
synced = record { file = refl; valid = refl; plan = refl }

create_reminder_queue-run_example : create_reminder_queue (run events queue).disk ≡ run events queue
unfolding is_valid_reminder
create_reminder_queue-run_example = create_reminder_queue-run events queue (refl, (tt, tt)) synced

-- One hour, half a minute and half a second.
hour_run :
    format_duration 3630500 ≡ digit 1 ∷ unit_of hours ∷ digit 3 ∷ digit 0 ∷ unit_of seconds ∷ []
unfolding format_duration write_parts split_duration write_tokens write_token digits
hour_run = refl

parse_duration-format_duration_example :
    parse_duration (format_duration 3630500) ≡ parsed 3630000 (split_duration all_units 3630000)
parse_duration-format_duration_example = parse_duration-format_duration 3630500 (omega arith)

abbrev asked : ℕ → RemindRequest
asked n = record { duration = digit n ∷ unit_of days ∷ []; message = "tea"; user_id = "ann" }

abbrev empty_queue : Queue
empty_queue = record { reminders = []; disk = record { file = stored []; writes = [] } }

too_far_run :
    execute_remind_command (asked 8) 5 5 "r1" (some (ok true)) empty_queue
    ≡ (ok over_maximum, empty_queue)
unfolding execute_remind_command parse_duration parse_tokens next_token token_from finish has_token
    count_for_user add_for add check_add await_add settle_add
too_far_run = refl

denied_run :
    execute_remind_command (asked 7) 5 5 "r1" (some (ok false)) empty_queue
    ≡ (ok (add_failed consent_denied), empty_queue)
unfolding execute_remind_command parse_duration parse_tokens next_token token_from finish has_token
    count_for_user add_for add check_add await_add settle_add
denied_run = refl
