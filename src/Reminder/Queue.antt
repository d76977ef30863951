-- ===== src/Reminder/Queue.antt =====
-- src/features/reminder/service.ts: the queue of `createReminderQueue`. An `add` that passes its
-- checks waits for the consent gate; `settle_add` is what follows the gate's answer, and other
-- operations may come between. The message of an input is what `trim` leaves of it; a time of
-- firing that is no date is `none`, and a time of creation is a date where it is given. What Discord
-- answers to a message is given for each reminder.
use ido_bata_server_bot.Prelude.{
  ℕ, ◌-◌, Bool, true, false, not, String, Option, none, some, List, [], ◌∷◌, ◌++◌, if◌then◌else◌,
  str_eq, ltb, leb, length, keep, any, min, Outcome, ok, threw,
}
use ido_bata_server_bot.Reminder.Store.{
  PersistedReminder, Disk, load_reminders, save_reminders, max_per_user, max_duration_ms,
}
use ido_bata_server_bot.Reminder.Scheduler.{ReminderFire, pick_overdue_reminders, pick_next_fire}

pub record AddReminderInput : Type 0 where
  pub user_id : String
  pub message : String
  pub fire_at : Option ℕ
  pub created_at : Option ℕ

pub data AddError : Type 0 where
  empty_message invalid_fire_at not_in_future too_long limit_reached : AddError
  gate_not_configured consent_denied : AddError

-- `waiting`: the promise that is returned while the gate is asked.
pub data AddStarted : Type 0 where
  rejected : AddError → AddStarted
  waiting : PersistedReminder → AddStarted

pub data AddReminderResult : Type 0 where
  added : PersistedReminder → AddReminderResult
  refused : AddError → AddReminderResult

pub record Queue : Type 0 where
  pub reminders : List PersistedReminder
  pub disk : Disk

unfoldable pub create_reminder_queue : Disk → Queue
create_reminder_queue disk = record { reminders = load_reminders disk.file; disk = disk }

-- A failed write is logged.
unfoldable pub persist : Queue → Queue
persist q = record q { disk = (save_reminders q.reminders q.disk).1 }

unfoldable pub count_for_user : String → Queue → ℕ
count_for_user user q = length (keep (λ r. str_eq r.user_id user) q.reminders)

abbrev new_reminder : AddReminderInput → ℕ → String → ℕ → PersistedReminder
new_reminder input fire_at id now = record {
  id = id;
  user_id = input.user_id;
  message = input.message;
  fire_at = some fire_at;
  created_at = elim input.created_at [ none ↦ some now | some t ↦ some t ];
}

-- The checks behind those of the message and of the date, in their order.
unfoldable pub check_add : AddReminderInput → ℕ → ℕ → String → Bool → Queue → AddStarted
unfolding count_for_user
check_add input fire_at now id has_gate q =
    if leb fire_at now
    then rejected not_in_future
    else if ltb max_duration_ms (fire_at - now)
    then rejected too_long
    else if leb max_per_user (count_for_user input.user_id q)
    then rejected limit_reached
    else if has_gate
    then waiting (new_reminder input fire_at id now)
    else rejected gate_not_configured

-- `add` up to the call of the gate; `id` is the random identifier.
unfoldable pub add : AddReminderInput → ℕ → String → Bool → Queue → AddStarted
unfolding check_add
add input now id has_gate q =
    if str_eq input.message "" then rejected empty_message else elim input.fire_at [
      | none ↦ rejected invalid_fire_at
      | some fire_at ↦ check_add input fire_at now id has_gate q
    ]

-- What `add` does once the gate has answered.
unfoldable pub settle_add :
    PersistedReminder → Outcome Bool → Queue → Outcome AddReminderResult × Queue
unfolding persist
settle_add r (threw e) q = (threw e, q)
settle_add r (ok false) q = (ok (refused consent_denied), q)
settle_add r (ok true) q = (ok (added r), persist (record q { reminders = q.reminders ++ r ∷ [] }))

-- `sendImmediateDm` for a reminder: whether it was delivered, or a throw.
abbrev pub Delivery : Type 0
Delivery = PersistedReminder → Outcome Bool

abbrev pub was_delivered : Outcome Bool → Bool
was_delivered (ok b) = b
was_delivered (threw _) = false

-- The loop of `dispatch`: the ids of the reminders that were delivered, in order.
unfoldable pub completed_ids : Delivery → List ReminderFire → List String
completed_ids deliver [] = []
completed_ids deliver (f ∷ fires) =
    let rest = completed_ids deliver fires in
    if was_delivered (deliver f.reminder) then f.reminder.id ∷ rest else rest

-- The end of `dispatch`: `reminders` are those of the queue at that time.
unfoldable pub finish_dispatch : List String → Queue → Queue
unfolding persist
finish_dispatch [] q = q
finish_dispatch (id ∷ ids) q =
    persist
      (record q { reminders = keep (λ r. not (any (λ i. str_eq i r.id) (id ∷ ids))) q.reminders })

unfoldable pub tick : Delivery → ℕ → Queue → Queue
unfolding completed_ids finish_dispatch
tick deliver now q =
    finish_dispatch (completed_ids deliver (pick_overdue_reminders q.reminders now)) q

abbrev pub scan_interval_ms : ℕ
scan_interval_ms = 30000

-- The time that `loop` sleeps after a tick: `now` is the reading that picks the next fire, `later`
-- the one that measures the time up to it.
unfoldable pub next_delay : ℕ → ℕ → Queue → ℕ
next_delay now later q = elim (pick_next_fire q.reminders now) [
  | none ↦ scan_interval_ms
  | some f ↦ min scan_interval_ms (f.at - later)
]
