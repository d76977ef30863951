-- ===== src/Reminder/Durable.antt =====
-- The queue of src/features/reminder/service.ts across restarts of the bot.
use ido_bata_server_bot.Prelude.{
  Bool, true, false, not, String, List, [], ◌∷◌, ◌++◌, str_eq, keep, all, Outcome, ok, threw, ◌≡◌,
  arith, all-append, all-keep, any,
}
use ido_bata_server_bot.Reminder.Store.{
  PersistedReminder, load_reminders, save_reminders, is_valid_reminder,
}
use ido_bata_server_bot.Reminder.Queue.{
  Queue, create_reminder_queue, finish_dispatch, persist, settle_add,
}

-- What changes the queue: an answer of the gate for a waiting reminder, and the end of a dispatch,
-- with the ids that were delivered. Between the start of either and its end others may come.
pub data Event : Type 0 where
  settled : PersistedReminder → Outcome Bool → Event
  dispatched : List String → Event

unfoldable pub apply : Event → Queue → Queue
apply (settled r answer) q = (settle_add r answer q).1
apply (dispatched ids) q = finish_dispatch ids q

unfoldable pub run : List Event → Queue → Queue
unfolding apply
run [] q = q
run (e ∷ es) q = run es (apply e q)

-- The reminder that an event may add passes the schema.
abbrev IsValidEvent : Event → Type 0
IsValidEvent (settled r answer) = is_valid_reminder r ≡ true
IsValidEvent (dispatched ids) = Unit

abbrev pub AreValidEvents : List Event → Type 0
AreValidEvents [] = Unit
AreValidEvents (e ∷ es) = IsValidEvent e × AreValidEvents es

-- The file gives the queue's reminders, and no write is to fail.
pub record IsSynced (q : Queue) : Type 0 where
  pub file : load_reminders q.disk.file ≡ q.reminders
  pub valid : all is_valid_reminder q.reminders ≡ true
  pub plan : q.disk.writes ≡ []

persist-IsSynced :
    (q : Queue)
    → all is_valid_reminder q.reminders ≡ true
    → q.disk.writes ≡ []
    → IsSynced (persist q)
unfolding persist save_reminders load_reminders
persist-IsSynced q v w = record { file = ground (arith, v, w); valid = v; plan = ground (arith, w) }

apply-IsSynced : (e : Event) (q : Queue) → IsValidEvent e → IsSynced q → IsSynced (apply e q)
unfolding apply settle_add finish_dispatch
apply-IsSynced (settled r (threw _)) q v h = h
apply-IsSynced (settled r (ok false)) q v h = h
apply-IsSynced (settled r (ok true)) q v h =
    persist-IsSynced (record q { reminders = q.reminders ++ r ∷ [] })
      (ground (arith, h.valid, v, all-append is_valid_reminder q.reminders (r ∷ []))) h.plan
apply-IsSynced (dispatched []) q v h = h
apply-IsSynced (dispatched (id ∷ ids)) q v h =
    persist-IsSynced
      (record q { reminders = keep (λ r. not (any (λ i. str_eq i r.id) (id ∷ ids))) q.reminders })
      (all-keep is_valid_reminder (λ r. not (any (λ i. str_eq i r.id) (id ∷ ids))) q.reminders
        h.valid)
      h.plan

run-IsSynced : (es : List Event) (q : Queue) → AreValidEvents es → IsSynced q → IsSynced (run es q)
unfolding run
run-IsSynced [] q v h = h
run-IsSynced (e ∷ es) q v h = run-IsSynced es (apply e q) v.1 (apply-IsSynced e q v.0 h)

-- From a queue that its file gives, with reminders that pass the schema and no write that is to
-- fail: a restart after any series of settled adds of reminders that pass the schema and finished
-- dispatches, overlapping or not, gives the queue as it was.
pub create_reminder_queue-run :
    (es : List Event) (q : Queue)
    → AreValidEvents es
    → IsSynced q
    → create_reminder_queue (run es q).disk ≡ run es q
unfolding create_reminder_queue
create_reminder_queue-run es q v h = ground (arith, (run-IsSynced es q v h).file)
