-- ===== src/Reminder/Command.antt =====
-- src/features/reminder/command.ts over the queue. The duration is its trimmed and lowered text, the
-- message what `trim` leaves; `now` is the command's clock and `later` that of the queue. The
-- consent gate, if there is one, answers before anything else happens. A reply is its kind.
use ido_bata_server_bot.Prelude.{
  ℕ, ◌+◌, ◌-◌, ◌≤◌, ◌<◌, Bool, true, false, not, String, Option, none, some, List, if◌then◌else◌,
  is_none, str_eq, ltb, leb, Outcome, ok, threw, ◌≡◌, refl, ap, arith,
}
use ido_bata_server_bot.Reminder.Store.{PersistedReminder, max_per_user, max_duration_ms}
use ido_bata_server_bot.Reminder.Duration.{
  Character, DurationError, parsed, rejected as unparsed, parse_duration,
}
use ido_bata_server_bot.Reminder.Queue.{
  AddReminderInput, AddError, AddStarted, rejected, waiting, AddReminderResult, added, refused,
  Queue, count_for_user, add, check_add, settle_add, gate_not_configured,
}

pub data RemindReply : Type 0 where
  bad_duration : DurationError → RemindReply
  not_future over_maximum no_message at_limit : RemindReply
  add_failed : AddError → RemindReply
  confirmed : PersistedReminder → RemindReply

pub record RemindRequest : Type 0 where
  pub duration : List Character
  pub message : String
  pub user_id : String

abbrev reply_of : AddReminderResult → RemindReply
reply_of (added r) = confirmed r
reply_of (refused e) = add_failed e

-- `queue.add` with a gate that answers at once.
unfoldable pub await_add :
    AddStarted → Option (Outcome Bool) → Queue → Outcome AddReminderResult × Queue
await_add (rejected e) gate q = (ok (refused e), q)
await_add (waiting r) none q = (ok (refused gate_not_configured), q)
await_add (waiting r) (some answer) q = settle_add r answer q

unfoldable pub add_for :
    RemindRequest → ℕ → ℕ → ℕ → String → Option (Outcome Bool) → Queue → Outcome RemindReply × Queue
add_for request fire_at now later id gate q =
    let input : AddReminderInput = record {
      user_id = request.user_id;
      message = request.message;
      fire_at = some fire_at;
      created_at = some now;
    } in
    let (result, next) = await_add (add input later id (not (is_none gate)) q) gate q in
    (elim result [ threw e ↦ threw e | ok r ↦ ok (reply_of r) ], next)

unfoldable pub execute_remind_command :
    RemindRequest → ℕ → ℕ → String → Option (Outcome Bool) → Queue → Outcome RemindReply × Queue
execute_remind_command request now later id gate q = elim (parse_duration request.duration) [
  | unparsed e ↦ (ok (bad_duration e), q)
  | parsed duration_ms parts ↦
      let fire_at = now + duration_ms in
      let result = add_for request fire_at now later id gate q in
      if leb fire_at now
      then (ok not_future, q)
      else if ltb max_duration_ms duration_ms
      then (ok over_maximum, q)
      else if str_eq request.message ""
      then (ok no_message, q)
      else if leb max_per_user (count_for_user request.user_id q)
      then (ok at_limit, q)
      else result
]

-- The input of a command that asks for a time.
abbrev input_of : RemindRequest → ℕ → ℕ → AddReminderInput
input_of request fire_at now = record {
  user_id = request.user_id;
  message = request.message;
  fire_at = some fire_at;
  created_at = some now;
}

abbrev reminder_of : RemindRequest → ℕ → ℕ → String → PersistedReminder
reminder_of request fire_at now id = record {
  id = id;
  user_id = request.user_id;
  message = request.message;
  fire_at = some fire_at;
  created_at = some now;
}

not_past : (fire_at later : ℕ) → later < fire_at → leb fire_at later ≡ false
not_past fire_at later h = ground arith

not_long :
    (fire_at now later : ℕ)
    → fire_at ≤ now + max_duration_ms
    → now ≤ later
    → ltb max_duration_ms (fire_at - later) ≡ false
not_long fire_at now later h k = ground arith

module _ (request : RemindRequest) (fire_at now later : ℕ) (id : String) (q : Queue) where
  add-input_of :
      str_eq request.message "" ≡ false
      → leb max_per_user (count_for_user request.user_id q) ≡ false
      → fire_at ≤ now + max_duration_ms
      → now ≤ later
      → later < fire_at
      → add (input_of request fire_at now) later id true q
        ≡ waiting (reminder_of request fire_at now id)
  unfolding add check_add
  add-input_of m c d e f =
      rw m (rw (not_past fire_at later f) (rw (not_long fire_at now later d e) (rw c refl)))

  -- What passed the command's checks passes those of the queue as long as its clock has not reached the
  -- time of the reminder.
  add_for-settle_add :
      (answer : Outcome Bool)
      → str_eq request.message "" ≡ false
      → leb max_per_user (count_for_user request.user_id q) ≡ false
      → fire_at ≤ now + max_duration_ms
      → now ≤ later
      → later < fire_at
      → (add_for request fire_at now later id (some answer) q).1
        ≡ (settle_add (reminder_of request fire_at now id) answer q).1
  unfolding add_for await_add
  add_for-settle_add answer m c d e f =
      ap (λ (s : AddStarted). (await_add s (some answer) q).1) (add-input_of m c d e f)
