-- ===== src/Reminder/Limits.antt =====
-- What `add` of src/features/reminder/service.ts admits, alone and when two calls overlap.
use ido_bata_server_bot.Prelude.{
  ℕ, ◌+◌, ◌≤◌, Bool, true, false, not, ◌&&◌, String, Option, none, some, [], ◌∷◌, ◌++◌,
  if◌then◌else◌, str_eq, leb, ltb, keep, Outcome, ok, threw, ◌≡◌, refl, arith, keep-append,
  length-append, Option-cases, inl, inr, eq_iff, str_eq_refl,
}
use ido_bata_server_bot.Reminder.Store.{PersistedReminder, max_per_user, max_duration_ms}
use ido_bata_server_bot.Reminder.Queue.{
  AddReminderInput, AddStarted, rejected, waiting, Queue, count_for_user, add, check_add,
  settle_add, persist,
}

abbrev pub is_waiting : AddStarted → Bool
is_waiting (waiting _) = true
is_waiting (rejected _) = false

settled-reminders :
    (r : PersistedReminder) (q : Queue)
    → (settle_add r (ok true) q).1.reminders ≡ q.reminders ++ r ∷ []
unfolding settle_add persist
settled-reminders r q = refl

pub count_for_user-settle_add :
    (user : String) (r : PersistedReminder) (q : Queue)
    → count_for_user user (settle_add r (ok true) q).1
      ≡ count_for_user user q + (if str_eq r.user_id user then 1 else 0)
unfolding count_for_user
count_for_user-settle_add user r q = ground (
  arith,
  settled-reminders r q,
  keep-append (λ x. str_eq x.user_id user) q.reminders (r ∷ []),
  length-append (keep (λ x. str_eq x.user_id user) q.reminders)
      (keep (λ x. str_eq x.user_id user) (r ∷ [])),
)

-- Later than `now` and at most seven days away.
abbrev pub is_within : ℕ → Option ℕ → Bool
is_within now none = false
is_within now (some at) = ltb now at && leb at (now + max_duration_ms)

-- An `add` waits for the gate exactly when every check passes: its message is not empty, its time is
-- in the future and at most seven days away, the user has fewer reminders than the limit, and there
-- is a gate. The reminder is the user's, at that time.
pub add-waiting :
    (input : AddReminderInput) (now : ℕ) (id : String) (has_gate : Bool) (q : Queue)
    → (is_waiting (add input now id has_gate q) ≡ (
        not (str_eq input.message "")
        && (is_within now input.fire_at
            && (ltb (count_for_user input.user_id q) max_per_user && has_gate))))
      × ((r : PersistedReminder)
          → add input now id has_gate q ≡ waiting r
          → (r.id ≡ id)
            × (r.user_id ≡ input.user_id)
            × (r.message ≡ input.message)
            × (r.fire_at ≡ input.fire_at))
unfolding add check_add
add-waiting input now id has_gate q = elim (Option-cases input.fire_at) [
  | inl e ↦ (ground (arith, e), λ r h. ground (arith, e, h))
  | inr (at, e) ↦ (ground (arith, e), λ r h. ground (arith, e, h))
]

-- `add` with nothing between its checks and the gate's answer.
abbrev pub finish_add : AddStarted → Outcome Bool → Queue → Queue
finish_add (rejected e) answer q = q
finish_add (waiting r) answer q = (settle_add r answer q).1

finish_add_limit_from :
    (input : AddReminderInput) (now : ℕ) (id : String) (has_gate : Bool) (answer : Outcome Bool)
    (user : String) (q : Queue) (started : AddStarted)
    → add input now id has_gate q ≡ started
    → count_for_user user q ≤ max_per_user
    → count_for_user user (finish_add started answer q) ≤ max_per_user
unfolding settle_add
finish_add_limit_from input now id has_gate answer user q (rejected _) e h = h
finish_add_limit_from input now id has_gate (threw _) user q (waiting r) e h = h
finish_add_limit_from input now id has_gate (ok false) user q (waiting r) e h = h
finish_add_limit_from input now id has_gate (ok true) user q (waiting r) e h = ground (
  arith,
  h,
  (add-waiting input now id has_gate q).0,
  (add-waiting input now id has_gate q).1 r e,
  e,
  count_for_user-settle_add user r q,
  eq_iff r.user_id user,
)

-- When no other operation comes between, `add` keeps every user at or below the limit, whatever the
-- gate answers.
pub finish_add-limit :
    (input : AddReminderInput) (now : ℕ) (id : String) (has_gate : Bool) (answer : Outcome Bool)
    (user : String) (q : Queue)
    → count_for_user user q ≤ max_per_user
    → count_for_user user (finish_add (add input now id has_gate q) answer q) ≤ max_per_user
finish_add-limit input now id has_gate answer user q h =
    finish_add_limit_from input now id has_gate answer user q _ refl h

-- Two calls of `add` for a user with one reminder less than the limit, both made before the gate has
-- answered either, and both allowed by it: both pass the checks, and both reminders are stored, one
-- more than the limit allows.
pub overlapping_adds :
    (first second : AddReminderInput) (now : ℕ) (id other : String) (q : Queue)
    (r s : PersistedReminder)
    → first.user_id ≡ second.user_id
    → add first now id true q ≡ waiting r
    → add second now other true q ≡ waiting s
    → count_for_user first.user_id q + 1 ≡ max_per_user
    → count_for_user first.user_id (settle_add s (ok true) (settle_add r (ok true) q).1).1
      ≡ max_per_user + 1
overlapping_adds first second now id other q r s same a b n = ground (
  arith,
  same,
  n,
  (add-waiting first now id true q).1 r a,
  (add-waiting second now other true q).1 s b,
  count_for_user-settle_add first.user_id r q,
  count_for_user-settle_add first.user_id s (settle_add r (ok true) q).1,
  str_eq_refl first.user_id,
)
