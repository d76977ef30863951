-- ===== src/Reminder/Dispatch.antt =====
-- What a tick of src/features/reminder/service.ts takes from the queue.
use ido_bata_server_bot.Prelude.{
  ℕ, Bool, true, false, not, ◌&&◌, ◌||◌, String, List, [], ◌∷◌, str_eq, str_eq_refl, eq_iff, keep,
  any, All, ◌≡◌, refl, arith,
}
use ido_bata_server_bot.Reminder.Store.{PersistedReminder}
use ido_bata_server_bot.Reminder.Scheduler.{
  ReminderFire, due_fires, insert_fire, sort_fires, pick_overdue_reminders,
}
use ido_bata_server_bot.Reminder.Overdue.{is_due}
use ido_bata_server_bot.Reminder.Queue.{
  Queue, Delivery, was_delivered, completed_ids, finish_dispatch, tick, persist,
}

any-insert_fire :
    (test : ReminderFire → Bool) (f : ReminderFire) (fires : List ReminderFire)
    → any test (insert_fire f fires) ≡ (test f || any test fires)
unfolding insert_fire
any-insert_fire test f [] = refl
any-insert_fire test f (g ∷ fires) = ground (arith, any-insert_fire test f fires)

any-sort_fires :
    (test : ReminderFire → Bool) (fires : List ReminderFire)
    → any test (sort_fires fires) ≡ any test fires
unfolding sort_fires
any-sort_fires test [] = refl
any-sort_fires test (f ∷ fires) =
    ground (arith, any-insert_fire test f (sort_fires fires), any-sort_fires test fires)

-- A tick takes away the reminder: it is due, and its message is delivered.
abbrev pub is_done : Delivery → ℕ → PersistedReminder → Bool
is_done deliver now r = is_due now r.fire_at && was_delivered (deliver r)

any-completed_ids :
    (deliver : Delivery) (id : String) (fires : List ReminderFire)
    → any (λ i. str_eq i id) (completed_ids deliver fires)
      ≡ any (λ f. was_delivered (deliver f.reminder) && str_eq f.reminder.id id) fires
unfolding completed_ids
any-completed_ids deliver id [] = refl
any-completed_ids deliver id (f ∷ fires) = ground (arith, any-completed_ids deliver id fires)

any-due_fires :
    (deliver : Delivery) (now : ℕ) (id : String) (reminders : List PersistedReminder)
    → any
        (λ f. was_delivered (deliver f.reminder) && str_eq f.reminder.id id)
        (due_fires reminders now)
      ≡ any (λ r. is_done deliver now r && str_eq r.id id) reminders
unfolding due_fires
any-due_fires deliver now id [] = refl
any-due_fires deliver now id (r ∷ rs) = ground (arith, any-due_fires deliver now id rs)

-- No two reminders have the same id.
abbrev pub AreDistinct : List PersistedReminder → Type 0
AreDistinct [] = Unit
AreDistinct (r ∷ rs) = (any (λ x. str_eq x.id r.id) rs ≡ false) × AreDistinct rs

any_and :
    (test : PersistedReminder → Bool) (id : String) (reminders : List PersistedReminder)
    → any (λ x. str_eq x.id id) reminders ≡ false
    → any (λ x. test x && str_eq x.id id) reminders ≡ false
any_and test id [] h = refl
any_and test id (r ∷ rs) h = ground (arith, any_and test id rs)

-- Among reminders with distinct ids, one with the id of `r` passes exactly when `r` does; `x` stands
-- before them.
own_id_behind :
    (test : PersistedReminder → Bool) (x : PersistedReminder) (rest list : List PersistedReminder)
    → any (λ y. str_eq y.id x.id) rest ≡ false
    → All (λ r. any (λ y. test y && str_eq y.id r.id) list ≡ test r) rest
    → All (λ r. any (λ y. test y && str_eq y.id r.id) (x ∷ list) ≡ test r) rest
own_id_behind test x [] list h k = tt
own_id_behind test x (r ∷ rest) list h k = (
  ground (arith, h, k.0, eq_iff x.id r.id, str_eq_refl r.id),
  own_id_behind test x rest list (ground (arith, h)) k.1,
)

own_id :
    (test : PersistedReminder → Bool) (reminders : List PersistedReminder)
    → AreDistinct reminders
    → All (λ r. any (λ y. test y && str_eq y.id r.id) reminders ≡ test r) reminders
own_id test [] h = tt
own_id test (r ∷ rs) h = (
  ground (arith, any_and test r.id rs h.0, str_eq_refl r.id),
  own_id_behind test r rs rs h.0 (own_id test rs h.1),
)

keep-cong :
    (t u : PersistedReminder → Bool) (reminders : List PersistedReminder)
    → All (λ r. t r ≡ u r) reminders
    → keep (λ r. not (t r)) reminders ≡ keep (λ r. not (u r)) reminders
keep-cong t u [] h = refl
keep-cong t u (r ∷ rs) h = ground (arith, h.0, keep-cong t u rs h.1)

keep_all : (reminders : List PersistedReminder) → keep (λ r. true) reminders ≡ reminders
keep_all [] = refl
keep_all (r ∷ rs) = ground (arith, keep_all rs)

finish_dispatch-reminders :
    (ids : List String) (q : Queue)
    → (finish_dispatch ids q).reminders ≡ keep (λ r. not (any (λ i. str_eq i r.id) ids)) q.reminders
unfolding finish_dispatch persist
finish_dispatch-reminders [] q = ground (arith, keep_all q.reminders)
finish_dispatch-reminders (id ∷ ids) q = refl

is_completed :
    (deliver : Delivery) (now : ℕ) (reminders list : List PersistedReminder)
    → All
        (λ r.
          any (λ y. is_done deliver now y && str_eq y.id r.id) reminders ≡ is_done deliver now r)
        list
    → All
        (λ r.
          any (λ i. str_eq i r.id) (completed_ids deliver (pick_overdue_reminders reminders now))
          ≡ is_done deliver now r)
        list
unfolding pick_overdue_reminders
is_completed deliver now reminders [] h = tt
is_completed deliver now reminders (r ∷ list) h = (
  ground (
    arith,
    h.0,
    any-completed_ids deliver r.id (sort_fires (due_fires reminders now)),
    any-sort_fires (λ f. was_delivered (deliver f.reminder) && str_eq f.reminder.id r.id)
        (due_fires reminders now),
    any-due_fires deliver now r.id reminders,
  ),
  is_completed deliver now reminders list h.1,
)

-- A tick that no other operation interrupts takes away exactly the reminders that are due and whose
-- message is delivered, and keeps the others in their order: a reminder that is not due, that cannot
-- be delivered or whose delivery throws stays in the queue. Ids must be distinct.
pub reminders-tick :
    (deliver : Delivery) (now : ℕ) (q : Queue)
    → AreDistinct q.reminders
    → (tick deliver now q).reminders ≡ keep (λ r. not (is_done deliver now r)) q.reminders
unfolding tick
reminders-tick deliver now q h = ground (
  arith,
  finish_dispatch-reminders (completed_ids deliver (pick_overdue_reminders q.reminders now)) q,
  keep-cong
      (λ r.
        any (λ i. str_eq i r.id) (completed_ids deliver (pick_overdue_reminders q.reminders now)))
      (is_done deliver now) q.reminders
      (is_completed deliver now q.reminders q.reminders
        (own_id (is_done deliver now) q.reminders h)),
)
