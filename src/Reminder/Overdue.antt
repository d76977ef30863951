-- ===== src/Reminder/Overdue.antt =====
-- What src/features/reminder/scheduler.ts picks.
use ido_bata_server_bot.Prelude.{
  ℕ, ◌≤◌, Bool, true, false, ◌&&◌, Option, none, some, List, [], ◌∷◌, if◌then◌else◌, ltb, leb, ◌≡◌,
  refl, count, all, arith,
}
use ido_bata_server_bot.Reminder.Store.{PersistedReminder}
use ido_bata_server_bot.Reminder.Scheduler.{
  ReminderFire, due_fires, insert_fire, sort_fires, pick_overdue_reminders, get_next_fire_time,
  next_from, pick_next_fire, better,
}

-- The reminder's time is a date and not later than `now`.
abbrev pub is_due : ℕ → Option ℕ → Bool
is_due now none = false
is_due now (some at) = leb at now

abbrev pub IsSorted : List ReminderFire → Type 0
IsSorted [] = Unit
IsSorted (f ∷ fires) = (all (λ g. leb f.at g.at) fires ≡ true) × IsSorted fires

all-insert_fire :
    (test : ReminderFire → Bool) (f : ReminderFire) (fires : List ReminderFire)
    → all test (insert_fire f fires) ≡ (test f && all test fires)
unfolding insert_fire
all-insert_fire test f [] = ground arith
all-insert_fire test f (g ∷ fires) = ground (arith, all-insert_fire test f fires)

all-leb :
    (a b : ℕ) (fires : List ReminderFire)
    → a ≤ b
    → all (λ g. leb b g.at) fires ≡ true
    → all (λ g. leb a g.at) fires ≡ true
all-leb a b [] h k = refl
all-leb a b (f ∷ fires) h k = ground (arith, all-leb a b fires h)

insert_fire-IsSorted :
    (f : ReminderFire) (fires : List ReminderFire) → IsSorted fires → IsSorted (insert_fire f fires)
unfolding insert_fire
insert_fire-IsSorted f [] h = (refl, tt)
insert_fire-IsSorted f (g ∷ fires) h = ground (
  arith,
  h,
  insert_fire-IsSorted f fires h.1,
  all-insert_fire (λ x. leb g.at x.at) f fires,
  all-leb f.at g.at fires,
)

sort_fires-IsSorted : (fires : List ReminderFire) → IsSorted (sort_fires fires)
unfolding sort_fires
sort_fires-IsSorted [] = tt
sort_fires-IsSorted (f ∷ fires) =
    insert_fire-IsSorted f (sort_fires fires) (sort_fires-IsSorted fires)

count-insert_fire :
    (test : ReminderFire → Bool) (f : ReminderFire) (fires : List ReminderFire)
    → count test (insert_fire f fires) ≡ count test (f ∷ fires)
unfolding insert_fire
count-insert_fire test f [] = ground arith
count-insert_fire test f (g ∷ fires) = ground (arith, count-insert_fire test f fires)

count-sort_fires :
    (test : ReminderFire → Bool) (fires : List ReminderFire)
    → count test (sort_fires fires) ≡ count test fires
unfolding sort_fires
count-sort_fires test [] = refl
count-sort_fires test (f ∷ fires) =
    ground (arith, count-insert_fire test f (sort_fires fires), count-sort_fires test fires)

count-due_fires :
    (test : PersistedReminder → Bool) (reminders : List PersistedReminder) (now : ℕ)
    → count (λ f. test f.reminder) (due_fires reminders now)
      ≡ count (λ r. is_due now r.fire_at && test r) reminders
unfolding due_fires
count-due_fires test [] now = refl
count-due_fires test (r ∷ rs) now = ground (arith, count-due_fires test rs now)

-- The overdue reminders come in the order of their times, and each reminder comes exactly as often
-- as it is stored with a valid time that is not later than now: by every test, as many reminders
-- pass among those picked as among the due ones.
pub pick_overdue_reminders_lem :
    (test : PersistedReminder → Bool) (reminders : List PersistedReminder) (now : ℕ)
    → IsSorted (pick_overdue_reminders reminders now)
      × (count (λ f. test f.reminder) (pick_overdue_reminders reminders now)
          ≡ count (λ r. is_due now r.fire_at && test r) reminders)
unfolding pick_overdue_reminders
pick_overdue_reminders_lem test reminders now = (
  sort_fires-IsSorted (due_fires reminders now),
  ground (
    arith,
    count-sort_fires (λ f. test f.reminder) (due_fires reminders now),
    count-due_fires test reminders now,
  ),
)

abbrev pub fires_at : Option ReminderFire → Option ℕ
fires_at none = none
fires_at (some f) = some f.at

-- The smaller of two times, where there is one.
abbrev pub least : Option ℕ → Option ℕ → Option ℕ
least none b = b
least (some a) none = some a
least (some a) (some b) = if ltb b a then some b else some a

-- The earliest of the times that are later than now.
unfoldable pub earliest : ℕ → List PersistedReminder → Option ℕ
earliest now [] = none
earliest now (r ∷ rs) = least (get_next_fire_time r now) (earliest now rs)

fires_at-better :
    (r : PersistedReminder) (t : Option ℕ) (best : Option ReminderFire)
    → fires_at (better r t best) ≡ least (fires_at best) t
fires_at-better r none none = refl
fires_at-better r none (some f) = refl
fires_at-better r (some at) none = refl
fires_at-better r (some at) (some f) = ground arith

least_assoc : (a b c : Option ℕ) → least (least a b) c ≡ least a (least b c)
least_assoc none b c = refl
least_assoc (some a) none c = refl
least_assoc (some a) (some b) none = ground arith
least_assoc (some a) (some b) (some c) = ground arith

fires_at-next_from :
    (best : Option ReminderFire) (reminders : List PersistedReminder) (now : ℕ)
    → fires_at (next_from best reminders now) ≡ least (fires_at best) (earliest now reminders)
unfolding next_from earliest
fires_at-next_from none [] now = refl
fires_at-next_from (some f) [] now = refl
fires_at-next_from best (r ∷ rs) now = ground (
  arith,
  fires_at-next_from (better r (get_next_fire_time r now) best) rs now,
  fires_at-better r (get_next_fire_time r now) best,
  least_assoc (fires_at best) (get_next_fire_time r now) (earliest now rs),
)

-- The next reminder to fire is one at the earliest stored time later than now; there is none exactly
-- when no time is later.
pub fires_at-pick_next_fire :
    (reminders : List PersistedReminder) (now : ℕ)
    → fires_at (pick_next_fire reminders now) ≡ earliest now reminders
unfolding pick_next_fire
fires_at-pick_next_fire reminders now = fires_at-next_from none reminders now
